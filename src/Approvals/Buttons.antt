-- ===== src/Approvals/Buttons.antt =====
-- packages/2fa-telegram/src/telegram.ts: `createApprovalKeyboard`, whose buttons the webhook reads back, and
-- what it reads of a press.
use siwa.Base.{sym, true, List, [], ◌∷◌, ◌++◌, ◌≡◌, ◌≢◌, refl, some, map, arith, ap, ap₂, ◌∙◌}
use siwa.Base.Str.{Str, text, join, split, str_eq}
use siwa.Base.Str.Splitting.{Lacks, split-join, join-split}
use siwa.Base.Str.Laws.{eq_of_str_eq}
use siwa.Approvals.Webhook.{ParsedCallback, is_approve, parse_callback_data, parsed_parts}

pub record TelegramInlineButton : Type 0 where
  pub label : Str
  pub callback_data : Str

-- The labels begin with a check mark and a cross mark.
unfoldable pub create_approval_keyboard : Str → List (List TelegramInlineButton)
unfolding text
create_approval_keyboard request_id =
    (record { label = 0x2705 ∷ text " Approve"; callback_data = text "approve:" ++ request_id }
      ∷ record { label = 0x274C ∷ text " Reject"; callback_data = text "reject:" ++ request_id }
      ∷ [])
    ∷ []

module _ (request_id : Str) where
  parsed_button :
      (action : Str)
      → Lacks b':' action
      → Lacks b':' request_id
      → parse_callback_data (action ++ (b':' ∷ request_id))
        ≡ parsed_parts (action ∷ request_id ∷ [])
  unfolding parse_callback_data join
  parsed_button action plain lacks =
      ap parsed_parts (split-join b':' action (request_id ∷ []) (plain, (lacks, tt)))

approve_parts :
    (request_id : Str)
    → request_id ≢ []
    → parsed_parts (text "approve" ∷ request_id ∷ [])
      ≡ some (record { action = text "approve"; request_id = request_id })
unfolding parsed_parts text str_eq
approve_parts [] given = absurd (given refl)
approve_parts (c ∷ s) given = refl

reject_parts :
    (request_id : Str)
    → request_id ≢ []
    → parsed_parts (text "reject" ∷ request_id ∷ [])
      ≡ some (record { action = text "reject"; request_id = request_id })
unfolding parsed_parts text str_eq
reject_parts [] given = absurd (given refl)
reject_parts (c ∷ s) given = refl

-- The buttons that are sent with a request come back as "approve" and "reject" of that request, where
-- its id is not empty and has no colon.
pub parse_callback_data-create_approval_keyboard :
    (request_id : Str)
    → request_id ≢ []
    → Lacks b':' request_id
    → map
        (λ row. map (λ button. parse_callback_data button.callback_data) row)
        (create_approval_keyboard request_id)
      ≡ (some (record { action = text "approve"; request_id = request_id })
          ∷ some (record { action = text "reject"; request_id = request_id })
          ∷ [])
        ∷ []
unfolding create_approval_keyboard text
parse_callback_data-create_approval_keyboard request_id given lacks =
    ap₂ (λ a b. (a ∷ b ∷ []) ∷ [])
      (parsed_button request_id (text "approve") (omega arith) lacks
        ∙ approve_parts request_id given)
      (parsed_button request_id (text "reject") (omega arith) lacks ∙ reject_parts request_id given)

pub is_approve-true :
    (parsed : ParsedCallback) → is_approve parsed ≡ true → parsed.action ≡ text "approve"
unfolding is_approve
is_approve-true parsed h = eq_of_str_eq parsed.action (text "approve") h

parsed_parts-some :
    (parts : List Str) (parsed : ParsedCallback)
    → parsed_parts parts ≡ some parsed
    → parts ≡ parsed.action ∷ parsed.request_id ∷ []
unfolding parsed_parts
parsed_parts-some [] parsed e = absurd (cc)
parsed_parts-some (a ∷ []) parsed e = absurd (cc)
parsed_parts-some (a ∷ b ∷ []) parsed e = ground arith
parsed_parts-some (a ∷ b ∷ c ∷ more) parsed e = absurd (cc)

pub parse_callback_data-some :
    (pressed_data : Str) (parsed : ParsedCallback)
    → parse_callback_data pressed_data ≡ some parsed
    → pressed_data ≡ parsed.action ++ (b':' ∷ parsed.request_id)
unfolding parse_callback_data join
parse_callback_data-some pressed_data parsed e =
    sym (join-split b':' pressed_data)
    ∙ ap (join (b':' ∷ [])) (parsed_parts-some (split b':' pressed_data) parsed e)
