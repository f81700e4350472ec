-- ===== src/Approvals/Webhook.antt =====
-- packages/2fa-telegram/src/internal-webhook.ts: what a press of a button does. The calls of Telegram
-- give nothing that the handler reads, so they are left out.
use siwa.Base.{ℕ, Bool, ◌||◌, not, Option, none, some, List, [], ◌∷◌, if◌then◌else◌}
use siwa.Base.JsMap.{get}
use siwa.Base.Str.{Str, text, str_eq, split}
use siwa.Token.{is_empty}
use siwa.Approvals.{Approvals, PendingApproval, ApprovalResult, resolve_pending_approval}

pub record ParsedCallback : Type 0 where
  pub action : Str
  pub request_id : Str

unfoldable pub parsed_parts : List Str → Option ParsedCallback
unfolding text str_eq
parsed_parts (action ∷ request_id ∷ []) =
    if not (str_eq action (text "approve") || str_eq action (text "reject"))
    then none
    else if is_empty request_id
    then none
    else some (record { action = action; request_id = request_id })
parsed_parts parts = none

unfoldable pub parse_callback_data : Str → Option ParsedCallback
unfolding split parsed_parts
parse_callback_data pressed = parsed_parts (split b':' pressed)

-- The press of a button; `from` is the Telegram user.
pub record TelegramCallbackQuery : Type 0 where
  pub id : Str
  pub from : ℕ
  pub callback_data : Option Str

pub record TelegramUpdate : Type 0 where
  pub update_id : ℕ
  pub callback_query : Option TelegramCallbackQuery

pub data WebhookReply : Type 0 where
  no_callback ignored request_not_found resolve_failed : WebhookReply
  answered : Bool → WebhookReply

abbrev pub replied : Bool → Approvals × Option ApprovalResult → Approvals × WebhookReply
replied approved (s, none) = (s, resolve_failed)
replied approved (s, some result) = (s, answered approved)

-- const approved = action === "approve"
unfoldable pub is_approve : ParsedCallback → Bool
unfolding text str_eq
is_approve parsed = str_eq parsed.action (text "approve")

abbrev pub press_found :
    ℕ → ParsedCallback → Approvals → Option PendingApproval → Approvals × WebhookReply
press_found now parsed s none = (s, request_not_found)
press_found now parsed s (some p) =
    replied (is_approve parsed)
      (resolve_pending_approval now parsed.request_id (is_approve parsed) s)

abbrev pub press_parsed : ℕ → Approvals → Option ParsedCallback → Approvals × WebhookReply
press_parsed now s none = (s, ignored)
press_parsed now s (some parsed) = press_found now parsed s (get parsed.request_id s.pending)

abbrev pub press_data : ℕ → Approvals → Option Str → Approvals × WebhookReply
press_data now s none = (s, ignored)
press_data now s (some pressed) =
    if is_empty pressed then (s, ignored) else press_parsed now s (parse_callback_data pressed)

abbrev pub press : ℕ → Approvals → Option TelegramCallbackQuery → Approvals × WebhookReply
press now s none = (s, no_callback)
press now s (some callback) = press_data now s callback.callback_data

unfoldable pub handle_internal_webhook : ℕ → TelegramUpdate → Approvals → Approvals × WebhookReply
handle_internal_webhook now update s = press now s update.callback_query
