-- ===== src/Tests/Approvals.antt =====
-- Requests for approval, answered and not answered.
use siwa.Base.{ℕ, ◌<◌, ◌≤◌, ok, some, none, ◌≡◌, ◌≢◌, refl, arith, [], ◌∷◌, List, map}
use siwa.Base.Json.{Json, obj, field, end, str, null}
use siwa.Base.Str.{text, str_eq, split}
use siwa.Base.Str.Splitting.{Lacks}
use siwa.Approvals.{
  Approvals, ApprovalRequest, PendingApproval, CreateApprovalOptions, no_approvals, sign_message,
  create_pending_approval, pending_approval, fire, finish_timeout, timeout_result, get_timer,
  resolve_pending_approval,
}
use siwa.Approvals.Buttons.{create_approval_keyboard, parse_callback_data-create_approval_keyboard}
use siwa.Approvals.Consent.{approvals, WasApproved, approvals-pressed}
use siwa.Approvals.Once.{calls, calls-Reach}
use siwa.Approvals.Orphans.{create-duplicate_orphans}
use siwa.Approvals.Requests.{
  Config, Telegram, verify_internal_auth, operation_of, validate_approval_request, validated,
  formatted, delivered, handle_approval_request,
}
use siwa.Approvals.Timers.{fire-settles}
use siwa.Approvals.Transitions.{Reach, requested, pressed, here, next}
use siwa.Approvals.Webhook.{
  TelegramUpdate, handle_internal_webhook, parse_callback_data, parsed_parts, is_approve,
}

abbrev config : Config
config = record {
  telegram_bot_token = some (text "bot");
  telegram_chat_id = some (text "7");
  tfa_secret = some (text "s");
  tfa_approval_timeout_ms = 60000;
}

abbrev telegram : Telegram
telegram = record {
  format_approval_message = λ request. ok (text "?");
  send_message = λ message id. some 5;
}

abbrev body : Json
body = obj (
    field "requestId" (str (text "ab")) (
      field "operation" (str (text "sign-message"))
        (field "wallet" (str (text "0x1")) (field "payload" (obj end) end))))

abbrev approve : TelegramUpdate
approve = record {
  update_id = 1;
  callback_query =
      some (record { id = text "c"; from = 9; callback_data = some (text "approve:ab") });
}

abbrev waiting : Approvals
waiting = (handle_approval_request config telegram 100 (some (text "s")) body no_approvals).0

abbrev answered : Approvals
answered = (handle_internal_webhook 200 approve waiting).0

abbrev to_waiting : Reach config telegram no_approvals waiting
to_waiting = next here (requested 100 (some (text "s")) body)

abbrev to_answered : Reach config telegram no_approvals answered
to_answered = next to_waiting (pressed 200 approve)

approved_once : 0 < approvals 0 answered.resolved
unfolding text str_eq split siwa.Base.Json.get siwa.Base.Json.get_field siwa.Base.JsMap.get
    siwa.Base.JsMap.set siwa.Base.JsMap.delete verify_internal_auth operation_of
    validate_approval_request validated formatted delivered handle_approval_request
    create_pending_approval parsed_parts is_approve parse_callback_data handle_internal_webhook
    resolve_pending_approval siwa.Approvals.user_result approvals
approved_once = omega arith

approvals-pressed_example : WasApproved config telegram 0 answered
approvals-pressed_example = approvals-pressed config telegram 0 answered to_answered approved_once

calls-Reach_example : calls 0 answered.resolved ≤ 1
calls-Reach_example = calls-Reach config telegram 0 answered to_answered

abbrev request : ApprovalRequest
request = record {
  request_id = text "ab";
  operation = sign_message;
  wallet = text "0x1";
  payload = obj end;
  chain_id = none;
}

abbrev creation : CreateApprovalOptions
creation = record { request = request; telegram_message_id = 5; decoded_data = none }

abbrev pending : PendingApproval
pending = pending_approval 60000 100 creation 0

is_waiting : siwa.Base.JsMap.get (text "ab") waiting.pending ≡ some pending
unfolding text str_eq split siwa.Base.Json.get siwa.Base.Json.get_field siwa.Base.JsMap.get
    siwa.Base.JsMap.set siwa.Base.JsMap.delete verify_internal_auth operation_of
    validate_approval_request validated formatted delivered handle_approval_request
    create_pending_approval
is_waiting = refl

fire-settles_example :
    let t = finish_timeout 0 (fire 60000 0 waiting) in
    (get_timer 0 waiting.timers ≡ some (text "ab"))
    × (siwa.Base.JsMap.get (text "ab") t.pending ≡ none)
    × (t.resolved ≡ (0, timeout_result 60000) ∷ waiting.resolved)
fire-settles_example =
    fire-settles config telegram waiting (text "ab") pending to_waiting is_waiting

create-duplicate_orphans_example :
    calls 0 (create_pending_approval 60000 300 creation waiting).resolved ≡ 0
create-duplicate_orphans_example =
    create-duplicate_orphans config telegram waiting
      (create_pending_approval 60000 300 creation waiting) pending 300 creation to_waiting
      is_waiting here

ab_given : text "ab" ≢ []
unfolding text
ab_given = cc

ab_plain : Lacks b':' (text "ab")
unfolding text
ab_plain = omega arith

parse_callback_data-create_approval_keyboard_example :
    map
      (λ row. map (λ button. parse_callback_data button.callback_data) row)
      (create_approval_keyboard (text "ab"))
    ≡ (some (record { action = text "approve"; request_id = text "ab" })
        ∷ some (record { action = text "reject"; request_id = text "ab" })
        ∷ [])
      ∷ []
parse_callback_data-create_approval_keyboard_example =
    parse_callback_data-create_approval_keyboard (text "ab") ab_given ab_plain
