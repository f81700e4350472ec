-- ===== src/Approvals/Requests.antt =====
-- packages/2fa-telegram/src/approval-handler.ts, and config.ts: which requests are put before the user.
-- The message that is shown and its delivery by Telegram are parameters.
use siwa.Base.{
  ℕ, zero, suc, Bool, true, false, not, Option, none, some, List, [], ◌∷◌, ◌++◌, if◌then◌else◌,
  String, Result, ok, throws,
}
use siwa.Base.Json.{Json, num, str, arr, obj, get}
use siwa.Base.Str.{Str, text, str_eq}
use siwa.Token.{is_empty}
use siwa.Approvals.{
  Approvals, ApprovalRequest, CreateApprovalOptions, Operation, sign_message, sign_transaction,
  sign_authorization, create_pending_approval,
}

pub record Config : Type 0 where
  pub telegram_bot_token : Option Str
  pub telegram_chat_id : Option Str
  pub tfa_secret : Option Str
  pub tfa_approval_timeout_ms : ℕ

abbrev pub missing : Option Str → String → List Str
unfolding text
missing none message = text message ∷ []
missing (some s) message = if is_empty s then text message ∷ [] else []

-- The errors on which the server exits instead of starting.
unfoldable pub validate_config : Config → List Str
validate_config config =
    missing config.telegram_bot_token "TELEGRAM_BOT_TOKEN is required"
    ++ (missing config.telegram_chat_id "TELEGRAM_CHAT_ID is required"
        ++ missing config.tfa_secret "TFA_SECRET is required")

-- s === t on values that may be undefined
abbrev pub same_secret : Option Str → Option Str → Bool
unfolding str_eq
same_secret none none = true
same_secret none (some t) = false
same_secret (some s) none = false
same_secret (some s) (some t) = str_eq s t

unfoldable pub verify_internal_auth : Config → Option Str → Bool
verify_internal_auth config secret = same_secret secret config.tfa_secret

-- typeof value === "string" && value
abbrev pub text_field : Option Json → Option Str
text_field (some (str [])) = none
text_field (some (str (c ∷ s))) = some (c ∷ s)
text_field v = none

unfoldable pub operation_of : Str → Option Operation
unfolding text str_eq
operation_of s =
    if str_eq s (text "sign-message")
    then some sign_message
    else if str_eq s (text "sign-transaction")
    then some sign_transaction
    else if str_eq s (text "sign-authorization")
    then some sign_authorization
    else none

abbrev pub operation_field : Option Json → Option Operation
operation_field (some (str s)) = operation_of s
operation_field v = none

-- req.payload && typeof req.payload === "object"
abbrev pub object_field : Option Json → Option Json
object_field (some (arr items)) = some (arr items)
object_field (some (obj fields)) = some (obj fields)
object_field v = none

abbrev pub number_field : Option Json → Option Json
number_field (some (num z)) = some (num z)
number_field v = none

unfoldable pub validate_approval_request : Json → Option ApprovalRequest
unfolding get
validate_approval_request body = elim (text_field (get body "requestId")) [
  | none ↦ none
  | some request_id ↦ elim (operation_field (get body "operation")) [
    | none ↦ none
    | some operation ↦ elim (text_field (get body "wallet")) [
      | none ↦ none
      | some wallet ↦ elim (object_field (get body "payload")) [
        | none ↦ none
        | some payload ↦ some (record {
          request_id = request_id;
          operation = operation;
          wallet = wallet;
          payload = payload;
          chain_id = number_field (get body "chainId");
        })
      ]
    ]
  ]
]

-- The response, or the promise that the response waits for.
pub data ApprovalReply : Type 0 where
  replies : (status : ℕ) → Str → ApprovalReply
  waits : (promise : ℕ) → ApprovalReply

-- formatApprovalMessage, which may throw, and sendMessage with the keyboard of the request
pub record Telegram : Type 0 where
  pub format_approval_message : ApprovalRequest → Result Str
  pub send_message : Str → Str → Option ℕ

module _ (config : Config) (telegram : Telegram) (now : ℕ) where
  unfoldable pub delivered : ApprovalRequest → Option ℕ → Approvals → Approvals × ApprovalReply
  unfolding text
  delivered request none s = (s, replies 502 (text "Failed to send Telegram message"))
  delivered request (some zero) s = (s, replies 502 (text "Failed to send Telegram message"))
  delivered request (some (suc n)) s =
      let options : CreateApprovalOptions = record {
        request = request;
        telegram_message_id = suc n;
        decoded_data = none;
      } in
      (create_pending_approval config.tfa_approval_timeout_ms now options s, waits s.fresh)

  unfoldable pub formatted : ApprovalRequest → Result Str → Approvals → Approvals × ApprovalReply
  unfolding text delivered
  formatted request (throws e) s = (s, replies 500 (text "Internal server error"))
  formatted request (ok message) s =
      delivered request (telegram.send_message message request.request_id) s

  unfoldable pub validated : Option ApprovalRequest → Approvals → Approvals × ApprovalReply
  unfolding text formatted
  validated none s = (s, replies 400 (text "Invalid request body"))
  validated (some request) s = formatted request (telegram.format_approval_message request) s

  unfoldable pub handle_approval_request : Option Str → Json → Approvals → Approvals × ApprovalReply
  unfolding text validated
  handle_approval_request secret body s =
      if not (verify_internal_auth config secret)
      then (s, replies 401 (text "Unauthorized"))
      else validated (validate_approval_request body) s
