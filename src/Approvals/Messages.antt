-- ===== src/Approvals/Messages.antt =====
-- packages/2fa-telegram/src/message-formatter.ts: the texts that the user is shown. The members of a
-- payload are written by template literals, whose reading of a JSON value is a parameter.
pub mod Escaped
use siwa.Base.{
  ℕ, ◌/◌, Bool, true, false, ◌&&◌, not, Option, none, some, List, [], ◌∷◌, ◌++◌, ◌==◌,
  if◌then◌else◌, ltb, length, or_else, String, Result, ok, throws, ◌>>=◌, is_some,
}
use siwa.Base.Json.{Json, num, str, get}
use siwa.Base.Int.{ℤ, pos}
use siwa.Base.Numbers.{show_nat}
use siwa.Base.Str.{Str, text, str_eq}
use siwa.Approvals.{Operation, sign_message, sign_transaction, sign_authorization, ApprovalRequest}
use siwa.Approvals.Decoder.{
  Formatting, Lookup, Signatures, take, get_chain_name, format_value, truncate_address,
  decode_transaction_data,
}

-- s.replace(/c/g, t)
unfoldable pub replace_all : ℕ → Str → Str → Str
replace_all c t [] = []
replace_all c t (x ∷ s) = let rest = replace_all c t s in if x == c then t ++ rest else x ∷ rest

unfoldable pub escape_html : Str → Str
unfolding text replace_all
escape_html s =
    replace_all b'>' (text "&gt;")
      (replace_all b'<' (text "&lt;") (replace_all b'&' (text "&amp;") s))

-- The message as it is shown, cut behind five hundred units.
unfoldable pub display_message : Str → Str
unfolding text take
display_message message =
    if ltb 500 (length message) then take 500 message ++ text "..." else message

unfoldable pub format_message_details : Str → Str
unfolding text escape_html display_message
format_message_details message =
    b'\n' ∷ 0xD83D ∷ 0xDCE8 ∷ text " <b>Message</b>"
    ++ (b'\n' ∷ text "<pre>"
        ++ (escape_html (display_message message) ++ (text "</pre>" ++ (b'\n' ∷ []))))

unfoldable pub format_operation_name : Operation → Str
unfolding text
format_operation_name sign_transaction = text "Sign Transaction"
format_operation_name sign_message = text "Sign Message"
format_operation_name sign_authorization = text "Sign Authorization (EIP-7702)"

-- Lines, each ended.
unfoldable pub lines : List Str → Str
lines [] = []
lines (l ∷ ls) = l ++ (b'\n' ∷ lines ls)

-- What a transaction shows, its members given as texts.
pub record ShownTransaction : Type 0 where
  pub to : Option Str
  pub value : Option Str
  pub call_data : Option Str
  pub nonce : Option Str

abbrev pub shown_to : Option Str → Str
unfolding text lines
shown_to none = []
shown_to (some []) = []
shown_to (some (c ∷ to)) = lines (
    []
    ∷ (0xD83D ∷ 0xDCE4 ∷ text " <b>To</b>")
    ∷ (text "<code>" ++ ((c ∷ to) ++ text "</code>"))
    ∷ [])

abbrev pub shown_data : Option Str → (decoded : Str) → Str
unfolding text lines str_eq
shown_data none decoded = []
shown_data (some []) decoded = []
shown_data (some (c ∷ d)) decoded =
    if str_eq (c ∷ d) (text "0x")
    then []
    else lines (
        []
        ∷ (0xD83D ∷ 0xDCE6 ∷ text " <b>Data</b>")
        ∷ (text "<code>" ++ (decoded ++ text "</code>"))
        ∷ [])

abbrev pub shown_nonce : Option Str → Str
unfolding text lines
shown_nonce none = []
shown_nonce (some nonce) = lines ([] ∷ (0xD83D ∷ 0xDD22 ∷ text " <b>Nonce</b>") ∷ nonce ∷ [])

unfoldable pub format_transaction_details :
    Formatting → ShownTransaction → (decoded_data : Str) → Str
unfolding text lines format_value shown_to shown_data shown_nonce
format_transaction_details f tx decoded_data =
    shown_to tx.to
    ++ (lines ([] ∷ (0xD83D ∷ 0xDCB0 ∷ text " <b>Value</b>") ∷ format_value f tx.value ∷ [])
        ++ (shown_data tx.call_data decoded_data ++ shown_nonce tx.nonce))

unfoldable pub format_authorization_details : (address : Str) → (nonce : Option Str) → Str
unfolding text lines
format_authorization_details address none = lines (
    []
    ∷ (0xD83D ∷ 0xDD17 ∷ text " <b>Delegate To</b>")
    ∷ (text "<code>" ++ (address ++ text "</code>"))
    ∷ []
    ∷ [])
format_authorization_details address (some nonce) = lines (
    []
    ∷ (0xD83D ∷ 0xDD17 ∷ text " <b>Delegate To</b>")
    ∷ (text "<code>" ++ (address ++ text "</code>"))
    ∷ []
    ∷ (0xD83D ∷ 0xDD22 ∷ text " <b>Nonce</b>")
    ∷ nonce
    ∷ [])

-- An outcome with its heading, the request and a last line.
unfoldable pub outcome :
    (heading : Str) → (request_id : Str) → Operation → (wallet : Str) → (last : Str) → Str
unfolding text lines format_operation_name truncate_address
outcome heading request_id operation wallet last =
    lines (
      heading
      ∷ []
      ∷ (text "Request ID: <code>" ++ (request_id ++ text "</code>"))
      ∷ (text "Operation: " ++ format_operation_name operation)
      ∷ (text "Wallet: <code>" ++ (truncate_address wallet ++ text "</code>"))
      ∷ [])
    ++ last

-- (milliseconds / 1000).toFixed(1), a parameter.
abbrev pub Seconds : Type 0
Seconds = ℕ → Str

unfoldable pub format_approved_message :
    Seconds → (request_id : Str) → Operation → (wallet : Str) → (response_time_ms : ℕ) → Str
unfolding text outcome
format_approved_message seconds request_id operation wallet response_time_ms =
    outcome (0x2705 ∷ text " <b>APPROVED</b>") request_id operation wallet
      (text "Response time: " ++ (seconds response_time_ms ++ text "s"))

unfoldable pub format_rejected_message :
    Seconds → (request_id : Str) → Operation → (wallet : Str) → (response_time_ms : ℕ) → Str
unfolding text outcome
format_rejected_message seconds request_id operation wallet response_time_ms =
    outcome (0x274C ∷ text " <b>REJECTED</b>") request_id operation wallet
      (text "Response time: " ++ (seconds response_time_ms ++ text "s"))

unfoldable pub format_expired_message : (request_id : Str) → Operation → (wallet : Str) → ℕ → Str
unfolding text show_nat outcome
format_expired_message request_id operation wallet timeout_seconds =
    outcome (0x23F0 ∷ text " <b>EXPIRED</b>") request_id operation wallet
      (text "No response within " ++ (show_nat timeout_seconds ++ text "s"))
