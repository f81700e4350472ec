-- ===== src/Message.antt =====
-- packages/siwa/src/siwa.ts: the message's fields, `buildSIWAMessage` and `parseSIWAMessage`.
-- An absent or undefined property is `none`.
pub mod RoundTrip
pub mod Parsing
use siwa.Base.{
  ℕ, zero, suc, ◌+◌, Bool, true, false, ◌&&◌, ◌||◌, not, Option, none, some, List, [], ◌∷◌, ◌++◌,
  ◌==◌, if◌then◌else◌, or_else, any, length, Result, ok, throws, ◌≡◌, refl,
}
use siwa.Base.Int.{Number}
use siwa.Base.Numbers.{show_number, parse_int}
use siwa.Base.Str.{
  Str, text, str_eq, starts_with, split, split₂, includes₂, join, trim, is_line_end,
}

pub record SiwaMessageFields : Type 0 where
  pub domain : Str
  pub address : Str
  pub statement : Option Str
  pub uri : Str
  pub version : Option Str
  pub agent_id : Number
  pub agent_registry : Str
  pub chain_id : Number
  pub nonce : Str
  pub issued_at : Str
  pub expiration_time : Option Str
  pub not_before : Option Str
  pub request_id : Option Str

-- `s || undefined`: an empty string is falsy.
abbrev pub given : Option Str → Option Str
given none = none
given (some []) = none
given (some (c ∷ s)) = some (c ∷ s)

abbrev pub one_line : Option Str → List Str
one_line none = []
one_line (some s) = s ∷ []

abbrev pub labelled : Str → Option Str → List Str
labelled label none = []
labelled label (some s) = (label ++ s) ∷ []

unfoldable pub domain_suffix : Str
unfolding text
domain_suffix = text " wants you to sign in with your Agent account:"

-- The lines that `buildSIWAMessage` pushes, in order.
pub message_lines : SiwaMessageFields → List Str
unfolding domain_suffix show_number text
message_lines f =
    (f.domain ++ domain_suffix)
    ∷ f.address
    ∷ []
    ∷ (one_line (given f.statement)
        ++ ([]
            ∷ (text "URI: " ++ f.uri)
            ∷ (text "Version: " ++ or_else (given f.version) (text "1"))
            ∷ (text "Agent ID: " ++ show_number f.agent_id)
            ∷ (text "Agent Registry: " ++ f.agent_registry)
            ∷ (text "Chain ID: " ++ show_number f.chain_id)
            ∷ (text "Nonce: " ++ f.nonce)
            ∷ (text "Issued At: " ++ f.issued_at)
            ∷ (labelled (text "Expiration Time: ") (given f.expiration_time)
                ++ (labelled (text "Not Before: ") (given f.not_before)
                    ++ labelled (text "Request ID: ") (given f.request_id)))))

unfoldable pub build_siwa_message : SiwaMessageFields → Str
unfolding message_lines join
build_siwa_message f = join (b'\n' ∷ []) (message_lines f)

-- What stands before `suffix` at the end of `s`.
before_suffix : Str → Str → Option Str
before_suffix suffix [] = if str_eq [] suffix then some [] else none
before_suffix suffix (c ∷ s) =
    let longer : Option Str = elim (before_suffix suffix s) [
      | none ↦ none
      | some p ↦ some (c ∷ p)
    ] in
    if str_eq (c ∷ s) suffix then some [] else longer

-- What `.+` matches as a whole.
dots : Str → Option Str
dots [] = none
dots (c ∷ s) = if any is_line_end (c ∷ s) then none else some (c ∷ s)

dots_of : Option Str → Option Str
dots_of none = none
dots_of (some p) = dots p

-- line.match(/^(.+) wants you to sign in with your Agent account:$/)
pub match_domain : Str → Option Str
match_domain line = dots_of (before_suffix domain_suffix line)

pub record ParseState : Type 0 where
  pub field_map : List (Str × Str)
  pub statement : Option Str
  pub in_statement : Bool
  pub stmt_lines : List Str

-- A later line with the same key overwrites an earlier one: it stands in front of it.
put_parts : List Str → ParseState → ParseState
put_parts [] st = st
put_parts (key ∷ rest) st = record st {
  field_map = (key, join (b':' ∷ b' ' ∷ []) rest) ∷ st.field_map;
}

pub put_field : Str → ParseState → ParseState
put_field line st = put_parts (split₂ b':' b' ' line) st

pub close_statement : Str → ParseState → ParseState
close_statement line st =
    let closed : ParseState = record st {
      in_statement = false;
      statement = given (some (trim (join (b'\n' ∷ []) st.stmt_lines)));
    } in
    if starts_with line (text "URI: ") then put_field line closed else closed

-- One round of the loop over `lines[i]`.
pub parse_line : ℕ → Str → ParseState → ParseState
parse_line i line st =
    if i == 2 && str_eq line []
    then record st { in_statement = true }
    else if st.in_statement
    then (if str_eq line [] || starts_with line (text "URI: ")
        then close_statement line st
        else record st { stmt_lines = st.stmt_lines ++ (line ∷ []) })
    else if includes₂ b':' b' ' line
    then put_field line st
    else st

pub parse_lines : ℕ → List Str → ParseState → ParseState
parse_lines i [] st = st
parse_lines i (line ∷ lines) st = parse_lines (suc i) lines (parse_line i line st)

pub look : Str → List (Str × Str) → Option Str
look k [] = none
look k ((j, v) ∷ m) = let rest = look k m in if str_eq j k then some v else rest

pub initial : ParseState
initial = record { field_map = []; statement = none; in_statement = false; stmt_lines = [] }

abbrev of_state : Str → Str → ParseState → SiwaMessageFields
of_state domain address st = record {
  domain = domain;
  address = address;
  statement = st.statement;
  uri = or_else (given (look (text "URI") st.field_map)) [];
  version = some (or_else (given (look (text "Version") st.field_map)) (text "1"));
  agent_id = parse_int (or_else (given (look (text "Agent ID") st.field_map)) (text "0"));
  agent_registry = or_else (given (look (text "Agent Registry") st.field_map)) [];
  chain_id = parse_int (or_else (given (look (text "Chain ID") st.field_map)) (text "0"));
  nonce = or_else (given (look (text "Nonce") st.field_map)) [];
  issued_at = or_else (given (look (text "Issued At") st.field_map)) [];
  expiration_time = look (text "Expiration Time") st.field_map;
  not_before = look (text "Not Before") st.field_map;
  request_id = look (text "Request ID") st.field_map;
}

-- `!address || !address.startsWith('0x') || address.length !== 42`, negated.
unfoldable pub address_ok : Str → Bool
unfolding starts_with text
address_ok address = starts_with address (text "0x") && length address == 42

pub parse_body : Str → List Str → Result SiwaMessageFields
parse_body domain [] = throws (text "Invalid SIWA message: missing or malformed address")
parse_body domain (address ∷ lines) =
    if address_ok address
    then ok (of_state domain address (parse_lines 2 lines initial))
    else throws (text "Invalid SIWA message: missing or malformed address")

pub with_domain : Option Str → List Str → Result SiwaMessageFields
with_domain none lines = throws (text "Invalid SIWA message: missing domain line")
with_domain (some domain) lines = parse_body domain lines

pub parse_head : List Str → Result SiwaMessageFields
parse_head [] = with_domain none []
parse_head (first ∷ lines) = with_domain (match_domain first) lines

unfoldable pub parse_siwa_message : Str → Result SiwaMessageFields
unfolding parse_head with_domain parse_body address_ok initial look parse_lines parse_line
    close_statement put_field put_parts match_domain dots_of dots before_suffix domain_suffix
    parse_int split split₂ includes₂ join trim starts_with str_eq is_line_end text
parse_siwa_message message = parse_head (split b'\n' message)

pub build_siwa_message_lem :
    (f : SiwaMessageFields) → build_siwa_message f ≡ join (b'\n' ∷ []) (message_lines f)
unfolding build_siwa_message
build_siwa_message_lem f = refl

pub parse_siwa_message_lem :
    (message : Str) → parse_siwa_message message ≡ parse_head (split b'\n' message)
unfolding parse_siwa_message
parse_siwa_message_lem message = refl
