-- ===== src/Message/RoundTrip.antt =====
-- The parser reads back what the builder wrote.
use siwa.Base.{
  ℕ, suc, ◌≤◌, true, Option, none, some, List, [], ◌∷◌, ◌++◌, or_else, All, All-append, All-map, ok,
  ◌≡◌, ◌≢◌, refl, ap, ◌∙◌, arith, map,
}
use siwa.Base.Int.{Number, nan, int, pos, negsuc}
use siwa.Base.Numbers.{show_number, show_nat}
use siwa.Base.Numbers.RoundTrip.{parse_int-show_number, show_nat-IsDigit, IsDigit, show_nat-ne-nil}
use siwa.Base.Str.{Str, text, str_eq, split, join, is_line_end}
use siwa.Base.Str.Splitting.{Lacks, split-join}
use siwa.Message.{
  SiwaMessageFields, given, domain_suffix, ParseState, labelled, address_ok, parse_head, parse_body,
  parse_lines, look, initial, one_line, message_lines, build_siwa_message, parse_siwa_message,
  of_state, with_domain, build_siwa_message_lem, parse_siwa_message_lem,
}
use siwa.Message.Parsing.{
  show_field, ForSome, IsStatement, parse_lines-fields, rev_onto, parse_lines-statement,
  after_statement, after_statement_lem, statement_end, match_domain-append, HasNoLineEnd,
}

abbrev optional : Str → Option Str → List (Str × Str)
optional key none = []
optional key (some v) = (key, v) ∷ []

-- The fields below the statement, as keys and values.
entries_with : SiwaMessageFields → (e n r : Option Str) → List (Str × Str)
entries_with f e n r =
    (text "URI", f.uri)
    ∷ (text "Version", or_else (given f.version) (text "1"))
    ∷ (text "Agent ID", show_number f.agent_id)
    ∷ (text "Agent Registry", f.agent_registry)
    ∷ (text "Chain ID", show_number f.chain_id)
    ∷ (text "Nonce", f.nonce)
    ∷ (text "Issued At", f.issued_at)
    ∷ (optional (text "Expiration Time") e
        ++ (optional (text "Not Before") n ++ optional (text "Request ID") r))

entries : SiwaMessageFields → List (Str × Str)
unfolding entries_with
entries f = entries_with f (given f.expiration_time) (given f.not_before) (given f.request_id)

optional-lines :
    (e n r : Option Str)
    → (labelled (text "Expiration Time: ") e
        ++ (labelled (text "Not Before: ") n ++ labelled (text "Request ID: ") r))
      ≡ map show_field (
          optional (text "Expiration Time") e
          ++ (optional (text "Not Before") n ++ optional (text "Request ID") r))
unfolding text
optional-lines none none none = refl
optional-lines none none (some r) = refl
optional-lines none (some n) none = refl
optional-lines none (some n) (some r) = refl
optional-lines (some e) none none = refl
optional-lines (some e) none (some r) = refl
optional-lines (some e) (some n) none = refl
optional-lines (some e) (some n) (some r) = refl

entry_lines : SiwaMessageFields → List Str
entry_lines f =
    (text "URI: " ++ f.uri)
    ∷ (text "Version: " ++ or_else (given f.version) (text "1"))
    ∷ (text "Agent ID: " ++ show_number f.agent_id)
    ∷ (text "Agent Registry: " ++ f.agent_registry)
    ∷ (text "Chain ID: " ++ show_number f.chain_id)
    ∷ (text "Nonce: " ++ f.nonce)
    ∷ (text "Issued At: " ++ f.issued_at)
    ∷ (labelled (text "Expiration Time: ") (given f.expiration_time)
        ++ (labelled (text "Not Before: ") (given f.not_before)
            ++ labelled (text "Request ID: ") (given f.request_id)))

entry_lines-entries : (f : SiwaMessageFields) → entry_lines f ≡ map show_field (entries f)
unfolding entry_lines entries text
entry_lines-entries f =
    cc (optional-lines (given f.expiration_time) (given f.not_before) (given f.request_id))

-- The fields as the parser gives them back: absent and empty properties are one, and the version
-- is filled in.
unfoldable pub normal : SiwaMessageFields → SiwaMessageFields
normal f = record f {
  statement = given f.statement;
  version = some (or_else (given f.version) (text "1"));
  expiration_time = given f.expiration_time;
  not_before = given f.not_before;
  request_id = given f.request_id;
}

-- Fields that fit into the lines of a message.
pub record IsWellFormed (f : SiwaMessageFields) : Type 0 where
  pub domain_given : f.domain ≢ []
  pub domain : HasNoLineEnd f.domain
  pub address_valid : address_ok f.address ≡ true
  pub address : Lacks b'\n' f.address
  pub statement : ForSome IsStatement (given f.statement)
  pub uri : Lacks b'\n' f.uri
  pub version : ForSome (Lacks b'\n') (given f.version)
  pub agent_registry : Lacks b'\n' f.agent_registry
  pub nonce : Lacks b'\n' f.nonce
  pub issued_at : Lacks b'\n' f.issued_at
  pub expiration_time : ForSome (Lacks b'\n') (given f.expiration_time)
  pub not_before : ForSome (Lacks b'\n') (given f.not_before)
  pub request_id : ForSome (Lacks b'\n') (given f.request_id)

keys-Lacks : (f : SiwaMessageFields) → All (λ kv. Lacks b':' kv.0) (entries f)
unfolding entries text
keys-Lacks f = ground (arith)

or_else-nil : (s : Str) → or_else (given (some s)) [] ≡ s
or_else-nil [] = refl
or_else-nil (c ∷ s) = refl

or_else-given : (s d : Str) → s ≢ [] → or_else (given (some s)) d ≡ s
or_else-given [] d h = absurd (h refl)
or_else-given (c ∷ s) d h = refl

version-ne-nil : (v : Option Str) → or_else (given v) (text "1") ≢ []
unfolding text
version-ne-nil none = cc
version-ne-nil (some []) = cc
version-ne-nil (some (c ∷ s)) = cc

show_number-ne-nil : (n : Number) → show_number n ≢ []
unfolding show_number
show_number-ne-nil nan = nan_text
  where
    nan_text : text "NaN" ≢ []
    nan_text = cc
show_number-ne-nil (int (pos n)) = show_nat-ne-nil n
show_number-ne-nil (int (negsuc n)) = cc

statement_end-le : (o : Option Str) → 3 ≤ statement_end o
statement_end-le none = omega arith
statement_end-le (some s) = omega arith

abbrev NotNewline : ℕ → Type 0
NotNewline c = c ≢ b'\n'

labelled-Lacks :
    (label : Str) (o : Option Str)
    → Lacks b'\n' label
    → ForSome (Lacks b'\n') o
    → All (Lacks b'\n') (labelled label o)
labelled-Lacks label none h k = tt
labelled-Lacks label (some s) h k = (All-append NotNewline label s h k, tt)

one_line-Lacks : (o : Option Str) → ForSome IsStatement o → All (Lacks b'\n') (one_line o)
one_line-Lacks none h = tt
one_line-Lacks (some s) h = (h.lacks, tt)

version-Lacks : (o : Option Str) → ForSome (Lacks b'\n') o → Lacks b'\n' (or_else o (text "1"))
unfolding text
version-Lacks none h = omega arith
version-Lacks (some s) h = h

digits-Lacks : (s : Str) → All IsDigit s → Lacks b'\n' s
digits-Lacks s h = All-map IsDigit NotNewline (λ c d. omega arith) s h

show_number-Lacks : (n : Number) → Lacks b'\n' (show_number n)
unfolding show_number
show_number-Lacks nan = nan_text
  where
    nan_text : Lacks b'\n' (text "NaN")
    nan_text = omega arith
show_number-Lacks (int (pos n)) = digits-Lacks (show_nat n) (show_nat-IsDigit n)
show_number-Lacks (int (negsuc n)) =
    (omega arith, digits-Lacks (show_nat (suc n)) (show_nat-IsDigit (suc n)))

domain-Lacks : (d : Str) → HasNoLineEnd d → Lacks b'\n' (d ++ domain_suffix)
unfolding domain_suffix is_line_end
domain-Lacks d h =
    All-append NotNewline d domain_suffix (All-map _ NotNewline (λ c e. ground arith) d h)
      (omega arith)

module _ (f : SiwaMessageFields) where
  abbrev Looks : (e n r : Option Str) → List (Str × Str) → Type 0
  Looks e n r m =
      (look (text "URI") m ≡ some f.uri)
      × (look (text "Version") m ≡ some (or_else (given f.version) (text "1")))
      × (look (text "Agent ID") m ≡ some (show_number f.agent_id))
      × (look (text "Agent Registry") m ≡ some f.agent_registry)
      × (look (text "Chain ID") m ≡ some (show_number f.chain_id))
      × (look (text "Nonce") m ≡ some f.nonce)
      × (look (text "Issued At") m ≡ some f.issued_at)
      × (look (text "Expiration Time") m ≡ e)
      × (look (text "Not Before") m ≡ n)
      × (look (text "Request ID") m ≡ r)

  looks : (e n r : Option Str) → Looks e n r (rev_onto (entries_with f e n r) [])
  unfolding entries_with look str_eq text
  looks none none none = (refl, refl, refl, refl, refl, refl, refl, refl, refl, refl)
  looks none none (some r) = (refl, refl, refl, refl, refl, refl, refl, refl, refl, refl)
  looks none (some n) none = (refl, refl, refl, refl, refl, refl, refl, refl, refl, refl)
  looks none (some n) (some r) = (refl, refl, refl, refl, refl, refl, refl, refl, refl, refl)
  looks (some e) none none = (refl, refl, refl, refl, refl, refl, refl, refl, refl, refl)
  looks (some e) none (some r) = (refl, refl, refl, refl, refl, refl, refl, refl, refl, refl)
  looks (some e) (some n) none = (refl, refl, refl, refl, refl, refl, refl, refl, refl, refl)
  looks (some e) (some n) (some r) = (refl, refl, refl, refl, refl, refl, refl, refl, refl, refl)

  of_state-Looks :
      (st : ParseState)
      → st.statement ≡ given f.statement
      → Looks (given f.expiration_time) (given f.not_before) (given f.request_id) st.field_map
      → of_state f.domain f.address st ≡ normal f
  unfolding normal
  of_state-Looks st s (u, v, a, g, c, o, i, e, n, r) = simp (
    u,
    v,
    a,
    g,
    c,
    o,
    i,
    e,
    n,
    r,
    s,
    or_else-nil,
    or_else-given _ (text "1") (version-ne-nil f.version),
    or_else-given _ (text "0") (show_number-ne-nil f.agent_id),
    or_else-given _ (text "0") (show_number-ne-nil f.chain_id),
    parse_int-show_number,
  )

  optional_lines-Lacks :
      IsWellFormed f
      → All (Lacks b'\n') (
          labelled (text "Expiration Time: ") (given f.expiration_time)
          ++ (labelled (text "Not Before: ") (given f.not_before)
              ++ labelled (text "Request ID: ") (given f.request_id)))
  unfolding text
  optional_lines-Lacks w =
      All-append (Lacks b'\n') (labelled (text "Expiration Time: ") (given f.expiration_time)) _
        (labelled-Lacks (text "Expiration Time: ") _ (omega arith) w.expiration_time)
        (All-append (Lacks b'\n') (labelled (text "Not Before: ") (given f.not_before)) _
          (labelled-Lacks (text "Not Before: ") _ (omega arith) w.not_before)
          (labelled-Lacks (text "Request ID: ") (given f.request_id) (omega arith) w.request_id))

  entry_lines-Lacks : IsWellFormed f → All (Lacks b'\n') (entry_lines f)
  unfolding entry_lines text
  entry_lines-Lacks w = (
    All-append NotNewline (text "URI: ") f.uri (omega arith) w.uri,
    (
      All-append NotNewline (text "Version: ") _ (omega arith)
          (version-Lacks (given f.version) w.version),
      (
        All-append NotNewline (text "Agent ID: ") _ (omega arith) (show_number-Lacks f.agent_id),
        (
          All-append NotNewline (text "Agent Registry: ") _ (omega arith) w.agent_registry,
          (
            All-append NotNewline (text "Chain ID: ") _ (omega arith)
                (show_number-Lacks f.chain_id),
            (
              All-append NotNewline (text "Nonce: ") _ (omega arith) w.nonce,
              (
                All-append NotNewline (text "Issued At: ") _ (omega arith) w.issued_at,
                optional_lines-Lacks w,
              ),
            ),
          ),
        ),
      ),
    ),
  )

  -- Every line of the message is one line.
  lines-Lacks : IsWellFormed f → All (Lacks b'\n') (message_lines f)
  unfolding message_lines entry_lines
  lines-Lacks w = (
    domain-Lacks f.domain w.domain,
    (
      w.address,
      (
        tt,
        All-append (Lacks b'\n') (one_line (given f.statement)) ([] ∷ entry_lines f)
            (one_line-Lacks (given f.statement) w.statement) (tt, entry_lines-Lacks w),
      ),
    ),
  )

  body-message_lines :
      IsWellFormed f
      → of_state f.domain f.address
          (parse_lines 2 ([] ∷ (one_line (given f.statement) ++ ([] ∷ entry_lines f))) initial)
        ≡ normal f
  unfolding entries
  body-message_lines w =
      let o : Option Str = given f.statement in
      let (no_map, same, out) = after_statement_lem o in
      ap (of_state f.domain f.address) (
        parse_lines-statement (entry_lines f) f.statement w.statement
        ∙ ap (λ ls. parse_lines (statement_end o) ls (after_statement o)) (entry_lines-entries f)
        ∙ parse_lines-fields (statement_end o) (entries f) (after_statement o) (statement_end-le o)
            (keys-Lacks f) out
        ∙ ap (λ m. record (after_statement o) { field_map = rev_onto (entries f) m }) no_map)
      ∙ of_state-Looks (record (after_statement o) { field_map = rev_onto (entries f) [] }) same
          (looks (given f.expiration_time) (given f.not_before) (given f.request_id))

  parse_head-message_lines : IsWellFormed f → parse_head (message_lines f) ≡ ok (normal f)
  unfolding parse_head parse_body message_lines with_domain entry_lines
  parse_head-message_lines w =
      ap
        (λ d.
          with_domain d (f.address ∷ [] ∷ (one_line (given f.statement) ++ ([] ∷ entry_lines f))))
        (match_domain-append f.domain w.domain_given w.domain)
      ∙ rw w.address_valid (ap ok (body-message_lines w))

split-message_lines :
    (f : SiwaMessageFields)
    → IsWellFormed f
    → split b'\n' (join (b'\n' ∷ []) (message_lines f)) ≡ message_lines f
unfolding message_lines
split-message_lines f w = split-join b'\n' _ _ (lines-Lacks f w)

-- Parsing the message that was built from well-formed fields gives these fields back, with an empty
-- option read as an absent one and an absent version as 1.
pub parse-build :
    (f : SiwaMessageFields)
    → IsWellFormed f
    → parse_siwa_message (build_siwa_message f) ≡ ok (normal f)
parse-build f w =
    ap parse_siwa_message (build_siwa_message_lem f)
    ∙ parse_siwa_message_lem _
    ∙ ap parse_head (split-message_lines f w)
    ∙ parse_head-message_lines f w
