-- ===== src/Message/Parsing.antt =====
-- The parts of the parser on the parts of a message that `buildSIWAMessage` wrote.
use siwa.Base.{
  ℕ, suc, ◌≤◌, true, false, Option, none, some, List, [], ◌∷◌, ◌++◌, any, length, length-append,
  All, ◌≡◌, ◌≢◌, refl, ap, ◌∙◌, arith, inl, inr, Bool-cases, map,
}
use siwa.Base.Str.{Str, text, str_eq, starts_with, includes₂, join, is_line_end, trim}
use siwa.Base.Str.Laws.{eq_of_str_eq, str_eq_refl}
use siwa.Base.Str.Splitting.{Lacks, split₂-append, includes₂-append, join-split₂}
use siwa.Message.{
  given, domain_suffix, before_suffix, dots, dots_of, match_domain, ParseState, put_parts,
  put_field, close_statement, parse_line, parse_lines, initial, one_line,
}

abbrev pub HasNoLineEnd : Str → Type 0
HasNoLineEnd = All (λ c. is_line_end c ≡ false)

before_suffix_self : (s : Str) → before_suffix s s ≡ some []
unfolding before_suffix str_eq
before_suffix_self [] = refl
before_suffix_self (c ∷ s) = ground (arith, str_eq_refl s)

longer-ne : (p s : Str) (c : ℕ) → str_eq ((c ∷ p) ++ s) s ≡ false
longer-ne p s c = elim (Bool-cases (str_eq ((c ∷ p) ++ s) s)) [
  | inl e ↦
      absurd
        (omega (arith, ap length (eq_of_str_eq ((c ∷ p) ++ s) s e), length-append {0} (c ∷ p) s))
  | inr e ↦ e
]

before_suffix-append : (p s : Str) → before_suffix s (p ++ s) ≡ some p
unfolding before_suffix
before_suffix-append [] s = before_suffix_self s
before_suffix-append (c ∷ p) s = rw (longer-ne p s c, before_suffix-append p s) refl

any-line_end : (s : Str) → HasNoLineEnd s → any is_line_end s ≡ false
any-line_end [] h = refl
any-line_end (c ∷ s) h = ground (arith, any-line_end s h.1)

dots_lem : (d : Str) → d ≢ [] → HasNoLineEnd d → dots d ≡ some d
unfolding dots
dots_lem [] e h = absurd (e refl)
dots_lem (c ∷ d) e h = rw (any-line_end (c ∷ d) h) refl

pub match_domain-append :
    (d : Str) → d ≢ [] → HasNoLineEnd d → match_domain (d ++ domain_suffix) ≡ some d
unfolding match_domain dots_of
match_domain-append d e h = ap dots_of (before_suffix-append d domain_suffix) ∙ dots_lem d e h

-- `key: value`
abbrev pub show_field : Str × Str → Str
show_field (key, value) = key ++ (b':' ∷ b' ' ∷ value)

pub put_field-show_field :
    (key value : Str) (st : ParseState)
    → Lacks b':' key
    → put_field (show_field (key, value)) st ≡ record st { field_map = (key, value) ∷ st.field_map }
unfolding put_field put_parts
put_field-show_field key value st h =
    rw (split₂-append b':' b' ' key value h)
      (ap (λ v. record st { field_map = (key, v) ∷ st.field_map }) (join-split₂ b':' b' ' value))

abbrev pub rev_onto : List (Str × Str) → List (Str × Str) → List (Str × Str)
rev_onto [] m = m
rev_onto (kv ∷ kvs) m = rev_onto kvs (kv ∷ m)

parse_line-field :
    (i : ℕ) (line : Str) (st : ParseState)
    → 3 ≤ i
    → st.in_statement ≡ false
    → includes₂ b':' b' ' line ≡ true
    → parse_line i line st ≡ put_field line st
unfolding parse_line
parse_line-field i line st le out colon = ground arith

-- Outside the statement a line `key: value` is one entry of the map, whatever follows.
pub parse_lines-fields :
    (i : ℕ) (kvs : List (Str × Str)) (st : ParseState)
    → 3 ≤ i
    → All (λ kv. Lacks b':' kv.0) kvs
    → st.in_statement ≡ false
    → parse_lines i (map show_field kvs) st ≡ record st { field_map = rev_onto kvs st.field_map }
unfolding parse_lines
parse_lines-fields i [] st le h out = refl
parse_lines-fields i ((key, value) ∷ kvs) st le h out =
    ap (parse_lines (suc i) (map show_field kvs)) (
      parse_line-field i (show_field (key, value)) st le out (includes₂-append b':' b' ' key value)
      ∙ put_field-show_field key value st h.0)
    ∙ parse_lines-fields (suc i) kvs (record st { field_map = (key, value) ∷ st.field_map })
        (omega arith) h.1 out

-- A statement that the parser reads back: one trimmed line that is no `URI: ` line.
pub record IsStatement (s : Str) : Type 0 where
  pub lacks : Lacks b'\n' s
  pub trimmed : trim s ≡ s
  pub no_uri : starts_with s (text "URI: ") ≡ false

abbrev pub ForSome {ℓ κ} : {A : Type ℓ} → (A → Type κ) → Option A → Type κ
ForSome P none = Unit
ForSome P (some a) = P a

open_statement : List Str → ParseState
open_statement ls = record {
  field_map = [];
  statement = none;
  in_statement = true;
  stmt_lines = ls;
}

closed_statement : Option Str → List Str → ParseState
closed_statement s ls = record {
  field_map = [];
  statement = s;
  in_statement = false;
  stmt_lines = ls;
}

open_line : parse_line 2 [] initial ≡ open_statement []
unfolding parse_line initial str_eq open_statement
open_line = refl

statement_line :
    (c : ℕ) (s : Str)
    → starts_with (c ∷ s) (text "URI: ") ≡ false
    → parse_line 3 (c ∷ s) (open_statement []) ≡ open_statement ((c ∷ s) ∷ [])
unfolding parse_line str_eq open_statement
statement_line c s h = rw h refl

close_line :
    (i : ℕ) (ls : List Str)
    → 3 ≤ i
    → parse_line i [] (open_statement ls)
      ≡ closed_statement (given (some (trim (join (b'\n' ∷ []) ls)))) ls
unfolding parse_line close_statement str_eq open_statement closed_statement starts_with text
close_line i ls h = ground arith

no_lines : given (some (trim (join (b'\n' ∷ []) []))) ≡ none
unfolding trim join
no_lines = refl

join-one : (s : Str) → join (b'\n' ∷ []) (s ∷ []) ≡ s
unfolding join
join-one s = refl

-- The state behind the statement and the empty lines around it.
unfoldable pub after_statement : Option Str → ParseState
unfolding closed_statement
after_statement none = closed_statement none []
after_statement (some s) = closed_statement (some s) (s ∷ [])

pub after_statement_lem :
    (o : Option Str)
    → ((after_statement o).field_map ≡ [])
      × ((after_statement o).statement ≡ o)
      × ((after_statement o).in_statement ≡ false)
unfolding after_statement
after_statement_lem none = (refl, refl, refl)
after_statement_lem (some s) = (refl, refl, refl)

abbrev pub statement_end : Option Str → ℕ
statement_end none = 4
statement_end (some s) = 5

module _ (rest : List Str) where
  no_statement : parse_lines 2 ([] ∷ [] ∷ rest) initial ≡ parse_lines 4 rest (after_statement none)
  unfolding parse_lines after_statement
  no_statement =
      ap (λ st. parse_lines 4 rest (parse_line 3 [] st)) open_line
      ∙ ap (parse_lines 4 rest)
          (close_line 3 [] (omega arith) ∙ ap (λ o. closed_statement o []) no_lines)

  pub parse_lines-statement :
      (st : Option Str)
      → ForSome IsStatement (given st)
      → parse_lines 2 ([] ∷ (one_line (given st) ++ ([] ∷ rest))) initial
        ≡ parse_lines (statement_end (given st)) rest (after_statement (given st))
  unfolding parse_lines after_statement
  parse_lines-statement none h = no_statement
  parse_lines-statement (some []) h = no_statement
  parse_lines-statement (some (c ∷ s)) h =
      ap (λ st. parse_lines 5 rest (parse_line 4 [] (parse_line 3 (c ∷ s) st))) open_line
      ∙ ap (λ st. parse_lines 5 rest (parse_line 4 [] st)) (statement_line c s h.no_uri)
      ∙ ap (parse_lines 5 rest) (
          close_line 4 ((c ∷ s) ∷ []) (omega arith)
          ∙ ap (λ r. closed_statement (given (some r)) ((c ∷ s) ∷ []))
              (ap trim (join-one (c ∷ s)) ∙ h.trimmed))
