-- ===== src/Captcha/Solutions.antt =====
-- packages/siwa/src/captcha.ts: how `verifyCaptchaSolution` judges a solution. The payload of a token is read as a challenge the way the type assertion
-- does; a property that is absent or has another type than the challenge's is `none`.
use siwa.Base.{
  ℕ, ◌+◌, ◌*◌, Bool, true, false, ◌&&◌, Option, none, some, List, [], ◌∷◌, ◌++◌, ◌==◌,
  if◌then◌else◌, or_else, get_elem?, length, Result, leb,
}
use siwa.Base.Int.{ℤ, pos, negsuc, sub_ℕ, pos_part, neg_part}
use siwa.Base.Json.{Json, num, str, arr, cons, get}
use siwa.Base.Str.{Str, split, str_eq, is_space, cons_head}

pub record CaptchaSolution : Type 0 where
  pub text : Str
  pub solved_at : ℤ

-- A count that was compared: the actual value and the target, when they are shown.
pub record Compared : Type 0 where
  pub pass : Bool
  pub actual : ℕ
  pub target : Option ℤ

pub record CaptchaVerificationResult : Type 0 where
  pub ascii_sum : Compared
  pub line_count : Compared
  pub word_count : Option Compared
  pub char_position : Option Bool
  pub total_chars : Option Compared
  pub timing_pass : Bool
  pub elapsed_ms : Option ℤ
  pub overall_pass : Bool

-- The properties that the check reads.
pub record Constraints : Type 0 where
  pub line_count : Option ℤ
  pub ascii_target : Option ℤ
  pub word_count : Option ℤ
  pub char_position : Option (ℤ × Str)
  pub total_chars : Option ℤ
  pub time_limit_seconds : Option ℤ
  pub created_at : Option ℤ

-- The options with their defaults; the callback is a step on the state of the caller's store.
pub record CaptchaVerifyOptions (S : Type 0) : Type 0 where
  pub use_server_timing : Option Bool
  pub timing_tolerance_seconds : Option ℕ
  pub reveal_constraints : Option Bool
  pub ascii_tolerance : Option ℕ
  pub consume_challenge : Option (Str → S → S × Result Bool)

as_num : Option Json → Option ℤ
as_num (some (num z)) = some z
as_num v = none

as_position : Option Json → Option (ℤ × Str)
as_position (some (arr (cons (num p) (cons (str c) vs)))) = some (p, c)
as_position v = none

-- `payload as unknown as CaptchaChallenge`
unfoldable pub constraints_of : Json → Constraints
unfolding as_num as_position get
constraints_of payload = record {
  line_count = as_num (get payload "lineCount");
  ascii_target = as_num (get payload "asciiTarget");
  word_count = as_num (get payload "wordCount");
  char_position = as_position (get payload "charPosition");
  total_chars = as_num (get payload "totalChars");
  time_limit_seconds = as_num (get payload "timeLimitSeconds");
  created_at = as_num (get payload "createdAt");
}

filled : List Str → List Str
filled [] = []
filled ([] ∷ ls) = filled ls
filled ((c ∷ l) ∷ ls) = (c ∷ l) ∷ filled ls

-- text.split('\n').filter(l => l.length > 0)
unfoldable pub solution_lines : Str → List Str
unfolding filled split
solution_lines t = filled (split b'\n' t)

unfoldable pub concat : List Str → Str
concat [] = []
concat (l ∷ ls) = l ++ concat ls

first_char : Str → ℕ
first_char [] = 0
first_char (c ∷ l) = c

unfoldable pub ascii_sum : List Str → ℕ
unfolding first_char
ascii_sum [] = 0
ascii_sum (l ∷ ls) = first_char l + ascii_sum ls

split_spaces : Str → List Str
unfolding is_space
split_spaces [] = [] ∷ []
split_spaces (c ∷ s) =
    let rest = split_spaces s in if is_space c then [] ∷ rest else cons_head c rest

-- text.split(/\s+/).filter(w => w.length > 0)
unfoldable pub words : Str → List Str
unfolding filled split_spaces
words t = filled (split_spaces t)

-- |a - b| ≤ tolerance
unfoldable pub close_to : ℕ → ℤ → ℕ → Bool
close_to actual (pos target) tolerance =
    leb actual (target + tolerance) && leb target (actual + tolerance)
close_to actual (negsuc n) tolerance = leb (actual + n + 1) tolerance

unfoldable pub same_count : ℕ → ℤ → Bool
same_count actual (pos n) = actual == n
same_count actual (negsuc n) = false

-- A comparison with an undefined target is false.
abbrev pub against : {A : Type 0} → (A → Bool) → Option A → Bool
against test none = false
against test (some a) = test a

-- A constraint that is not set is met.
abbrev pub unless_set : {A : Type 0} → (A → Bool) → Option A → Bool
unless_set test none = true
unless_set test (some a) = test a

-- `(unit ?? '') === expectedChar`
unfoldable pub unit_is : Option ℕ → Str → Bool
unfolding str_eq
unit_is none c = str_eq [] c
unit_is (some x) c = str_eq (x ∷ []) c

-- `(flatText[pos] ?? '') === expectedChar`
unfoldable pub char_is : Str → ℤ × Str → Bool
char_is flat (pos p, c) = unit_is (get_elem? flat p) c
char_is flat (negsuc p, c) = unit_is none c

shown : Bool → ℕ → Option ℤ → Bool → Compared
shown reveal actual target pass = record {
  pass = pass;
  actual = if reveal then actual else 0;
  target = if reveal then target else some (pos 0);
}

shown_if_set : Bool → ℕ → Option ℤ → Option Compared
shown_if_set reveal actual none = none
shown_if_set reveal actual (some z) = some (shown reveal actual (some z) (same_count actual z))

unfoldable pub sub_ℤ : ℤ → ℤ → ℤ
sub_ℤ a b = sub_ℕ (pos_part a + neg_part b) (pos_part b + neg_part a)

abbrev elapsed_since : ℤ → Option ℤ → Option ℤ
elapsed_since finished none = none
elapsed_since finished (some created) = some (sub_ℤ finished created)

-- 0 ≤ elapsed ≤ limit + tolerance
unfoldable pub in_time : ℕ → Option ℤ → Option ℤ → Bool
in_time tolerance (some (pos ms)) (some (pos limit)) = leb ms ((limit + tolerance) * 1000)
in_time tolerance (some (pos ms)) (some (negsuc n)) = leb (ms + (n + 1) * 1000) (tolerance * 1000)
in_time tolerance elapsed limit = false

module _ {S : Type 0} (options : CaptchaVerifyOptions S) where
  -- What follows the reading of the token.
  unfoldable pub judge : ℕ → Constraints → CaptchaSolution → CaptchaVerificationResult
  unfolding solution_lines concat ascii_sum words close_to same_count char_is unit_is shown
      shown_if_set sub_ℤ in_time
  judge now challenge solution =
      let lines : List Str = solution_lines solution.text in
      let flat_text : Str = concat lines in
      let reveal : Bool = or_else options.reveal_constraints true in
      let ascii_tolerance : ℕ = or_else options.ascii_tolerance 0 in
      let sum : ℕ = ascii_sum lines in
      let ascii_pass : Bool =
        against (λ z. close_to sum z ascii_tolerance) challenge.ascii_target in
      let line_count_pass : Bool = against (same_count (length lines)) challenge.line_count in
      let word_total : ℕ = length (words solution.text) in
      let words_pass : Bool = unless_set (same_count word_total) challenge.word_count in
      let position_pass : Bool = unless_set (char_is flat_text) challenge.char_position in
      let chars_pass : Bool = unless_set (same_count (length flat_text)) challenge.total_chars in
      let finished : ℤ =
        if or_else options.use_server_timing true then pos now else solution.solved_at in
      let elapsed : Option ℤ = elapsed_since finished challenge.created_at in
      let tolerance : ℕ = or_else options.timing_tolerance_seconds 2 in
      let timing_pass : Bool = in_time tolerance elapsed challenge.time_limit_seconds in
      record {
        ascii_sum = shown reveal sum challenge.ascii_target ascii_pass;
        line_count = shown reveal (length lines) challenge.line_count line_count_pass;
        word_count = shown_if_set reveal word_total challenge.word_count;
        char_position = elim challenge.char_position [
          | none ↦ none
          | some c ↦ some (char_is flat_text c)
        ];
        total_chars = shown_if_set reveal (length flat_text) challenge.total_chars;
        timing_pass = timing_pass;
        elapsed_ms = elapsed;
        overall_pass =
            ascii_pass && line_count_pass && words_pass && position_pass && chars_pass
            && timing_pass;
      }
