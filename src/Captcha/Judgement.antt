-- ===== src/Captcha/Judgement.antt =====
-- Which solutions pass a challenge.
use siwa.Base.{
  ℕ, ◌+◌, ◌*◌, ◌≤◌, Bool, true, false, ◌&&◌, Option, none, some, List, [], ◌∷◌, if◌then◌else◌,
  or_else, get_elem?, length, ok, arith, ◌≡◌, refl, sym, ◌↔◌, ap,
}
use siwa.Base.Int.{ℤ, pos}
use siwa.Base.Json.{Json, str}
use siwa.Base.Str.{Str, str_eq}
use siwa.Base.Str.Laws.{eq_of_str_eq, eq-str_eq}
use siwa.Runtime.{Runtime, Laws}
use siwa.Token.{sign_token, verify_token}
use siwa.Token.Soundness.{checked_data-sign}
use siwa.Captcha.{CaptchaChallenge, challenge_json}
use siwa.Captcha.Solutions.{
  CaptchaSolution, CaptchaVerificationResult, CaptchaVerifyOptions, Constraints, constraints_of,
  solution_lines, concat, ascii_sum, words, close_to, same_count, char_is, unit_is, sub_ℤ, in_time,
  unless_set, judge,
}
use siwa.Captcha.Submission.{
  verify_captcha_solution, truthy_payload, consumed, after_consumption, judged, with_payload,
}

abbrev some_pos : Option ℕ → Option ℤ
some_pos none = none
some_pos (some n) = some (pos n)

abbrev some_position : Option (ℕ × Str) → Option (ℤ × Str)
some_position none = none
some_position (some (p, c)) = some (pos p, c)

-- The constraints that a challenge stands for.
unfoldable pub of_challenge : CaptchaChallenge → Constraints
of_challenge c = record {
  line_count = some (pos c.line_count);
  ascii_target = some (pos c.ascii_target);
  word_count = some_pos c.word_count;
  char_position = some_position c.char_position;
  total_chars = some_pos c.total_chars;
  time_limit_seconds = some (pos c.time_limit_seconds);
  created_at = some (pos c.created_at);
}

-- They are what is read back from its JSON text.
pub constraints_of-challenge_json :
    (c : CaptchaChallenge) → constraints_of (challenge_json c) ≡ of_challenge c
unfolding constraints_of challenge_json of_challenge
constraints_of-challenge_json c = ground arith

abbrev pub IfSet : {A : Type 0} → (A → Type 0) → Option A → Type 0
IfSet P none = Unit
IfSet P (some a) = P a

-- The text `x` is the unit that was found, or empty where none was.
abbrev pub IsUnit : Option ℕ → Str → Type 0
IsUnit none x = x ≡ []
IsUnit (some u) x = x ≡ u ∷ []

-- The text meets every constraint that the challenge sets, within the given tolerance, at a time
-- inside its window.
pub record IsSolution (c : CaptchaChallenge) (ascii_tolerance seconds now : ℕ) (t : Str)
    : Type 0 where
  pub ascii_low : c.ascii_target ≤ ascii_sum (solution_lines t) + ascii_tolerance
  pub ascii_high : ascii_sum (solution_lines t) ≤ c.ascii_target + ascii_tolerance
  pub line_count : length (solution_lines t) ≡ c.line_count
  pub word_count : IfSet (λ n. length (words t) ≡ n) c.word_count
  pub char_position :
      IfSet (λ (p, x). IsUnit (get_elem? (concat (solution_lines t)) p) x) c.char_position
  pub total_chars : IfSet (λ n. length (concat (solution_lines t)) ≡ n) c.total_chars
  pub started : c.created_at ≤ now
  pub finished : now ≤ c.created_at + (c.time_limit_seconds + seconds) * 1000

against-close_to :
    (sum target tolerance : ℕ)
    → close_to sum (pos target) tolerance ≡ true
      ↔ (target ≤ sum + tolerance) × (sum ≤ target + tolerance)
unfolding close_to
against-close_to sum target tolerance = (λ e. ground arith, λ h. ground arith)

same_count-pos : (actual n : ℕ) → same_count actual (pos n) ≡ true ↔ actual ≡ n
unfolding same_count
same_count-pos actual n = (λ e. ground arith, λ h. ground arith)

same_count-set :
    (actual : ℕ) (o : Option ℕ)
    → unless_set (same_count actual) (some_pos o) ≡ true ↔ IfSet (λ n. actual ≡ n) o
same_count-set actual none = (λ e. tt, λ h. refl)
same_count-set actual (some n) = same_count-pos actual n

str_eq_iff-sym : (s x : Str) → str_eq s x ≡ true ↔ x ≡ s
str_eq_iff-sym s x = (λ e. sym (eq_of_str_eq s x e), λ e. eq-str_eq s x (sym e))

unit_is-IsUnit : (u : Option ℕ) (x : Str) → unit_is u x ≡ true ↔ IsUnit u x
unfolding unit_is
unit_is-IsUnit none x = str_eq_iff-sym [] x
unit_is-IsUnit (some u) x = str_eq_iff-sym (u ∷ []) x

char_is-set :
    (flat : Str) (o : Option (ℕ × Str))
    → unless_set (char_is flat) (some_position o) ≡ true
      ↔ IfSet (λ (p, x). IsUnit (get_elem? flat p) x) o
unfolding char_is
char_is-set flat none = (λ e. tt, λ h. refl)
char_is-set flat (some (p, x)) = unit_is-IsUnit (get_elem? flat p) x

in_time-since :
    (now created limit seconds : ℕ)
    → in_time seconds (some (sub_ℤ (pos now) (pos created))) (some (pos limit)) ≡ true
      ↔ (created ≤ now) × (now ≤ created + (limit + seconds) * 1000)
unfolding in_time sub_ℤ
in_time-since now created limit seconds = (λ e. ground arith, λ h. ground arith)

all_true :
    (a b c d e f : Bool)
    → (a && b && c && d && e && f) ≡ true
      ↔ (a ≡ true) × (b ≡ true) × (c ≡ true) × (d ≡ true) × (e ≡ true) × (f ≡ true)
all_true a b c d e f = (λ h. ground arith, λ h. ground arith)

module _ {S : Type 0} (options : CaptchaVerifyOptions S) where
  -- The judgement of a challenge is the conjunction of its constraints.
  judge-overall_pass :
      (now : ℕ) (c : CaptchaChallenge) (solution : CaptchaSolution)
      → or_else options.use_server_timing true ≡ true
      → (judge options now (of_challenge c) solution).overall_pass ≡ true
        ↔ IsSolution c
            (or_else options.ascii_tolerance 0)
            (or_else options.timing_tolerance_seconds 2)
            now
            solution.text
  unfolding judge of_challenge
  judge-overall_pass now c solution server =
      let t : Str = solution.text in
      let lines : List Str = solution_lines t in
      let ascii =
        against-close_to (ascii_sum lines) c.ascii_target (or_else options.ascii_tolerance 0) in
      let count = same_count-pos (length lines) c.line_count in
      let words_set = same_count-set (length (words t)) c.word_count in
      let position = char_is-set (concat lines) c.char_position in
      let chars = same_count-set (length (concat lines)) c.total_chars in
      let time =
        in_time-since now c.created_at c.time_limit_seconds
          (or_else options.timing_tolerance_seconds 2) in
      rw server (
        λ e.
            let (e₁, e₂, e₃, e₄, e₅, e₆) = (all_true _ _ _ _ _ _).0 e in
            record {
              ascii_low = (ascii.0 e₁).0;
              ascii_high = (ascii.0 e₁).1;
              line_count = count.0 e₂;
              word_count = words_set.0 e₃;
              char_position = position.0 e₄;
              total_chars = chars.0 e₅;
              started = (time.0 e₆).0;
              finished = (time.0 e₆).1;
            },
        λ h. (all_true _ _ _ _ _ _).1 (
          ascii.1 (h.ascii_low, h.ascii_high),
          count.1 h.line_count,
          words_set.1 h.word_count,
          position.1 h.char_position,
          chars.1 h.total_chars,
          time.1 (h.started, h.finished),
        ),
      )

module _ (r : Runtime) (laws : Laws r) {S : Type 0} (options : CaptchaVerifyOptions S) where
  verify_token-sign_token :
      (v : Json) (secret : Str)
      → r.decode (r.encode v) ≡ ok v
      → verify_token r (sign_token r v secret) secret ≡ ok (some v)
  unfolding verify_token sign_token
  verify_token-sign_token v secret read = rw (checked_data-sign r laws secret v, read) refl

  challenge-truthy :
      (c : CaptchaChallenge) → truthy_payload (some (challenge_json c)) ≡ some (challenge_json c)
  unfolding truthy_payload challenge_json
  challenge-truthy c = refl

  judged_by :
      (now : ℕ) (c : CaptchaChallenge) (solution : CaptchaSolution) (s : S) (fresh : Bool)
      → after_consumption r options now
          (challenge_json c)
          (str solution.text)
          solution.solved_at
          (s, ok fresh)
        ≡ (s, ok (if fresh then some (judge options now (of_challenge c) solution) else none))
  unfolding after_consumption judged
  judged_by now c solution s true =
      ap (λ k. (s, ok (some (judge options now k solution)))) (constraints_of-challenge_json c)
  judged_by now c solution s false = refl

  -- On the token of a challenge that JSON reads back, once the caller's store has let the token pass,
  -- the check gives a result, and the result passes exactly for a text that meets every constraint of
  -- the challenge inside its time window, by the server's clock; a token that the store refuses gives
  -- null.
  pub verify_captcha_solution-sign_token :
      (now : ℕ) (c : CaptchaChallenge) (solution : CaptchaSolution) (secret : Str) (s s' : S)
      (fresh : Bool)
      → r.decode (r.encode (challenge_json c)) ≡ ok (challenge_json c)
      → or_else options.use_server_timing true ≡ true
      → consumed r options options.consume_challenge
          (str (sign_token r (challenge_json c) secret))
          s
        ≡ (s', ok fresh)
      → (result : CaptchaVerificationResult) × (verify_captcha_solution r options now
            (sign_token r (challenge_json c) secret)
            solution
            secret
            s
          ≡ (s', ok (if fresh then some result else none)))
        × (result.overall_pass ≡ true
            ↔ IsSolution c
                (or_else options.ascii_tolerance 0)
                (or_else options.timing_tolerance_seconds 2)
                now
                solution.text)
  unfolding verify_captcha_solution with_payload
  verify_captcha_solution-sign_token now c solution secret s s' fresh read server spent = (
    judge options now (of_challenge c) solution,
    rw (verify_token-sign_token (challenge_json c) secret read, challenge-truthy c, spent)
        (judged_by now c solution s' fresh),
    judge-overall_pass options now c solution server,
  )
