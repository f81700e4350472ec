-- ===== src/Captcha/Generation.antt =====
-- Which challenges are generated.
use siwa.Base.{
  ℕ, ◌+◌, ◌-◌, ◌*◌, ◌≤◌, ◌<◌, Bool, true, false, Option, none, some, List, [], ◌∷◌, or_else, ok,
  arith, ◌≡◌, ◌≢◌, refl,
}
use siwa.Base.Str.{Str}
use siwa.Runtime.{Runtime}
use siwa.Token.{sign_token}
use siwa.Captcha.{
  CaptchaDifficulty, CaptchaFormat, CaptchaChallenge, DifficultyConfig, CaptchaOptions,
  format_line_counts, overridden, difficulty_table, default_topics, default_formats, challenge_json,
  random_int, random_choice, draw_if, draw_position, draw_challenge, bind_choice,
  create_captcha_challenge, drawn_challenge, Draw,
}

-- What crypto.randomInt(n) documents.
abbrev pub IsRandomInt : {R : Type 0} → (ℕ → Draw R ℕ) → Type 0
IsRandomInt {R} below = (n : ℕ) (s : R) → 0 < n → (below n s).1 < n

-- `set` tells whether the value is there, and a value that is there is in the range.
abbrev pub InRange : Bool → ℕ → ℕ → Option ℕ → Type 0
InRange set least most none = set ≡ false
InRange set least most (some n) = (set ≡ true) × (least ≤ n) × (n ≤ most)

abbrev pub IsPosition : Bool → Option (ℕ × Str) → Type 0
IsPosition set none = set ≡ false
IsPosition set (some (p, x)) =
    (set ≡ true) × (5 ≤ p) × (p ≤ 30) × (c : ℕ) × (x ≡ c ∷ []) × (97 ≤ c) × (c ≤ 122)

-- A challenge of the configuration.
pub record IsChallenge (now : ℕ) (difficulty : CaptchaDifficulty) (config : DifficultyConfig)
    (c : CaptchaChallenge) : Type 0 where
  pub line_count : c.line_count ≡ format_line_counts c.format
  pub ascii_target : InRange true (c.line_count * 65) (c.line_count * 122) (some c.ascii_target)
  pub word_count : InRange config.use_word_count (c.line_count * 3) (c.line_count * 7) c.word_count
  pub char_position : IsPosition config.use_char_position c.char_position
  pub total_chars :
      InRange config.use_total_chars (c.line_count * 15) (c.line_count * 40) c.total_chars
  pub time_limit_seconds : c.time_limit_seconds ≡ config.time_limit_seconds
  pub difficulty_kept : c.difficulty ≡ difficulty
  pub created_at : c.created_at ≡ now

module _ {R : Type 0} (below : ℕ → Draw R ℕ) (random : IsRandomInt below) where
  random_int-bounds :
      (least most : ℕ) (s : R)
      → least ≤ most
      → (least ≤ (random_int below least most s).1) × ((random_int below least most s).1 ≤ most)
  unfolding random_int
  random_int-bounds least most s h = ground (arith, random (most - least + 1) s (omega arith))

  draw_if-InRange :
      (b : Bool) (least most : ℕ) (s : R)
      → least ≤ most
      → InRange b least most (draw_if below b (random_int below least most) s).1
  unfolding draw_if
  draw_if-InRange true least most s h =
      let (low, high) = random_int-bounds least most s h in (refl, low, high)
  draw_if-InRange false least most s h = refl

  draw_if-IsPosition : (b : Bool) (s : R) → IsPosition b (draw_if below b (draw_position below) s).1
  unfolding draw_if draw_position
  draw_if-IsPosition true s =
      let (low, high) = random_int-bounds 5 30 s (omega arith) in
      let (a, z) = random_int-bounds 97 122 (random_int below 5 30 s).0 (omega arith) in
      (refl, low, high, (random_int below 97 122 (random_int below 5 30 s).0).1, refl, a, z)
  draw_if-IsPosition false s = refl

  draw_challenge-IsChallenge :
      (now : ℕ) (difficulty : CaptchaDifficulty) (config : DifficultyConfig) (topic : Str)
      (format : CaptchaFormat) (s : R)
      → IsChallenge now difficulty config
          (draw_challenge below now difficulty config topic format s).1
  unfolding draw_challenge
  draw_challenge-IsChallenge now difficulty config topic format s =
      let n : ℕ = format_line_counts format in
      let target = random_int below (n * 65) (n * 122) s in
      let (low, high) = random_int-bounds (n * 65) (n * 122) s (omega arith) in
      let drawn_words =
        draw_if below config.use_word_count (random_int below (n * 3) (n * 7)) target.0 in
      let position = draw_if below config.use_char_position (draw_position below) drawn_words.0 in
      record {
        line_count = refl;
        ascii_target = (refl, low, high);
        word_count = draw_if-InRange config.use_word_count (n * 3) (n * 7) target.0 (omega arith);
        char_position = draw_if-IsPosition config.use_char_position drawn_words.0;
        total_chars =
            draw_if-InRange config.use_total_chars (n * 15) (n * 40) position.0 (omega arith);
        time_limit_seconds = refl;
        difficulty_kept = refl;
        created_at = refl;
      }

  -- With some topic and some format to choose from, a challenge is created, with its signed token: its
  -- line count is the format's, its other numbers lie in the ranges of that count, and it sets exactly
  -- the constraints of the difficulty's configuration.
  pub create_captcha_challenge-IsChallenge :
      (r : Runtime) (now : ℕ) (difficulty : CaptchaDifficulty) (options : CaptchaOptions) (s : R)
      → or_else options.topics default_topics ≢ []
      → or_else options.formats default_formats ≢ []
      → (s' : R) × (c : CaptchaChallenge) × (create_captcha_challenge below r now difficulty options
            s
          ≡ (s', ok (c, sign_token r (challenge_json c) options.secret)))
        × IsChallenge now difficulty
            (overridden (difficulty_table difficulty) (options.difficulties difficulty))
            c
  unfolding create_captcha_challenge
  create_captcha_challenge-IsChallenge r now difficulty options s topics formats =
      chosen (or_else options.topics default_topics) (or_else options.formats default_formats)
        topics formats
    where
      config : DifficultyConfig
      config = overridden (difficulty_table difficulty) (options.difficulties difficulty)

      chosen :
          (ts : List Str) (fs : List CaptchaFormat)
          → ts ≢ []
          → fs ≢ []
          → (s' : R) × (c : CaptchaChallenge) × (bind_choice below ts
                (λ topic. bind_choice below fs λ format s.
                  drawn_challenge below r options.secret
                    (draw_challenge below now difficulty config topic format s))
                s
              ≡ (s', ok (c, sign_token r (challenge_json c) options.secret)))
            × IsChallenge now difficulty config c
      chosen [] fs t f = absurd (t refl)
      chosen (topic ∷ ts) [] t f = absurd (f refl)
      chosen (first_topic ∷ ts) (first_format ∷ fs) t f =
          let topic = random_choice below first_topic ts s in
          let format = random_choice below first_format fs topic.0 in
          let c = draw_challenge below now difficulty config topic.1 format.1 format.0 in
          (
            c.0,
            c.1,
            refl,
            draw_challenge-IsChallenge now difficulty config topic.1 format.1 format.0,
          )
