-- ===== src/Captcha.antt =====
-- packages/siwa/src/captcha.ts: the challenges, their generation and the check of a solution. Random
-- numbers come from a parameter, `crypto.randomInt`, whose state is threaded through. The counts of a
-- challenge and the tolerances are whole numbers; the elapsed time is kept in milliseconds.
pub mod Solutions
pub mod Submission
pub mod Packing
pub mod Generation
pub mod Judgement
use siwa.Base.{
  ℕ, zero, suc, ◌+◌, ◌-◌, ◌*◌, Bool, true, false, Option, none, some, List, [], ◌∷◌, if◌then◌else◌,
  or_else, get_elem?, length, Result, ok, throws, String,
}
use siwa.Base.Json.{Json, null, num, str, arr, obj, Items, nil, cons, Fields, end, field}
use siwa.Base.Int.{pos}
use siwa.Base.Str.{Str, text}
use siwa.Runtime.{Runtime}
use siwa.Token.{sign_token}

pub data CaptchaDifficulty : Type 0 where
  easy medium hard extreme : CaptchaDifficulty

pub data CaptchaFormat : Type 0 where
  haiku quatrain free_verse micro_story : CaptchaFormat

pub record CaptchaChallenge : Type 0 where
  pub topic : Str
  pub format : CaptchaFormat
  pub line_count : ℕ
  pub ascii_target : ℕ
  pub word_count : Option ℕ
  pub char_position : Option (ℕ × Str)
  pub total_chars : Option ℕ
  pub time_limit_seconds : ℕ
  pub difficulty : CaptchaDifficulty
  pub created_at : ℕ

pub record DifficultyConfig : Type 0 where
  pub time_limit_seconds : ℕ
  pub line_count : ℕ × ℕ
  pub use_word_count : Bool
  pub use_char_position : Bool
  pub use_total_chars : Bool

-- `Partial<DifficultyConfig>`
pub record Overrides : Type 0 where
  pub time_limit_seconds : Option ℕ
  pub line_count : Option (ℕ × ℕ)
  pub use_word_count : Option Bool
  pub use_char_position : Option Bool
  pub use_total_chars : Option Bool

pub record CaptchaOptions : Type 0 where
  pub secret : Str
  pub topics : Option (List Str)
  pub formats : Option (List CaptchaFormat)
  pub difficulties : CaptchaDifficulty → Option Overrides

unfoldable pub default_topics : List Str
unfolding text
default_topics =
    text "quantum computing"
    ∷ text "neural networks"
    ∷ text "blockchain consensus"
    ∷ text "compiler optimization"
    ∷ text "distributed systems"
    ∷ text "cryptographic hashing"
    ∷ text "orbital mechanics"
    ∷ text "gene editing"
    ∷ text "photonic circuits"
    ∷ text "autonomous navigation"
    ∷ text "protein folding"
    ∷ text "dark matter"
    ∷ text "fusion reactors"
    ∷ text "swarm robotics"
    ∷ text "topological insulators"
    ∷ text "zero-knowledge proofs"
    ∷ []

unfoldable pub default_formats : List CaptchaFormat
default_formats = haiku ∷ quatrain ∷ free_verse ∷ micro_story ∷ []

unfoldable pub difficulty_table : CaptchaDifficulty → DifficultyConfig
difficulty_table easy = record {
  time_limit_seconds = 30;
  line_count = (3, 4);
  use_word_count = false;
  use_char_position = false;
  use_total_chars = false;
}
difficulty_table medium = record {
  time_limit_seconds = 20;
  line_count = (4, 6);
  use_word_count = true;
  use_char_position = false;
  use_total_chars = false;
}
difficulty_table hard = record {
  time_limit_seconds = 15;
  line_count = (4, 6);
  use_word_count = true;
  use_char_position = true;
  use_total_chars = false;
}
difficulty_table extreme = record {
  time_limit_seconds = 10;
  line_count = (5, 7);
  use_word_count = true;
  use_char_position = true;
  use_total_chars = true;
}

unfoldable pub format_line_counts : CaptchaFormat → ℕ
format_line_counts haiku = 3
format_line_counts quatrain = 4
format_line_counts free_verse = 5
format_line_counts micro_story = 4

-- `{ ...baseConfig, ...overrides }`
unfoldable pub overridden : DifficultyConfig → Option Overrides → DifficultyConfig
overridden config none = config
overridden config (some o) = record {
  time_limit_seconds = or_else o.time_limit_seconds config.time_limit_seconds;
  line_count = or_else o.line_count config.line_count;
  use_word_count = or_else o.use_word_count config.use_word_count;
  use_char_position = or_else o.use_char_position config.use_char_position;
  use_total_chars = or_else o.use_total_chars config.use_total_chars;
}

format_text : CaptchaFormat → Str
unfolding text
format_text haiku = text "haiku"
format_text quatrain = text "quatrain"
format_text free_verse = text "free_verse"
format_text micro_story = text "micro_story"

difficulty_text : CaptchaDifficulty → Str
unfolding text
difficulty_text easy = text "easy"
difficulty_text medium = text "medium"
difficulty_text hard = text "hard"
difficulty_text extreme = text "extreme"

optional_num : String → Option ℕ → Fields → Fields
optional_num k none fs = fs
optional_num k (some n) fs = field k (num (pos n)) fs

position_field : Option (ℕ × Str) → Fields → Fields
position_field none fs = fs
position_field (some (p, c)) fs =
    field "charPosition" (arr (cons (num (pos p)) (cons (str c) nil))) fs

-- The challenge as the object literal and the assignments behind it order its properties.
pub challenge_json : CaptchaChallenge → Json
unfolding optional_num position_field format_text difficulty_text
challenge_json c = obj (
    field "topic" (str c.topic) (
      field "format" (str (format_text c.format)) (
        field "lineCount" (num (pos c.line_count)) (
          field "asciiTarget" (num (pos c.ascii_target)) (
            field "timeLimitSeconds" (num (pos c.time_limit_seconds)) (
              field "difficulty" (str (difficulty_text c.difficulty)) (
                field "createdAt" (num (pos c.created_at)) (
                  optional_num "wordCount" c.word_count (
                    position_field c.char_position
                      (optional_num "totalChars" c.total_chars end))))))))))

-- A computation that draws random numbers.
abbrev pub Draw : Type 0 → Type 0 → Type 0
Draw R A = R → R × A

module _ {R : Type 0} where
  abbrev pub bind_drawn : {A B : Type 0} → R × A → (A → Draw R B) → R × B
  bind_drawn (s, a) f = f a s

  infixl 5 ◌>>=◌
  abbrev pub ◌>>=◌ : {A B : Type 0} → Draw R A → (A → Draw R B) → Draw R B
  ◌>>=◌ m f s = bind_drawn (m s) f

  abbrev pub drawn : {A : Type 0} → A → Draw R A
  drawn a s = (s, a)

-- `below n` is `crypto.randomInt(n)`.
module _ {R : Type 0} (below : ℕ → Draw R ℕ) where
  pub random_int : ℕ → ℕ → Draw R ℕ
  random_int least most = do k ← below (most - least + 1); drawn (least + k)

  pub random_choice : {A : Type 0} → A → List A → Draw R A
  random_choice first rest = do
    k ← below (length (first ∷ rest))
    drawn (or_else (get_elem? (first ∷ rest) k) first)

  pub draw_if : {A : Type 0} → Bool → Draw R A → Draw R (Option A)
  draw_if true m = do a ← m; drawn (some a)
  draw_if false m = drawn none

  pub draw_position : Draw R (ℕ × Str)
  unfolding random_int
  draw_position = do p ← random_int 5 30; code ← random_int 97 122; drawn (p, code ∷ [])

  pub draw_challenge :
      ℕ → CaptchaDifficulty → DifficultyConfig → Str → CaptchaFormat → Draw R CaptchaChallenge
  unfolding format_line_counts random_int draw_if draw_position
  draw_challenge now difficulty config topic format =
      let line_count = format_line_counts format in
      do
        target ← random_int (line_count * 65) (line_count * 122)
        words ← draw_if config.use_word_count (random_int (line_count * 3) (line_count * 7))
        position ← draw_if config.use_char_position draw_position
        chars ← draw_if config.use_total_chars (random_int (line_count * 15) (line_count * 40))
        drawn (record {
          topic = topic;
          format = format;
          line_count = line_count;
          ascii_target = target;
          word_count = words;
          char_position = position;
          total_chars = chars;
          time_limit_seconds = config.time_limit_seconds;
          difficulty = difficulty;
          created_at = now;
        })

  unfoldable pub bind_choice : {A B : Type 0} → List A → (A → R → R × Result B) → R → R × Result B
  unfolding random_choice text
  bind_choice [] f s = (
    s,
    throws (
        text
          "The value of \"max\" is out of range. It must be greater than the value of \"min\" (0). Received 0"),
  )
  bind_choice (first ∷ rest) f s = let (s', a) = random_choice first rest s in f a s'

  module _ (r : Runtime) where
    -- The challenge, and its signed token.
    pub signed_challenge : Str → CaptchaChallenge → CaptchaChallenge × Str
    signed_challenge secret c = (c, sign_token r (challenge_json c) secret)

    pub drawn_challenge : Str → R × CaptchaChallenge → R × Result (CaptchaChallenge × Str)
    drawn_challenge secret (s, c) = (s, ok (signed_challenge secret c))

    unfoldable pub create_captcha_challenge :
        ℕ → CaptchaDifficulty → CaptchaOptions → R → R × Result (CaptchaChallenge × Str)
    unfolding bind_choice difficulty_table overridden default_topics default_formats draw_challenge
        drawn_challenge signed_challenge
    create_captcha_challenge now difficulty options =
        bind_choice (or_else options.topics default_topics) λ topic.
          bind_choice (or_else options.formats default_formats) λ format s.
            drawn_challenge options.secret (
              draw_challenge now difficulty
                (overridden (difficulty_table difficulty) (options.difficulties difficulty)) topic
                format s)
