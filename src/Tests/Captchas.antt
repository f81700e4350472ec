-- ===== src/Tests/Captchas.antt =====
-- A challenge and a solution.
use siwa.Base.{ℕ, ok, some, none, ◌≡◌, ◌↔◌, refl, true, []}
use siwa.Base.Int.{pos}
use siwa.Base.Json.{Json, str}
use siwa.Base.Str.{text}
use siwa.Captcha.{
  CaptchaChallenge, CaptchaOptions, CaptchaDifficulty, CaptchaFormat, challenge_json, overridden,
  difficulty_table, create_captcha_challenge, default_topics, default_formats,
}
use siwa.Captcha.Generation.{IsChallenge, create_captcha_challenge-IsChallenge}
use siwa.Captcha.Judgement.{IsSolution, verify_captcha_solution-sign_token}
use siwa.Captcha.Solutions.{CaptchaSolution, CaptchaVerificationResult, CaptchaVerifyOptions}
use siwa.Captcha.Packing.{unpack-pack_captcha_response}
use siwa.Captcha.Submission.{
  verify_captcha_solution, consumed, packed_json, pack_captcha_response, unpack_captcha_response,
}
use siwa.Runtime.{Runtime}
use siwa.Token.{sign_token}
use siwa.Tests.Fixtures.{runtime, runtime-Laws}

abbrev challenge : CaptchaChallenge
challenge = record {
  topic = text "dark matter";
  format = CaptchaFormat.haiku;
  line_count = 3;
  ascii_target = 202;
  word_count = none;
  char_position = none;
  total_chars = none;
  time_limit_seconds = 30;
  difficulty = CaptchaDifficulty.easy;
  created_at = 1000;
}

abbrev solution : CaptchaSolution
solution = record { text = text "Aa\nBb\nGg"; solved_at = pos 2000 }

abbrev options : CaptchaVerifyOptions ℕ
options = record {
  use_server_timing = none;
  timing_tolerance_seconds = none;
  reveal_constraints = none;
  ascii_tolerance = none;
  consume_challenge = none;
}

abbrev machine : Runtime
machine = runtime (challenge_json challenge)

token_consumed :
    consumed machine options none
      (str (sign_token machine (challenge_json challenge) (text "secret")))
      7
    ≡ (7, ok true)
unfolding consumed
token_consumed = refl

verify_captcha_solution-sign_token_example :
    (result : CaptchaVerificationResult) × (verify_captcha_solution machine options 2000
        (sign_token machine (challenge_json challenge) (text "secret"))
        solution
        (text "secret")
        7
      ≡ (7, ok (some result)))
    × (result.overall_pass ≡ true ↔ IsSolution challenge 0 2 2000 (text "Aa\nBb\nGg"))
verify_captcha_solution-sign_token_example =
    verify_captcha_solution-sign_token machine (runtime-Laws (challenge_json challenge)) options
      2000 challenge solution (text "secret") 7 7 true refl refl token_consumed

abbrev creation : CaptchaOptions
creation = record {
  secret = text "secret";
  topics = none;
  formats = none;
  difficulties = λ d. none;
}

topics_given : ◌≡◌ {A = _} default_topics [] → ⊥
unfolding default_topics
topics_given e = cc

formats_given : ◌≡◌ {A = _} default_formats [] → ⊥
unfolding default_formats
formats_given e = cc

create_captcha_challenge-IsChallenge_example :
    (s' : ℕ) × (c : CaptchaChallenge) × (create_captcha_challenge
        (λ n s. (s, 0))
        machine
        1000
        CaptchaDifficulty.extreme
        creation
        7
      ≡ (s', ok (c, sign_token machine (challenge_json c) (text "secret"))))
    × IsChallenge 1000 CaptchaDifficulty.extreme
        (overridden (difficulty_table CaptchaDifficulty.extreme) none)
        c
create_captcha_challenge-IsChallenge_example =
    create_captcha_challenge-IsChallenge (λ n s. (s, 0)) (λ n s h. h) machine 1000
      CaptchaDifficulty.extreme creation 7 topics_given formats_given

abbrev packed : Json
packed = packed_json (text "e30.mac") (text "Aa") 5

unpack-pack_captcha_response_example :
    unpack_captcha_response
      (runtime packed)
      (pack_captcha_response (runtime packed) 5 (text "e30.mac") (text "Aa"))
    ≡ some (str (text "e30.mac"), str (text "Aa"), pos 5)
unfolding text
unpack-pack_captcha_response_example =
    unpack-pack_captcha_response (runtime packed) 5 (text "e30.mac") (text "Aa") refl (λ e. cc)
      (λ e. cc)
