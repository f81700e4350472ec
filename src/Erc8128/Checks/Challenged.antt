-- ===== src/Erc8128/Checks/Challenged.antt =====
-- What the captcha check lets through.
use siwa.Base.{
  ℕ, true, Option, none, some, Result, ok, throws, ◌≡◌, refl, arith, ap, ◌∙◌, subst, ◌⊎◌, inl, inr,
  Option-cases,
}
use siwa.Base.Int.{ℤ}
use siwa.Base.Json.{Json, get}
use siwa.Base.Str.{Str}
use siwa.Captcha.{CaptchaDifficulty}
use siwa.Captcha.Solutions.{CaptchaVerificationResult}
use siwa.Captcha.Submission.{verify_submitted, unpack_captcha_response}
use siwa.Runtime.{Runtime}
use siwa.Erc8128.{Request, Rejection, VerifyOptions, Libraries, given_header}
use siwa.Erc8128.Checks.{
  captcha_secret, passed_captcha, submitted, issued, challenged, evaluated, check_captcha,
}
use siwa.Erc8128.Steps.{goes, stateful_exit, bind_exit}

module _ (r : Runtime) {S : Type 0} (lib : Libraries S) (options : VerifyOptions S) where
  -- A response was submitted, and its judgement passed.
  pub record IsSolved (now : ℕ) (request : Request) (s s' : S) : Type 0 where
    pub header : Str
    pub token : Json
    pub solution : Json
    pub solved_at : ℤ
    pub result : CaptchaVerificationResult
    pub sent : given_header request.challenge_response ≡ some header
    pub unpacked : unpack_captcha_response r header ≡ some (token, solution, solved_at)
    pub judged :
        verify_submitted r options.captcha_verify now token solution solved_at
          (captcha_secret r lib options options.captcha_options)
          s
        ≡ (s', ok (some result))
    pub passed : result.overall_pass ≡ true

  -- There is no policy, or it asks for nothing, or what it asks for was solved.
  abbrev pub PassesCaptcha :
      ℕ
      → Request
      → Json
      → Str
      → Option (Str → Option Json → Option Json → S → S × Result (Option CaptchaDifficulty))
      → S
      → S
      → Type 0
  PassesCaptcha now request receipt address none s s' = s ≡ s'
  PassesCaptcha now request receipt address (some policy) s s' =
      (policy address (get receipt "agentId") (get receipt "agentRegistry") s ≡ (s', ok none))
      ⊎ ((difficulty : CaptchaDifficulty) × (t : S) × (policy address (get receipt "agentId")
              (get receipt "agentRegistry") s
            ≡ (t, ok (some difficulty)))
          × IsSolved now request t s')

  passing :
      (o : S × Result (Option CaptchaVerificationResult)) {s' : S} {u : Unit {0}}
      → bind_exit (stateful_exit {E = Rejection} o) (passed_captcha r lib options) ≡ (s', goes u)
      → (result : CaptchaVerificationResult) × (o ≡ (s', ok (some result)))
        × (result.overall_pass ≡ true)
  unfolding passed_captcha
  passing (t, throws m) e = absurd (cc)
  passing (t, ok none) e = absurd (cc)
  passing (t, ok (some result)) {s'} e =
      let same : t ≡ s' = ground arith in
      (result, ap (λ x. (x, ok (some result))) same, ground arith)

  submitted-goes :
      (now : ℕ) (token solution : Json) (solved_at : ℤ) (s : S) {s' : S} {u : Unit {0}}
      → submitted r lib options now (some (token, solution, solved_at)) s ≡ (s', goes u)
      → (result : CaptchaVerificationResult) × (verify_submitted r options.captcha_verify now token
            solution solved_at
            (captcha_secret r lib options options.captcha_options)
            s
          ≡ (s', ok (some result)))
        × (result.overall_pass ≡ true)
  unfolding submitted passed_captcha
  submitted-goes now token solution solved_at s e =
      passing
        (verify_submitted r options.captcha_verify now token solution solved_at
          (captcha_secret r lib options options.captcha_options) s)
        e

  challenged-goes :
      (now : ℕ) (request : Request) (difficulty : CaptchaDifficulty) (s : S) {s' : S} {u : Unit {0}}
      → challenged r lib options now difficulty (given_header request.challenge_response) s
        ≡ (s', goes u)
      → IsSolved now request s s'
  unfolding challenged issued
  challenged-goes now request difficulty s {s'} {u} e =
      elim (Option-cases (given_header request.challenge_response)) [
        | inl missing ↦ absurd (ground arith)
        | inr (header, sent) ↦ elim (Option-cases (unpack_captcha_response r header)) [
          | inl malformed ↦ absurd (ground arith)
          | inr ((token, solution, solved_at), unpacked) ↦
              let (result, judged, passed) = submitted-goes now token solution solved_at s (
                subst (λ x. submitted r lib options now x s ≡ (s', goes u)) unpacked
                  (subst (λ x. challenged r lib options now difficulty x s ≡ (s', goes u)) sent
                    e)) in
              record {
                header = header;
                token = token;
                solution = solution;
                solved_at = solved_at;
                result = result;
                sent = sent;
                unpacked = unpacked;
                judged = judged;
                passed = passed;
              }
        ]
      ]

  pub check_captcha-goes :
      (now : ℕ) (request : Request) (receipt : Json) (address : Str)
      (policy : Option
        (Str → Option Json → Option Json → S → S × Result (Option CaptchaDifficulty)))
      (s : S) {s' : S} {u : Unit {0}}
      → check_captcha r lib options now request receipt address policy s ≡ (s', goes u)
      → PassesCaptcha now request receipt address policy s s'
  unfolding check_captcha evaluated
  check_captcha-goes now request receipt address none s e = ground arith
  check_captcha-goes now request receipt address (some policy) s {s'} {u} e =
      by_policy (policy address (get receipt "agentId") (get receipt "agentRegistry") s) refl e
    where
      by_policy :
          (o : S × Result (Option CaptchaDifficulty))
          → policy address (get receipt "agentId") (get receipt "agentRegistry") s ≡ o
          → bind_exit (stateful_exit {E = Rejection} o) (evaluated r lib options now request)
            ≡ (s', goes u)
          → PassesCaptcha now request receipt address (some policy) s s'
      by_policy (t, throws m) same e = absurd (cc)
      by_policy (t, ok none) same e =
          let last : t ≡ s' = ground arith in inl (same ∙ ap (λ x. (x, ok none)) last)
      by_policy (t, ok (some difficulty)) same e =
          inr (difficulty, t, same, challenged-goes now request difficulty t e)
