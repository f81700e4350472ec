-- ===== src/Captcha/Submission.antt =====
-- packages/siwa/src/captcha.ts: `verifyCaptchaSolution`, `packCaptchaResponse`,
-- `unpackCaptchaResponse` and `solveCaptchaChallenge`. What an agent sends is JSON: its token and its text may be of any type.
use siwa.Base.{
  zero, ℕ, Bool, true, false, ◌||◌, Option, none, some, [], ◌∷◌, if◌then◌else◌, Result, ok, throws,
  ◌>>=◌,
}
use siwa.Base.Int.{ℤ, pos}
use siwa.Base.Json.{Json, null, bool, num, str, arr, obj, Items, nil, cons, end, field, get}
use siwa.Base.Str.{Str, text, str_eq}
use siwa.Runtime.{Runtime}
use siwa.Token.{verify_token}
use siwa.Captcha.Solutions.{
  CaptchaSolution, CaptchaVerificationResult, CaptchaVerifyOptions, constraints_of, judge,
}

unfoldable pub truthy_payload : Option Json → Option Json
truthy_payload none = none
truthy_payload (some null) = none
truthy_payload (some (bool false)) = none
truthy_payload (some (num (pos zero))) = none
truthy_payload (some (str [])) = none
truthy_payload (some v) = some v

-- `list.includes('.')` for a token that is an array
has_dot : Items → Bool
unfolding str_eq text
has_dot nil = false
has_dot (cons (str s) vs) = str_eq s (text ".") || has_dot vs
has_dot (cons v vs) = has_dot vs

module _ (r : Runtime) {S : Type 0} (options : CaptchaVerifyOptions S) where
  -- `verifyToken` on what the agent sent as a token: `indexOf` exists on strings and arrays only, and
  -- the HMAC of an array's part throws.
  pub token_payload : Json → Str → Result (Option Json)
  unfolding has_dot text
  token_payload (str token) secret = verify_token r token secret
  token_payload (arr vs) secret =
      if has_dot vs then throws (text "The \"data\" argument must be of type string") else ok none
  token_payload v secret = throws (text "token.indexOf is not a function")

  unfoldable pub judged : ℕ → Json → Json → ℤ → Result (Option CaptchaVerificationResult)
  unfolding text
  judged now payload (str t) solved_at = ok (
      some
        (judge options now (constraints_of payload) (record { text = t; solved_at = solved_at })))
  judged now payload v solved_at = throws (text "solution.text.split is not a function")

  unfoldable pub after_consumption :
      ℕ → Json → Json → ℤ → S × Result Bool → S × Result (Option CaptchaVerificationResult)
  after_consumption now payload t solved_at (s, ok true) = (s, judged now payload t solved_at)
  after_consumption now payload t solved_at (s, ok false) = (s, ok none)
  after_consumption now payload t solved_at (s, throws e) = (s, throws e)

  unfoldable pub consumed : Option (Str → S → S × Result Bool) → Json → S → S × Result Bool
  consumed (some consume) (str token) s = consume token s
  consumed consume token s = (s, ok true)

  unfoldable pub with_payload :
      ℕ → Json → Json → ℤ → Result (Option Json) → S → S × Result (Option CaptchaVerificationResult)
  with_payload now token t solved_at (throws e) s = (s, throws e)
  with_payload now token t solved_at (ok none) s = (s, ok none)
  with_payload now token t solved_at (ok (some payload)) s =
      after_consumption now payload t solved_at (consumed options.consume_challenge token s)

  pub truthy_result : Result (Option Json) → Result (Option Json)
  truthy_result (ok v) = ok (truthy_payload v)
  truthy_result (throws e) = throws e

  -- `verifyCaptchaSolution` on a token and a text that came from JSON.
  unfoldable pub verify_submitted :
      ℕ → Json → Json → ℤ → Str → S → S × Result (Option CaptchaVerificationResult)
  unfolding token_payload with_payload truthy_result
  verify_submitted now token t solved_at secret s =
      with_payload now token t solved_at (truthy_result (token_payload token secret)) s

  unfoldable pub verify_captcha_solution :
      ℕ → Str → CaptchaSolution → Str → S → S × Result (Option CaptchaVerificationResult)
  unfolding verify_submitted
  verify_captcha_solution now token solution secret s =
      verify_submitted now (str token) (str solution.text) solution.solved_at secret s

-- `{ challengeToken, solution: { text, solvedAt } }`
unfoldable pub packed_json : Str → Str → ℕ → Json
packed_json token t now = obj (
    field "challengeToken" (str token)
      (field "solution" (obj (field "text" (str t) (field "solvedAt" (num (pos now)) end))) end))

module _ (r : Runtime) where
  -- `Buffer.from(JSON.stringify({ challengeToken, solution })).toString('base64url')`
  unfoldable pub pack_captcha_response : ℕ → Str → Str → Str
  unfolding packed_json
  pack_captcha_response now token t = r.encode (packed_json token t now)

  unfoldable pub timed : Json → Option Json → Option Json → Option (Json × Json × ℤ)
  unfolding truthy_payload
  timed token t (some (num z)) = elim (truthy_payload t) [
    | none ↦ none
    | some w ↦ some (token, w, z)
  ]
  timed token t v = none

  unfoldable pub solution_of : Json → Option Json → Option (Json × Json × ℤ)
  solution_of token none = none
  solution_of token (some solution) = timed token (get solution "text") (get solution "solvedAt")

  unfoldable pub unpacked : Result Json → Option (Json × Json × ℤ)
  unpacked (throws e) = none
  unpacked (ok v) = elim (truthy_payload (get v "challengeToken")) [
    | none ↦ none
    | some token ↦ solution_of token (get v "solution")
  ]

  -- The token, the text and the time; an exception of the decoding gives none.
  unfoldable pub unpack_captcha_response : Str → Option (Json × Json × ℤ)
  unfolding unpacked solution_of timed
  unpack_captcha_response packed = unpacked (r.decode packed)

  -- The body of the nonce endpoint's response
  unfoldable pub solve_captcha_challenge :
      {C : Type 0}
      → ℕ
      → (status : Str) → Option C
      → Option Str
      → (C → Result Str)
      → Result (Option Str)
  unfolding str_eq text
  solve_captcha_challenge now status none token solver = ok none
  solve_captcha_challenge now status (some challenge) none solver = ok none
  solve_captcha_challenge now status (some challenge) (some []) solver = ok none
  solve_captcha_challenge now status (some challenge) (some (c ∷ token)) solver =
      let packed = solver challenge >>= λ t. ok (some (pack_captcha_response now (c ∷ token) t)) in
      if str_eq status (text "captcha_required") then packed else ok none
