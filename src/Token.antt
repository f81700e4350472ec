-- ===== src/Token.antt =====
-- The tokens `base64url(json).base64url(hmac)` that siwa.ts, receipt.ts and captcha.ts sign and check
-- in the same way: packages/siwa/src/siwa.ts, receipt.ts, captcha.ts.
pub mod Bytes
pub mod Soundness
use siwa.Base.{
  ℕ, Bool, true, false, ◌||◌, not, Option, none, some, [], ◌∷◌, ◌++◌, ◌==◌, if◌then◌else◌, length,
  Result, ok, throws, ◌>>=◌, String,
}
use siwa.Base.Json.{Json}
use siwa.Base.Str.{Str, text, str_eq}
use siwa.Runtime.{Runtime}
use Bytes.{utf8, timing_safe_equal}

-- The parts before and behind the first dot, by `indexOf` and `slice`.
pub cut : Str → Option (Str × Str)
cut [] = none
cut (c ∷ s) =
    let later : Option (Str × Str) = elim (cut s) [ none ↦ none | some (a, b) ↦ some (c ∷ a, b) ] in
    if c == b'.' then some ([], s) else later

abbrev pub is_empty : Str → Bool
is_empty [] = true
is_empty (c ∷ s) = false

module _ (r : Runtime) where
  -- `${data}.${sig}`
  unfoldable pub sign : Json → Str → Str
  sign payload secret = let encoded = r.encode payload in encoded ++ (b'.' ∷ r.hmac secret encoded)

  pub compare_signatures : Str → Str → Str → Result (Option Str)
  compare_signatures encoded sig expected =
      if not (length sig == length expected) then ok none else do
        same ← timing_safe_equal (utf8 sig) (utf8 expected)
        ok (if same then some encoded else none)

  pub check_parts : Str → Option (Str × Str) → Result (Option Str)
  check_parts secret none = ok none
  check_parts secret (some (encoded, sig)) =
      if is_empty encoded || is_empty sig
      then ok none
      else compare_signatures encoded sig (r.hmac secret encoded)

  -- The part before the dot, if the part behind it is its HMAC.
  unfoldable pub checked_data : Str → Str → Result (Option Str)
  unfolding check_parts compare_signatures cut
  checked_data token secret = check_parts secret (cut token)

  decoded : Option Str → Result (Option Json)
  decoded none = ok none
  decoded (some encoded) = do v ← r.decode encoded; ok (some v)

  -- siwa.ts: signNonceToken
  unfoldable pub sign_nonce_token : Json → Str → Str
  unfolding sign
  sign_nonce_token payload secret = sign payload secret

  -- siwa.ts: verifyNonceToken
  unfoldable pub verify_nonce_token : Str → Str → Result (Option Json)
  unfolding checked_data decoded
  verify_nonce_token token secret = do encoded ← checked_data token secret; decoded encoded

  -- captcha.ts: signToken
  unfoldable pub sign_token : Json → Str → Str
  unfolding sign
  sign_token payload secret = sign payload secret

  caught : Result (Option Json) → Result (Option Json)
  caught (ok v) = ok v
  caught (throws e) = ok none

  -- captcha.ts: verifyToken, which catches the exceptions of the decoding only
  unfoldable pub verify_token : Str → Str → Result (Option Json)
  unfolding checked_data decoded caught
  verify_token token secret = do encoded ← checked_data token secret; caught (decoded encoded)
