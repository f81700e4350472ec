-- ===== src/Captcha/Packing.antt =====
-- What a server reads of what an agent packed.
use siwa.Base.{ℕ, Option, arith, some, [], ◌∷◌, ok, ◌≡◌, ◌≢◌, refl}
use siwa.Base.Int.{pos}
use siwa.Base.Json.{Json, str, get}
use siwa.Base.Str.{Str}
use siwa.Runtime.{Runtime}
use siwa.Captcha.Submission.{
  pack_captcha_response, unpack_captcha_response, unpacked, solution_of, timed, truthy_payload,
  packed_json,
}

-- A value that passes the test for truth is the value itself.
pub truthy_payload-some : (o : Option Json) (v : Json) → truthy_payload o ≡ some v → o ≡ some v
unfolding truthy_payload
truthy_payload-some o v e = ground arith

module _ (r : Runtime) where
  truthy-str : (s : Str) → s ≢ [] → truthy_payload (some (str s)) ≡ some (str s)
  unfolding truthy_payload
  truthy-str [] h = absurd (h refl)
  truthy-str (c ∷ s) h = refl

  -- What an agent packs, if JSON reads it back and neither the token nor the text is empty, unpacks to
  -- that token, that text and the time of packing.
  pub unpack-pack_captcha_response :
      (now : ℕ) (token t : Str)
      → r.decode (r.encode (packed_json token t now)) ≡ ok (packed_json token t now)
      → token ≢ []
      → t ≢ []
      → unpack_captcha_response r (pack_captcha_response r now token t)
        ≡ some (str token, str t, pos now)
  unfolding unpack_captcha_response pack_captcha_response packed_json unpacked solution_of timed get
  unpack-pack_captcha_response now token t read token_given text_given =
      rw (read, truthy-str token token_given, truthy-str t text_given) refl
