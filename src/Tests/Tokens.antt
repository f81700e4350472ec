-- ===== src/Tests/Tokens.antt =====
-- Tokens and receipts.
use siwa.Base.{ok, throws, some, ◌≡◌, refl, arith, false, ◌∷◌, ◌++◌, []}
use siwa.Base.Int.{pos}
use siwa.Base.Json.{Json, null, num, str, obj, end, field, get}
use siwa.Base.Str.{Str, text}
use siwa.Receipt.{create_receipt, verify_receipt, receipt_json, before}
use siwa.Receipt.Validity.{
  verify_receipt-create_receipt, verify_receipt_sound, nonce_token_as_receipt,
  verify_receipt-throws,
}
use siwa.Token.{sign_nonce_token}
use siwa.Token.Bytes.{utf8}
use siwa.Tests.Fixtures.{runtime, runtime-Laws, payload, receipt_options}

abbrev secret : Str
secret = text "secret"

abbrev stored : Json
stored = receipt_json payload 500 1500

verify_receipt-create_receipt_example :
    verify_receipt
      (runtime stored)
      1500
      (create_receipt (runtime stored) 500 payload receipt_options).receipt
      secret
    ≡ ok (some stored)
verify_receipt-create_receipt_example =
    verify_receipt-create_receipt (runtime stored) (runtime-Laws stored) 500 1500 payload
      receipt_options refl

receipt_valid :
    verify_receipt
      (runtime stored)
      1500
      (create_receipt (runtime stored) 500 payload receipt_options).receipt
      secret
    ≡ ok (some stored)
receipt_valid =
    verify_receipt-create_receipt (runtime stored) (runtime-Laws stored) 500 1500 payload
      receipt_options refl

verify_receipt_sound_example :
    (encoded : Str) × ((create_receipt (runtime stored) 500 payload receipt_options).receipt
      ≡ encoded ++ (b'.' ∷ text "mac"))
    × ((runtime stored).decode encoded ≡ ok stored)
    × (before (runtime stored) (get stored "exp") 1500 ≡ false)
verify_receipt_sound_example =
    verify_receipt_sound (runtime stored) (runtime-Laws stored) 1500
      (create_receipt (runtime stored) 500 payload receipt_options).receipt secret stored
      receipt_valid

abbrev nonce_payload : Json
nonce_payload = obj (field "nonce" (str (text "abcdefgh")) (field "exp" (num (pos 900)) end))

nonce_token_as_receipt_example :
    verify_receipt
      (runtime nonce_payload)
      800
      (sign_nonce_token (runtime nonce_payload) nonce_payload secret)
      secret
    ≡ ok (some nonce_payload)
unfolding get
nonce_token_as_receipt_example =
    nonce_token_as_receipt (runtime nonce_payload) (runtime-Laws nonce_payload) 800 900
      (field "nonce" (str (text "abcdefgh")) (field "exp" (num (pos 900)) end)) secret refl refl
      (omega arith)

verify_receipt-throws_example :
    verify_receipt (runtime null) 0 (text "e30" ++ (b'.' ∷ 233 ∷ 233 ∷ 233 ∷ [])) secret
    ≡ throws (text "Input buffers must have the same byte length")
unfolding text utf8
verify_receipt-throws_example =
    verify_receipt-throws (runtime null) (runtime-Laws null) 0 (text "e30") (233 ∷ 233 ∷ 233 ∷ [])
      secret (ground arith) (λ e. cc) (λ e. cc) refl (λ e. omega (arith, e))
