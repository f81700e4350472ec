-- ===== src/Tests/Services.antt =====
-- Nonces issued, messages signed and calls of the proxy.
use siwa.Base.{ℕ, ok, some, none, ◌≡◌, refl, true, false}
use siwa.Base.Int.{pos, int}
use siwa.Base.Json.{Json, null}
use siwa.Base.Str.{Str, text}
use siwa.Captcha.Solutions.{CaptchaVerifyOptions}
use siwa.Issue.{
  SiwaNonceParams, SiwaNonceOptions, Sources, NonceIssued, nonce_issued, create_siwa_nonce,
  issued_nonce, nonce_payload,
}
use siwa.Issue.Granted.{IsEntitled, create_siwa_nonce-IsEntitled, nonce_ok-issued_nonce}
use siwa.Issue.Signing.{Signer, Signed, sign_siwa_message, sign_siwa_message-parses, claims_other}
use siwa.Message.{build_siwa_message, parse_siwa_message}
use siwa.Message.RoundTrip.{IsWellFormed, normal}
use siwa.ProxyAuth.{Hashing, signed_payload}
use siwa.Verify.{nonce_ok, stateless}
use siwa.Verify.Flow.{proceeds}
use siwa.Tests.Fixtures.{runtime, runtime-Laws, client, fields}

abbrev params : SiwaNonceParams
params = record {
  address = text "0x1111111111111111111111111111111111111111";
  agent_id = int (pos 42);
  agent_registry = text "eip155:8453:0x2222";
  challenge_response = none;
}

abbrev captcha_verify : CaptchaVerifyOptions ℕ
captcha_verify = record {
  use_server_timing = none;
  timing_tolerance_seconds = none;
  reveal_constraints = none;
  ascii_tolerance = none;
  consume_challenge = none;
}

abbrev options : SiwaNonceOptions ℕ
options = record {
  expiration_ttl = some 1000;
  secret = some (text "secret");
  nonce_store = none;
  captcha_policy = none;
  captcha_options = none;
  captcha_verify = captcha_verify;
}

abbrev sources : Sources ℕ
sources = record { below = λ n s. (s, 0); generate_nonce = λ s. (s, text "abcdefgh") }

abbrev issued : NonceIssued
issued = issued_nonce (runtime null) sources client params options 500 (text "abcdefgh") 1000

creation :
    create_siwa_nonce (runtime null) sources client params options 500 7
    ≡ (7, ok (nonce_issued issued))
unfolding create_siwa_nonce siwa.Issue.nonce_creation siwa.Issue.nonce_registry
    siwa.Issue.nonce_owner siwa.Issue.nonce_captcha siwa.Issue.new_nonce siwa.Issue.tracked
creation = refl

create_siwa_nonce-IsEntitled_example :
    (registry : Str) × IsEntitled (runtime null) sources client params options registry
    × (nonce : Str) × (issued
        ≡ issued_nonce (runtime null) sources client params options 500 nonce 1000)
create_siwa_nonce-IsEntitled_example =
    create_siwa_nonce-IsEntitled (runtime null) sources client params options 500 7 7 issued
      creation

abbrev stored : Json
stored = nonce_payload (runtime null) sources client params options (text "abcdefgh") 500 1500

nonce_ok-issued_nonce_example :
    (token : Str) × ((issued_nonce
        (runtime stored)
        sources
        client
        params
        options
        500
        (text "abcdefgh")
        1000).nonce_token
      ≡ some token)
    × (nonce_ok (runtime stored) {S = ℕ} (stateless token (text "secret")) 1500 fields 9
        ≡ (9, proceeds true))
unfolding text nonce_payload
nonce_ok-issued_nonce_example =
    nonce_ok-issued_nonce (runtime stored) sources client params options {T = ℕ}
      (runtime-Laws stored) 500 1000 1500 (text "abcdefgh") (text "secret") fields 9 refl refl refl
      refl

abbrev signer : Signer
signer = record {
  get_address = ok (text "0x1111111111111111111111111111111111111111");
  sign_message = λ m. ok (text "0xabcd");
}

abbrev signed : Signed
signed = record {
  message = build_siwa_message fields;
  signature = text "0xabcd";
  address = text "0x1111111111111111111111111111111111111111";
}

signing : sign_siwa_message (runtime null) signer fields none ≡ ok signed
unfolding sign_siwa_message
signing = refl

sign_siwa_message-parses_example :
    (signer.get_address ≡ ok signed.address)
    × (signer.sign_message signed.message ≡ ok signed.signature)
    × (claims_other (runtime null) none signed.address ≡ false)
    × (IsWellFormed fields → parse_siwa_message signed.message ≡ ok (normal fields))
sign_siwa_message-parses_example =
    sign_siwa_message-parses (runtime null) signer fields none signed signing

abbrev hashing : Hashing
hashing = record { hmac_hex = λ secret payload. text "00ff"; to_upper = λ s. s }

abbrev sent_at : ℕ
sent_at = 1000
