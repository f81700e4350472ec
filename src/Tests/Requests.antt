-- ===== src/Tests/Requests.antt =====
-- A request with a receipt.
use siwa.Base.{ℕ, ok, some, none, ◌≡◌, refl, true}
use siwa.Base.Json.{Json}
use siwa.Base.Str.{text}
use siwa.Captcha.Solutions.{CaptchaVerifyOptions}
use siwa.Receipt.{receipt_json, verify_receipt}
use siwa.Erc8128.{Request, VerifyOptions, Libraries, SiwaAgent, verified, accepted}
use siwa.Erc8128.Checks.{verify_authenticated_request, agent_of}
use siwa.Erc8128.Checks.Soundness.{IsAuthenticated, verify_authenticated_request_sound}
use siwa.Registry.{PublicClient}
use siwa.Runtime.{Runtime}
use siwa.Tests.Fixtures.{runtime, payload, client}

abbrev stored : Json
stored = receipt_json payload 500 1500

abbrev pub machine : Runtime
machine = runtime stored

abbrev pub request : Request
request = record { receipt = some (text "e30.mac"); challenge_response = none }

abbrev pub libraries : Libraries ℕ
libraries = record {
  verify_request =
      λ request verify s. (8, ok (verified (text "0x1111111111111111111111111111111111111111")));
  verify_message = λ address message signature. ok true;
  connect = λ url. client;
  below = λ n s. (s, 0);
}

abbrev captcha_verify : CaptchaVerifyOptions ℕ
captcha_verify = record {
  use_server_timing = none;
  timing_tolerance_seconds = none;
  reveal_constraints = none;
  ascii_tolerance = none;
  consume_challenge = none;
}

abbrev pub options : VerifyOptions ℕ
options = record {
  receipt_secret = text "secret";
  rpc_url = none;
  verify_onchain = true;
  public_client = some client;
  allowed_signer_types = none;
  captcha_policy = none;
  captcha_options = none;
  captcha_verify = captcha_verify;
}

abbrev pub agent : SiwaAgent
agent =
    agent_of machine libraries options stored (text "0x1111111111111111111111111111111111111111")

pub valid_request :
    verify_authenticated_request machine libraries options 1000 request 7 ≡ (8, ok (accepted agent))
unfolding verify_authenticated_request verify_receipt siwa.Token.Bytes.timing_safe_equal
    siwa.Token.Bytes.utf8 receipt_json siwa.Registry.big_int
valid_request = refl

verify_authenticated_request_sound_example :
    IsAuthenticated machine libraries options 1000 request 7 8 agent
verify_authenticated_request_sound_example =
    verify_authenticated_request_sound machine libraries options 1000 request 7 8 agent
      valid_request
