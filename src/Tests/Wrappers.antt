-- ===== src/Tests/Wrappers.antt =====
-- A request that a wrapper lets in.
use siwa.Base.{ℕ, ◌+◌, ok, some, none, [], ◌∷◌, ◌≡◌, refl, true}
use siwa.Base.Json.{null}
use siwa.Base.Str.{text}
use siwa.Payments.{Payment, PaymentPayload, FacilitatorClient, process_x402_payment}
use siwa.Erc8128.{given_header, resolve_receipt_secret}
use siwa.Erc8128.Steps.{goes}
use siwa.Receipt.{receipt_json, verify_receipt}
use siwa.Erc8128.Checks.{verify_authenticated_request}
use siwa.Wrappers.{
  WebRequest, X402SessionConfig, X402Config, Headers, Exchange, on_world, try_catch, set_header,
  has_siwa_headers, payment_gate, charge, existing_session, with_session, take_payment,
  process_payment, accept_payment, early_header, store_session,
}
use siwa.Wrappers.Frameworks.{
  SiwaOptions, express_middleware, express_auth, secret_of, agent_or_challenge, all_options,
}
use siwa.Wrappers.Admitted.{IsAdmitted, express_middleware_sound}
use siwa.Tests.Requests.{machine, request, libraries, options, agent}

abbrev payment : Payment
payment = record {
  scheme = text "exact";
  network = text "eip155:8453";
  amount = text "100";
  asset = text "USDC";
  pay_to = text "0x55";
}

abbrev settler : FacilitatorClient ℕ
settler = record {
  verify = λ p accepts s. (s + 1, ok (record { valid = true; reason = none }));
  settle = λ p accepts s. (s + 1, ok (record { success = true; tx_hash = none; reason = none }));
}

-- A store that has no session yet, and counts what is stored.
abbrev sessions : X402SessionConfig ℕ
sessions = record {
  get = λ address resource s. (s + 1, ok none);
  set = λ address resource session ttl s. (s + 1, ok tt);
  ttl = 3600;
}

abbrev gate : X402Config ℕ
gate = record {
  facilitator = settler;
  resource_url = text "/weather";
  accepts = [];
  session = some sessions;
}

abbrev codec : Headers
codec = record {
  encode_required = λ accepts url. text "e30";
  encode_payment = λ payment tx_hash. text "e30";
  decode_payload = λ header.
      ok (record { signature = text "0xff"; payment = payment; nonce = none; resource = null });
}

abbrev siwa_options : SiwaOptions ℕ
siwa_options = record {
  receipt_secret = some (text "secret");
  receipt_secret_env = none;
  siwa_secret_env = none;
  verify = options;
  x402 = some gate;
}

abbrev web_request : WebRequest
web_request = record {
  signature = some (text "sig1");
  siwa_receipt = some (text "e30.mac");
  payment_signature = some (text "e30");
  converted = ok request;
}

abbrev before : Exchange ℕ
before = record { world = 7; headers = [] }

abbrev behind : Exchange ℕ
behind = record { world = 12; headers = (text "Payment-Response", text "e30") ∷ [] }

admission :
    express_middleware machine libraries codec 1000 siwa_options web_request before
    ≡ (behind, goes (agent, some (payment, none)))
unfolding express_middleware express_auth on_world try_catch set_header has_siwa_headers
    payment_gate charge existing_session with_session take_payment process_payment accept_payment
    early_header store_session secret_of agent_or_challenge given_header resolve_receipt_secret text
    process_x402_payment siwa.Payments.verify_outcome siwa.Payments.settle_outcome
    verify_authenticated_request verify_receipt siwa.Token.Bytes.timing_safe_equal
    siwa.Token.Bytes.utf8 receipt_json siwa.Registry.big_int
admission = refl

express_middleware_sound_example :
    IsAdmitted machine libraries codec 1000 siwa_options web_request
      (all_options siwa_options)
      agent
      (some (payment, none))
      before
      behind
express_middleware_sound_example =
    express_middleware_sound machine libraries codec 1000 siwa_options web_request before behind
      agent (some (payment, none)) admission
