-- ===== src/Tests/Verifications.antt =====
-- Verifications of one message.
use siwa.Base.{
  ℕ, ok, throws, some, none, ◌≡◌, ◌≢◌, refl, arith, true, false, not, Option, List, [], ◌∷◌, Result,
  All, Bool,
}
use siwa.Base.Int.{pos, int}
use siwa.Base.Json.{Json, null, obj, field, end}
use siwa.Base.JsMap.{get, retain}
use siwa.Base.Str.{Str, text, str_eq}
use siwa.Message.{SiwaMessageFields, build_siwa_message, parse_siwa_message}
use siwa.Message.RoundTrip.{normal}
use siwa.NonceStore.{Nonces, Call, issues, consumes, run, consume}
use siwa.Receipt.{eoa}
use siwa.Response.{build_siwa_response, AgentProfile}
use siwa.Response.Statuses.{IsResponseTo, build_siwa_response_lem}
use siwa.Verify.{verify_siwa, base_result, thrown}
use siwa.Registry.{get_agent, get_reputation}
use siwa.Verify.Criteria.{
  SiwaVerifyCriteria, meets_criteria, check_signer_type, check_profile, check_active,
  check_required_services, check_trust, check_reputation, check_custom, reputation_at, check_minima,
  signer_allowed, below_minimum, truthy, metadata_field,
}
use siwa.Verify.Criteria.Meaning.{IsAcceptable, meets_criteria-proceeds}
use siwa.Verify.Nonces.{memory, verify_siwa-unidentified, verify_siwa-replay}
use siwa.Verify.Soundness.{IsVerified, IsIdentified, verify_siwa_sound}
use siwa.Tests.Fixtures.{doubles, runtime, client, fields}

abbrev message : Str
message = build_siwa_message fields

abbrev nonces : Nonces
nonces = (text "abcdefgh", 2000) ∷ []

abbrev domain : Str
domain = text "example.com"

valid_result :
    (verify_siwa
      (runtime null)
      client
      message
      []
      domain
      (memory 500 500)
      none
      500
      500
      nonces).1.valid
    ≡ true
unfolding verify_siwa parse_siwa_message build_siwa_message consume get retain base_result
valid_result = refl

verify_siwa_sound_example :
    IsVerified
      (runtime null)
      client
      message
      []
      domain
      (memory 500 500)
      none
      500
      500
      nonces
      (verify_siwa (runtime null) client message [] domain (memory 500 500) none 500 500 nonces)
verify_siwa_sound_example =
    verify_siwa_sound (runtime null) client message [] domain (memory 500 500) none 500 500 nonces
      valid_result

parsed : (f : SiwaMessageFields) → ¬ IsIdentified client (text "hello") [] domain f
unfolding parse_siwa_message
parsed f h = let e = h.parsed in cc

verify_siwa-unidentified_example :
    let out =
      verify_siwa
        (runtime null)
        client
        (text "hello")
        []
        domain
        (memory 500 500)
        none
        500
        500
        nonces in
    (out.0 ≡ nonces) × (out.1.valid ≡ false)
verify_siwa-unidentified_example =
    verify_siwa-unidentified (runtime null) client (text "hello") [] domain (memory 500 500) none
      500 500 nonces parsed

abbrev calls : List Call
calls = issues 600 600 (text "zyxwvuts") 100 ∷ consumes 700 700 (text "abcdefgh") ∷ []

message_parses : parse_siwa_message message ≡ ok (normal fields)
unfolding parse_siwa_message build_siwa_message normal
message_parses = refl

verify_siwa-replay_example :
    (verify_siwa (runtime null) client message [] domain (memory 800 800) none 800 800 (
      run
        (verify_siwa (runtime null) client message [] domain (memory 500 500) none 500 500 nonces).0
        calls)).1.valid
    ≢ true
unfolding str_eq text normal
verify_siwa-replay_example =
    verify_siwa-replay (runtime null) client client message [] [] domain domain 500 500 500 500 800
      800 800 800 none none nonces (normal fields) calls message_parses (refl, (tt, tt))
      valid_result

abbrev criteria : SiwaVerifyCriteria
criteria = record {
  min_score = some 2500;
  min_feedback_count = some 3000;
  reputation_registry_address = some (text "0x4444");
  required_services = none;
  must_be_active = true;
  required_trust = none;
  allowed_signer_types = some (eoa ∷ []);
  custom = some (λ agent. ok true);
}

abbrev agent : AgentProfile
agent = record {
  agent_id = int (pos 42);
  owner = text "0x1111111111111111111111111111111111111111";
  uri = text "ipfs://agent";
  agent_wallet = some (text "0x3333");
  metadata = some (obj (field "active" (Json.bool true) end));
}

meets_criteria-proceeds_example :
    IsAcceptable doubles client fields (text "0x2222") eoa criteria agent
unfolding meets_criteria check_signer_type check_profile check_active check_required_services
    check_trust check_reputation check_custom reputation_at check_minima get_agent get_reputation
    signer_allowed below_minimum truthy metadata_field text siwa.Base.Json.get
meets_criteria-proceeds_example =
    meets_criteria-proceeds {S = ℕ} doubles fields eoa client (text "0x2222") criteria 0 {s' = 0}
      {agent = agent} refl

build_siwa_response_lem_example :
    IsResponseTo (thrown (text "failed")) (build_siwa_response (thrown (text "failed")))
build_siwa_response_lem_example = build_siwa_response_lem (thrown (text "failed"))
