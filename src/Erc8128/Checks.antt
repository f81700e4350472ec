-- ===== src/Erc8128/Checks.antt =====
-- packages/siwa/src/erc8128.ts: the steps of `verifyAuthenticatedRequest`, in order.
pub mod Identity
pub mod Challenged
pub mod Soundness
use siwa.Base.{
  ℕ, ◌+◌, ◌*◌, Bool, true, false, ◌&&◌, ◌||◌, not, Option, none, some, List, [], ◌∷◌, ◌++◌,
  if◌then◌else◌, or_else, ltb, is_some, Result, ok, throws, String, any, map,
}
use siwa.Base.Int.{Number, nan, int, ℤ}
use siwa.Base.Json.{Json, null, num, str, get}
use siwa.Base.JsMap.{JsMap, has, set, retain}
use siwa.Base.Str.{Str, text, str_eq, join}
use siwa.Captcha.{
  CaptchaDifficulty, CaptchaChallenge, CaptchaOptions, Draw, create_captcha_challenge,
}
use siwa.Captcha.Solutions.{CaptchaVerificationResult, CaptchaVerifyOptions}
use siwa.Captcha.Submission.{truthy_payload, unpack_captcha_response, verify_submitted}
use siwa.Receipt.{SignerType, signer_type_text, verify_receipt}
use siwa.Registry.{PublicClient, big_int}
use siwa.Runtime.{Runtime}
use siwa.Verify.{registry_address}
use siwa.Erc8128.Steps.{
  Exit, goes, returns, raises, Step, ◌>>=◌, ◌>>◌, lift, pass, stop, require, stateful,
}
use siwa.Erc8128.{
  Request, VerifyResult, verified, unverified, SiwaAgent, Rejection, AuthResult, accepted, rejected,
  refused, captcha_required, VerifyOptions, Libraries, type_allowed, text_of, given_header, id_of,
  refuse,
}

module _ (r : Runtime) {S : Type 0} (lib : Libraries S) (options : VerifyOptions S) where
  pub received : Option Str → Step S Rejection Str
  unfolding refuse
  received none = stop (refuse "Missing X-SIWA-Receipt header")
  received (some token) = pass token

  pub valid_receipt : Option Json → Step S Rejection Json
  unfolding refuse
  valid_receipt none = stop (refuse "Invalid or expired receipt")
  valid_receipt (some receipt) = pass receipt

  -- 1. The receipt of the header
  pub read_receipt : ℕ → Request → Step S Rejection Json
  unfolding received valid_receipt truthy_payload given_header
  read_receipt now request = do
    token ← received (given_header request.receipt)
    receipt ← lift (verify_receipt r now token options.receipt_secret)
    valid_receipt (truthy_payload receipt)

  -- The message leaves out the two lists of types.
  pub check_type : Json → Step S Rejection (Unit {0})
  unfolding type_allowed refuse get
  check_type receipt =
      require (type_allowed options.allowed_signer_types (get receipt "signerType"))
        (refuse "Signer type is not in allowed types")

  pub verifier : Option PublicClient → Str → Str → Str → Result Bool
  verifier none = lib.verify_message
  verifier (some client) = client.verify_message

  signed_by : VerifyResult → Step S Rejection Str
  unfolding text
  signed_by (verified address) = pass address
  signed_by (unverified reason none) =
      stop (refused (text "ERC-8128 verification failed: " ++ reason))
  signed_by (unverified reason (some detail)) = stop (
      refused
        (text "ERC-8128 verification failed: " ++ (reason ++ (text " (" ++ (detail ++ text ")")))))

  -- 2. The signature of the request
  pub check_request : Request → Step S Rejection Str
  unfolding verifier signed_by
  check_request request = do
    result ← stateful (lib.verify_request request (verifier options.public_client))
    signed_by result

  -- 3. The signer is the receipt's
  pub check_address : Json → Str → Step S Rejection Str
  unfolding text_of refuse get
  check_address receipt signer = do
    address ← lift (text_of "toLowerCase" (get receipt "address"))
    require (str_eq (r.to_lower signer) (r.to_lower address))
        (refuse "Signer address does not match receipt address")
    pass address

  client_for : Option PublicClient → Option Str → Step S Rejection PublicClient
  unfolding refuse
  client_for (some client) url = pass client
  client_for none none =
      stop (refuse "Onchain verification requested but no RPC URL or publicClient provided")
  client_for none (some url) = pass (lib.connect url)

  registry_at : Option Str → Step S Rejection Str
  unfolding refuse
  registry_at none = stop (refuse "Invalid agentRegistry format in receipt")
  registry_at (some a) = pass a

  owner_found : Str → Result Str → Step S Rejection (Unit {0})
  unfolding refuse
  owner_found address (throws e) =
      stop (refuse "Onchain ownership check failed: agent not registered")
  owner_found address (ok owner) =
      require (str_eq (r.to_lower owner) (r.to_lower address))
        (refuse "Onchain ownership check failed: signer is not the NFT owner")

  owner_read : PublicClient → Str → Result ℤ → Result Str
  owner_read client registry (throws e) = throws e
  owner_read client registry (ok id) = client.owner_of registry id

  -- 4. The ownership, if it is asked for
  pub check_onchain : Json → Str → Bool → Step S Rejection (Unit {0})
  unfolding client_for registry_at owner_found owner_read text_of id_of given_header
      registry_address get
  check_onchain receipt address false = pass tt
  check_onchain receipt address true = do
    client ← client_for options.public_client (given_header options.rpc_url)
    registry ← lift (text_of "split" (get receipt "agentRegistry"))
    found ← registry_at (registry_address registry)
    owner_found address (owner_read client found (id_of r (get receipt "agentId")))

  pub captcha_secret : Option CaptchaOptions → Str
  captcha_secret none = options.receipt_secret
  captcha_secret (some o) = o.secret

  captcha_opts : Option CaptchaOptions → CaptchaOptions
  captcha_opts none = record {
    secret = options.receipt_secret;
    topics = none;
    formats = none;
    difficulties = λ d. none;
  }
  captcha_opts (some o) = o

  issued : CaptchaChallenge × Str → Step S Rejection (Unit {0})
  issued (challenge, token) = stop (captcha_required challenge token)

  passed_captcha : Option CaptchaVerificationResult → Step S Rejection (Unit {0})
  unfolding refuse
  passed_captcha none = stop (refuse "Captcha verification failed: invalid token")
  passed_captcha (some result) =
      require result.overall_pass (refuse "Captcha verification failed: CHALLENGE_FAILED")

  submitted : ℕ → Option (Json × Json × ℤ) → Step S Rejection (Unit {0})
  unfolding refuse captcha_secret passed_captcha verify_submitted
  submitted now none = stop (refuse "Invalid captcha response format")
  submitted now (some (token, t, solved_at)) = do
    result ← stateful (
        verify_submitted r options.captcha_verify now token t solved_at
          (captcha_secret options.captcha_options))
    passed_captcha result

  -- The response that the header holds is checked, or a challenge is issued.
  challenged : ℕ → CaptchaDifficulty → Option Str → Step S Rejection (Unit {0})
  unfolding captcha_opts issued submitted create_captcha_challenge unpack_captcha_response
  challenged now difficulty (some header) = submitted now (unpack_captcha_response r header)
  challenged now difficulty none = do
    issue ←
        stateful (
          create_captcha_challenge lib.below r now difficulty
            (captcha_opts options.captcha_options))
    issued issue

  pub evaluated : ℕ → Request → Option CaptchaDifficulty → Step S Rejection (Unit {0})
  unfolding challenged given_header
  evaluated now request none = pass tt
  evaluated now request (some difficulty) =
      challenged now difficulty (given_header request.challenge_response)

  -- 5. The captcha, by the policy
  pub check_captcha :
      ℕ
      → Request
      → Json
      → Str
      → Option (Str → Option Json → Option Json → S → S × Result (Option CaptchaDifficulty))
      → Step S Rejection (Unit {0})
  unfolding evaluated get
  check_captcha now request receipt address none = pass tt
  check_captcha now request receipt address (some policy) = do
    difficulty ← stateful (policy address (get receipt "agentId") (get receipt "agentRegistry"))
    evaluated now request difficulty

  pub agent_of : Json → Str → SiwaAgent
  unfolding truthy_payload get
  agent_of receipt address = record {
    address = address;
    agent_id = get receipt "agentId";
    agent_registry = get receipt "agentRegistry";
    chain_id = get receipt "chainId";
    signer_type = truthy_payload (get receipt "signerType");
  }

  pub authentication : ℕ → Request → Step S Rejection SiwaAgent
  unfolding read_receipt check_type check_request check_address check_onchain check_captcha agent_of
  authentication now request = do
    receipt ← read_receipt now request
    check_type receipt
    signer ← check_request request
    address ← check_address receipt signer
    check_onchain receipt address options.verify_onchain
    check_captcha now request receipt address options.captcha_policy
    pass (agent_of receipt address)

  -- An exception is a rejected promise.
  pub settled : S × Exit Rejection SiwaAgent → S × Result AuthResult
  settled (s, goes agent) = (s, ok (accepted agent))
  settled (s, returns rejection) = (s, ok (rejected rejection))
  settled (s, raises e) = (s, throws e)

  unfoldable pub verify_authenticated_request : ℕ → Request → S → S × Result AuthResult
  unfolding authentication settled
  verify_authenticated_request now request s = settled (authentication now request s)
