-- ===== src/Issue.antt =====
-- packages/siwa/src/siwa.ts: `createSIWANonce` and `signSIWAMessage`. The policy, the nonce store and
-- the random sources are parameters, each a step on one state; the clock is read once.
pub mod Granted
pub mod Signing
use siwa.Base.{
  ℕ, ◌+◌, Bool, true, false, ◌&&◌, not, Option, none, some, List, [], ◌∷◌, ◌++◌, if◌then◌else◌,
  or_else, get_elem?, length, ◌==◌, Result, ok, throws, String,
}
use siwa.Base.Int.{Number, nan, int, pos, ℤ}
use siwa.Base.Json.{Json, null, num, str, obj, end, field, json_number}
use siwa.Base.Numbers.{parse_int}
use siwa.Base.Str.{Str, text, str_eq, split}
use siwa.Captcha.{
  CaptchaDifficulty, CaptchaChallenge, CaptchaOptions, Draw, create_captcha_challenge,
}
use siwa.Captcha.Solutions.{CaptchaVerificationResult, CaptchaVerifyOptions}
use siwa.Captcha.Submission.{unpack_captcha_response, verify_submitted}
use siwa.Erc8128.{given_header}
use siwa.Erc8128.Steps.{
  Exit, goes, returns, raises, Step, ◌>>=◌, ◌>>◌, lift, pass, stop, require, stateful,
}
use siwa.Message.{given}
use siwa.Receipt.{onchain}
use siwa.Registry.{PublicClient, big_int}
use siwa.Response.{
  SiwaErrorCode, invalid_registry_format, not_registered, not_owner, captcha_failed, SiwaResponse,
  build_siwa_response,
}
use siwa.Runtime.{Runtime}
use siwa.Token.{sign_nonce_token}
use siwa.Verify.Flow.{bind_result}

pub record SiwaNonceParams : Type 0 where
  pub address : Str
  pub agent_id : Number
  pub agent_registry : Str
  pub challenge_response : Option Str

pub record SiwaNonceOptions (S : Type 0) : Type 0 where
  pub expiration_ttl : Option ℕ
  pub secret : Option Str
  pub nonce_store : Option (Str → ℕ → S → S × Result Bool)
  pub captcha_policy : Option (Str → Number → Str → S → S × Result (Option CaptchaDifficulty))
  pub captcha_options : Option CaptchaOptions
  pub captcha_verify : CaptchaVerifyOptions S

pub record NonceIssued : Type 0 where
  pub nonce : Str
  pub nonce_token : Option Str
  pub issued_at : Str
  pub expiration_time : Str

-- What is returned in place of a nonce.
pub data NonceRefused : Type 0 where
  captcha_required : CaptchaChallenge → Str → NonceRefused
  response : SiwaResponse → NonceRefused

pub data SiwaNonceResult : Type 0 where
  nonce_issued : NonceIssued → SiwaNonceResult
  nonce_refused : NonceRefused → SiwaNonceResult

-- The chain and the address of `eip155:{chainId}:{address}`
pub registry_parts : List Str → Option (Number × Str)
unfolding str_eq text parse_int
registry_parts (a ∷ b ∷ c ∷ []) = if str_eq a (text "eip155") then some (parse_int b, c) else none
registry_parts parts = none

-- The random sources: `crypto.randomInt` and `generateNonce`.
pub record Sources (S : Type 0) : Type 0 where
  pub below : ℕ → Draw S ℕ
  pub generate_nonce : Draw S Str

module _ (r : Runtime) {S : Type 0} (sources : Sources S) (client : PublicClient)
    (params : SiwaNonceParams) (options : SiwaNonceOptions S) where
  unfoldable pub fail : Number → SiwaErrorCode → Str → NonceRefused
  unfolding build_siwa_response
  fail chain_id code error = response (
      build_siwa_response (record {
        valid = false;
        address = params.address;
        agent_id = params.agent_id;
        agent_registry = params.agent_registry;
        chain_id = chain_id;
        verified = onchain;
        signer_type = none;
        code = some code;
        error = some error;
        agent = none;
      }))

  unfoldable pub nonce_registry : Option (Number × Str) → Step S NonceRefused (Number × Str)
  unfolding fail text
  nonce_registry none =
      stop (fail (int (pos 0)) invalid_registry_format (text "Invalid agentRegistry format"))
  nonce_registry (some parts) = pass parts

  unfoldable pub nonce_owner : Number → Result Str → Step S NonceRefused (Unit {0})
  unfolding fail str_eq text
  nonce_owner chain_id (throws e) = stop (
      fail chain_id not_registered
        (text "Agent is not registered on the ERC-8004 Identity Registry"))
  nonce_owner chain_id (ok owner) =
      require (str_eq (r.to_lower owner) (r.to_lower params.address))
        (fail chain_id not_owner (text "Signer is not the owner of this agent NFT"))

  option_secret : Option CaptchaOptions → Option Str
  option_secret none = options.secret
  option_secret (some o) = some o.secret

  secret_for : Option Str → Result Str
  unfolding text
  secret_for none =
      throws (text "captchaPolicy requires a secret — set captchaOptions.secret or options.secret")
  secret_for (some s) = ok s

  unfoldable pub challenge_options : Str → Option CaptchaOptions → CaptchaOptions
  challenge_options secret none = record {
    secret = secret;
    topics = none;
    formats = none;
    difficulties = λ d. none;
  }
  challenge_options secret (some o) = record o { secret = secret }

  unfoldable pub nonce_challenge : CaptchaChallenge × Str → Step S NonceRefused (Unit {0})
  nonce_challenge (challenge, token) = stop (captcha_required challenge token)

  unfoldable pub nonce_captcha_passed :
      Number → Option CaptchaVerificationResult → Step S NonceRefused (Unit {0})
  unfolding fail text
  nonce_captcha_passed chain_id none =
      stop (fail chain_id captcha_failed (text "Captcha verification failed: invalid token"))
  nonce_captcha_passed chain_id (some result) =
      require result.overall_pass
        (fail chain_id captcha_failed (text "Captcha verification failed: CHALLENGE_FAILED"))

  unfoldable pub nonce_submitted :
      ℕ → Number → Str → Option (Json × Json × ℤ) → Step S NonceRefused (Unit {0})
  unfolding fail text
  nonce_submitted now chain_id secret none =
      stop (fail chain_id captcha_failed (text "Invalid captcha response format"))
  nonce_submitted now chain_id secret (some (token, t, solved_at)) = do
    result ← stateful (verify_submitted r options.captcha_verify now token t solved_at secret)
    nonce_captcha_passed chain_id result

  unfoldable pub nonce_challenged :
      ℕ → Number → Str → CaptchaDifficulty → Option Str → Step S NonceRefused (Unit {0})
  nonce_challenged now chain_id secret difficulty (some packed) =
      nonce_submitted now chain_id secret (unpack_captcha_response r packed)
  nonce_challenged now chain_id secret difficulty none = do
    issue ← stateful (
        create_captcha_challenge sources.below r now difficulty
          (challenge_options secret options.captcha_options))
    nonce_challenge issue

  unfoldable pub nonce_evaluated :
      ℕ → Number → Str → Option CaptchaDifficulty → Step S NonceRefused (Unit {0})
  unfolding given_header
  nonce_evaluated now chain_id secret none = pass tt
  nonce_evaluated now chain_id secret (some difficulty) =
      nonce_challenged now chain_id secret difficulty (given_header params.challenge_response)

  unfoldable pub nonce_captcha :
      ℕ
      → Number
      → Option (Str → Number → Str → S → S × Result (Option CaptchaDifficulty))
      → Step S NonceRefused (Unit {0})
  unfolding option_secret secret_for
  nonce_captcha now chain_id none = pass tt
  nonce_captcha now chain_id (some policy) = do
    secret ← lift (secret_for (given (option_secret options.captcha_options)))
    difficulty ← stateful (policy params.address params.agent_id params.agent_registry)
    nonce_evaluated now chain_id secret difficulty

  -- The reply of the store is not read.
  unfoldable pub tracked :
      Option (Str → ℕ → S → S × Result Bool) → Str → ℕ → Step S NonceRefused (Unit {0})
  tracked none nonce ttl = pass tt
  tracked (some issue) nonce ttl = do reply ← stateful (issue nonce ttl); pass tt

  -- The payload of the token
  unfoldable pub nonce_payload : Str → ℕ → ℕ → Json
  nonce_payload nonce iat exp = obj (
      field "nonce" (str nonce) (
        field "address" (str params.address) (
          field "agentId" (json_number params.agent_id)
            (field "iat" (num (pos iat)) (field "exp" (num (pos exp)) end)))))

  token_for : Option Str → Json → Option Str
  unfolding sign_nonce_token
  token_for none payload = none
  token_for (some secret) payload = some (sign_nonce_token r payload secret)

  unfoldable pub issued_nonce : ℕ → Str → ℕ → NonceIssued
  unfolding token_for nonce_payload
  issued_nonce now nonce ttl = record {
    nonce = nonce;
    nonce_token = token_for (given options.secret) (nonce_payload nonce now (now + ttl));
    issued_at = r.to_iso_string now;
    expiration_time = r.to_iso_string (now + ttl);
  }

  unfoldable pub new_nonce : ℕ → ℕ → S × Str → S × Exit NonceRefused NonceIssued
  new_nonce now ttl (s, nonce) =
      (tracked options.nonce_store nonce ttl >> pass (issued_nonce now nonce ttl)) s

  unfoldable pub nonce_creation : ℕ → Step S NonceRefused NonceIssued
  unfolding registry_parts split big_int
  nonce_creation now =
      let ttl = or_else options.expiration_ttl 300000 in
      do
        (chain_id, registry) ← nonce_registry (registry_parts (split b':' params.agent_registry))
        nonce_owner chain_id (bind_result (big_int params.agent_id) (client.owner_of registry))
        nonce_captcha now chain_id options.captcha_policy
        λ s. new_nonce now ttl (sources.generate_nonce s)

  pub nonce_result : S × Exit NonceRefused NonceIssued → S × Result SiwaNonceResult
  nonce_result (s, goes issued) = (s, ok (nonce_issued issued))
  nonce_result (s, returns refusal) = (s, ok (nonce_refused refusal))
  nonce_result (s, raises e) = (s, throws e)

  unfoldable pub create_siwa_nonce : ℕ → S → S × Result SiwaNonceResult
  unfolding nonce_result
  create_siwa_nonce now s = nonce_result (nonce_creation now s)
