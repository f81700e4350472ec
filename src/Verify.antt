-- ===== src/Verify.antt =====
-- packages/siwa/src/siwa.ts: `verifySIWA`. An early `return fail(...)` is `fails`, an exception that
-- the outer `catch` turns into a result is `raises`. The only state that the function changes is the
-- nonce validator's, which is threaded through. The clock is read twice: `checked_at` for a nonce
-- token, `now` for the time window.
pub mod Flow
pub mod Criteria
pub mod Soundness
pub mod Inversion
pub mod Keeps
pub mod Nonces
pub mod Stateless
use siwa.Base.{
  zero, ℕ, Bool, true, false, ◌&&◌, ◌||◌, not, Option, none, some, List, [], ◌∷◌, ◌++◌, ◌==◌,
  if◌then◌else◌, ltb, length, get_elem?, or_else, Result, ok, throws, String,
}
use siwa.Base.Int.{ℤ, Number, int, pos, ltb_ℤ}
use siwa.Base.Json.{Json, null, bool, num, str, get}
use siwa.Base.Str.{Str, text, str_eq, split}
use siwa.Message.{SiwaMessageFields, parse_siwa_message, given}
use siwa.Receipt.{SignerType, eoa, sca, offline, onchain, number_lt}
use siwa.Registry.{PublicClient, big_int, get_agent}
use siwa.Response.{
  SiwaErrorCode, invalid_signature, domain_mismatch, invalid_nonce, message_expired,
  message_not_yet_valid, invalid_registry_format, not_registered, not_owner, verification_failed,
  SiwaVerificationResult, AgentProfile,
}
use siwa.Runtime.{Runtime}
use siwa.Token.{verify_nonce_token}
use Flow.{
  Outcome, proceeds, fails, raises, Failure, failure, Check, ◌>>=◌, ◌>>◌, lift, stop, guard, pass,
  refused,
}
use Criteria.{SiwaVerifyCriteria, meets_criteria}

pub data NonceValidator (S : Type 0) : Type 0 where
  callback : (Str → S → S × Result Bool) → NonceValidator S
  stateless : (nonce_token secret : Str) → NonceValidator S
  nonce_store : (Str → S → S × Result Bool) → NonceValidator S

-- siwa.ts: `result.signerType` of the signer's code
unfoldable pub signer_type_of : Option Str → SignerType
unfolding str_eq text
signer_type_of none = eoa
signer_type_of (some []) = eoa
signer_type_of (some (c ∷ s)) = if str_eq (c ∷ s) (text "0x") then eoa else sca

-- siwa.ts: `baseResult`
unfoldable pub base_result :
    SiwaMessageFields → SignerType → Option AgentProfile → SiwaVerificationResult
base_result f signer agent = record {
  valid = true;
  address = f.address;
  agent_id = f.agent_id;
  agent_registry = f.agent_registry;
  chain_id = f.chain_id;
  verified = onchain;
  signer_type = some signer;
  code = none;
  error = none;
  agent = agent;
}

-- What the outer `catch` returns; `err.message || 'Verification failed'`.
pub thrown : Str → SiwaVerificationResult
unfolding text
thrown e = record {
  valid = false;
  address = [];
  agent_id = int (pos 0);
  agent_registry = [];
  chain_id = int (pos 0);
  verified = offline;
  signer_type = none;
  code = some verification_failed;
  error = some (or_else (given (some e)) (text "Verification failed"));
  agent = none;
}

pub number_expired : Option Json → ℕ → Bool
number_expired (some (num z)) now = number_lt (int z) now
number_expired v now = false

pub passed : Option ℤ → ℕ → Bool
passed none now = false
passed (some t) now = ltb_ℤ t (pos now)

pub ahead : Option ℤ → ℕ → Bool
ahead none now = false
ahead (some t) now = ltb_ℤ (pos now) t

pub registry_of : List Str → Option Str
unfolding str_eq text
registry_of (a ∷ b ∷ c ∷ []) = if str_eq a (text "eip155") then some c else none
registry_of parts = none

-- `eip155:{chainId}:{address}`: the address
unfoldable pub registry_address : Str → Option Str
unfolding split registry_of
registry_address registry = registry_of (split b':' registry)

module _ (r : Runtime) where
  -- `typeof payload.exp === 'number' && payload.exp < Date.now()`
  pub token_expired : Json → ℕ → Bool
  unfolding number_expired
  token_expired payload now = number_expired (get payload "exp") now

  pub same_text : Option Json → Str → Bool
  same_text (some (str s)) t = str_eq s t
  same_text v t = false

  pub address_mismatch : Option Json → Str → Bool
  address_mismatch (some (str s)) address = not (str_eq (r.to_lower s) (r.to_lower address))
  address_mismatch v address = false

  token_ok : ℕ → SiwaMessageFields → Json → Bool
  unfolding token_expired same_text address_mismatch str_eq
  token_ok now f payload =
      not (token_expired payload now)
      && same_text (get payload "nonce") f.nonce
      && not (address_mismatch (get payload "address") f.address)

  truthy_payload : Option Json → Option Json
  truthy_payload none = none
  truthy_payload (some null) = none
  truthy_payload (some (bool false)) = none
  truthy_payload (some (num (pos zero))) = none
  truthy_payload (some (str [])) = none
  truthy_payload (some v) = some v

  -- `s && now > new Date(s)`: a comparison with an invalid date is false.
  pub is_after : Option Str → ℕ → Bool
  unfolding passed
  is_after none now = false
  is_after (some s) now = passed (r.date_parse s) now

  -- `s && now < new Date(s)`
  pub is_before : Option Str → ℕ → Bool
  unfolding ahead
  is_before none now = false
  is_before (some s) now = ahead (r.date_parse s) now

  module _ {S : Type 0} where
    token_nonce : ℕ → SiwaMessageFields → Option Json → Check S Bool
    unfolding token_ok text
    token_nonce now f none = stop (failure f invalid_nonce (text "Invalid nonce token signature"))
    token_nonce now f (some payload) = pass (token_ok now f payload)

    -- The nonce is asked of the caller's function, of the store, or of the signed token.
    pub nonce_ok : NonceValidator S → ℕ → SiwaMessageFields → Check S Bool
    nonce_ok (callback f) now fields = Flow.stateful (f fields.nonce)
    nonce_ok (nonce_store consume) now fields = Flow.stateful (consume fields.nonce)
    nonce_ok (stateless token secret) now fields = do
      payload ← lift (verify_nonce_token r token secret)
      token_nonce now fields (truthy_payload payload)

    pub check_signature : PublicClient → Str → Str → SiwaMessageFields → Check S SignerType
    unfolding signer_type_of text
    check_signature client message signature f = do
      is_valid ← lift (client.verify_message f.address message signature)
      guard is_valid (failure f invalid_signature (text "Invalid signature"))
      code ← lift (client.get_code f.address)
      pass (signer_type_of code)

    pub check_domain : Str → SiwaMessageFields → Check S (Unit {0})
    unfolding str_eq text
    check_domain expected f = guard (str_eq f.domain expected) (
        failure f domain_mismatch
          (text "Domain mismatch: expected " ++ (expected ++ (text ", got " ++ f.domain))))

    pub check_nonce : NonceValidator S → ℕ → SiwaMessageFields → Check S (Unit {0})
    unfolding nonce_ok token_nonce truthy_payload verify_nonce_token text
    check_nonce validator now f = do
      valid ← nonce_ok validator now f
      guard valid (failure f invalid_nonce (text "Invalid or consumed nonce"))

    pub check_window : ℕ → SiwaMessageFields → Check S (Unit {0})
    unfolding is_after is_before text
    check_window now f = do
      guard (not (is_after (given f.expiration_time) now))
          (failure f message_expired (text "Message expired"))
      guard (not (is_before (given f.not_before) now))
          (failure f message_not_yet_valid (text "Message not yet valid (notBefore)"))

    pub known_registry : SiwaMessageFields → Option Str → Check S Str
    unfolding text
    known_registry f none =
        stop (failure f invalid_registry_format (text "Invalid agentRegistry format"))
    known_registry f (some a) = pass a

    owner_result : SiwaMessageFields → Result Str → Check S Str
    unfolding text
    owner_result f (ok owner) = pass owner
    owner_result f (throws e) = stop (
        failure f not_registered (text "Agent is not registered on the ERC-8004 Identity Registry"))

    -- The read of the owner, with `BigInt(agentId)`, stands in a `try` of its own.
    pub check_owner : PublicClient → SiwaMessageFields → Str → Check S (Unit {0})
    unfolding owner_result big_int str_eq text
    check_owner client f registry = do
      owner ← owner_result f (Flow.bind_result (big_int f.agent_id) (client.owner_of registry))
      guard (str_eq (r.to_lower owner) (r.to_lower f.address))
          (failure f not_owner (text "Signer is not the owner of this agent NFT"))

    -- What stands before the nonce: the state is not touched.
    pub check_identity :
        PublicClient
        → (message signature expected_domain : Str) → Check S (SiwaMessageFields × SignerType)
    unfolding check_signature check_domain
    check_identity client message signature expected_domain = do
      f ← lift (parse_siwa_message message)
      signer ← check_signature client message signature f
      check_domain expected_domain f
      pass (f, signer)

    pub check_registration : PublicClient → ℕ → SiwaMessageFields → Check S Str
    unfolding check_window known_registry registry_address check_owner
    check_registration client now f = do
      check_window now f
      registry ← known_registry f (registry_address f.agent_registry)
      check_owner client f registry
      pass registry

    pub check_criteria :
        PublicClient
        → SiwaMessageFields
        → SignerType
        → Str
        → Option SiwaVerifyCriteria
        → Check S (Option AgentProfile)
    check_criteria client f signer registry none = pass none
    check_criteria client f signer registry (some criteria) = do
      agent ← meets_criteria r.doubles f signer client registry criteria
      pass (some agent)

    pub verification :
        PublicClient
        → (message signature expected_domain : Str) → NonceValidator S
        → Option SiwaVerifyCriteria
        → (checked_at now : ℕ) → Check S SiwaVerificationResult
    unfolding check_identity check_nonce check_registration check_criteria
    verification client message signature expected_domain validator criteria checked_at now = do
      (f, signer) ← check_identity client message signature expected_domain
      check_nonce validator checked_at f
      registry ← check_registration client now f
      agent ← check_criteria client f signer registry criteria
      pass (base_result f signer agent)

    -- The `catch` around everything.
    pub caught : S × Outcome SiwaVerificationResult → S × SiwaVerificationResult
    unfolding refused thrown
    caught (s, proceeds result) = (s, result)
    caught (s, fails i) = (s, refused i)
    caught (s, raises e) = (s, thrown e)

    unfoldable pub verify_siwa :
        PublicClient
        → (message signature expected_domain : Str) → NonceValidator S
        → Option SiwaVerifyCriteria
        → (checked_at now : ℕ) → S
        → S × SiwaVerificationResult
    unfolding verification caught
    verify_siwa client message signature expected_domain validator criteria checked_at now s =
        caught (
          verification client message signature expected_domain validator criteria checked_at now s)
