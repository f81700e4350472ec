-- ===== src/Verify/Flow.antt =====
-- The control flow of `verifySIWA`: going on, an early return of a refusal, or an exception.
use siwa.Base.{Bool, true, false, Option, none, some, Result, ok, throws}
use siwa.Base.Int.{Number}
use siwa.Base.Str.{Str}
use siwa.Message.{SiwaMessageFields}
use siwa.Receipt.{SignerType, onchain}
use siwa.Response.{SiwaErrorCode, AgentProfile, SiwaVerificationResult}

-- A refusal; `valid` is false in the result made of it.
pub record Failure : Type 0 where
  pub address : Str
  pub agent_id : Number
  pub agent_registry : Str
  pub chain_id : Number
  pub signer_type : Option SignerType
  pub agent : Option AgentProfile
  pub code : SiwaErrorCode
  pub error : Str

-- siwa.ts: the local function `fail`
abbrev pub failure : SiwaMessageFields → SiwaErrorCode → Str → Failure
failure f code error = record {
  address = f.address;
  agent_id = f.agent_id;
  agent_registry = f.agent_registry;
  chain_id = f.chain_id;
  signer_type = none;
  agent = none;
  code = code;
  error = error;
}

pub data Outcome {ℓ} (A : Type ℓ) : Type ℓ where
  proceeds : A → Outcome A
  fails : Failure → Outcome A
  raises : Str → Outcome A

abbrev pub Check : Type 0 → Type 0 → Type 0
Check S A = S → S × Outcome A

module _ {S A B : Type 0} where
  abbrev pub bind_outcome : S × Outcome A → (A → Check S B) → S × Outcome B
  bind_outcome (s, proceeds a) f = f a s
  bind_outcome (s, fails i) f = (s, fails i)
  bind_outcome (s, raises e) f = (s, raises e)

  infixl 5 ◌>>=◌
  abbrev pub ◌>>=◌ : Check S A → (A → Check S B) → Check S B
  ◌>>=◌ m f s = bind_outcome (m s) f

module _ {S B : Type 0} where
  infixl 5 ◌>>◌
  abbrev pub ◌>>◌ : Check S (Unit {0}) → Check S B → Check S B
  m >> k = m >>= λ _. k

abbrev pub of_result {ℓ} : {A : Type ℓ} → Result A → Outcome A
of_result (ok a) = proceeds a
of_result (throws e) = raises e

module _ {S A : Type 0} where
  abbrev pub pass : A → Check S A
  pass a s = (s, proceeds a)

  abbrev pub stop : Failure → Check S A
  stop i s = (s, fails i)

  abbrev pub lift : Result A → Check S A
  lift m s = (s, of_result m)

  abbrev pub stateful_result : S × Result A → S × Outcome A
  stateful_result (s, m) = (s, of_result m)

  abbrev pub stateful : (S → S × Result A) → Check S A
  stateful m s = stateful_result (m s)

module _ {S : Type 0} where
  abbrev pub guard : Bool → Failure → Check S (Unit {0})
  guard true i s = (s, proceeds tt)
  guard false i s = (s, fails i)

module _ {A B : Type 0} where
  abbrev pub bind_result : Result A → (A → Result B) → Result B
  bind_result (ok a) f = f a
  bind_result (throws e) f = throws e

-- The refusal as the caller gets it.
unfoldable pub refused : Failure → SiwaVerificationResult
refused i = record {
  valid = false;
  address = i.address;
  agent_id = i.agent_id;
  agent_registry = i.agent_registry;
  chain_id = i.chain_id;
  verified = onchain;
  signer_type = i.signer_type;
  code = some i.code;
  error = some i.error;
  agent = i.agent;
}
