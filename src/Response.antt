-- ===== src/Response.antt =====
-- packages/siwa/src/siwa.ts: the results of a verification, and `buildSIWAResponse`.
-- A property that is left out of an object literal is `none`.
pub mod Statuses
use siwa.Base.{
  ℕ, Bool, true, false, Option, none, some, List, [], ◌∷◌, ◌==◌, ◌&&◌, leb, if◌then◌else◌, length,
  String, get_elem?, or_else,
}
use siwa.Base.Int.{Number, truthy_number}
use siwa.Base.Json.{Json}
use siwa.Base.Numbers.{parse_int}
use siwa.Base.Str.{Str, text, split}
use siwa.Receipt.{SignerType, Verified}

pub data SiwaErrorCode : Type 0 where
  invalid_signature domain_mismatch invalid_nonce message_expired message_not_yet_valid :
      SiwaErrorCode
  invalid_registry_format not_registered not_owner agent_not_active missing_service : SiwaErrorCode
  missing_trust_model low_reputation custom_check_failed verification_failed : SiwaErrorCode
  captcha_required captcha_failed : SiwaErrorCode

-- registry.ts: AgentProfile; the metadata is the JSON value that was fetched
pub record AgentProfile : Type 0 where
  pub agent_id : Number
  pub owner : Str
  pub uri : Str
  pub agent_wallet : Option Str
  pub metadata : Option Json

pub record SiwaVerificationResult : Type 0 where
  pub valid : Bool
  pub address : Str
  pub agent_id : Number
  pub agent_registry : Str
  pub chain_id : Number
  pub verified : Verified
  pub signer_type : Option SignerType
  pub code : Option SiwaErrorCode
  pub error : Option Str
  pub agent : Option AgentProfile

pub data Status : Type 0 where
  authenticated not_registered rejected : Status

pub record SkillRef : Type 0 where
  pub name : Str
  pub install : Str
  pub url : Str

pub record SiwaAction : Type 0 where
  pub message : Str
  pub skill : SkillRef
  pub steps : List Str
  pub registry_address : Option Str
  pub chain_id : Option Number

pub record SiwaResponse : Type 0 where
  pub status : Status
  pub address : Option Str
  pub agent_id : Option Number
  pub agent_registry : Option Str
  pub chain_id : Option Number
  pub verified : Option Verified
  pub signer_type : Option SignerType
  pub code : Option SiwaErrorCode
  pub error : Option Str
  pub action : Option SiwaAction
  pub skill : Option SkillRef

-- `s || undefined` and `n || undefined`
abbrev given_text : Str → Option Str
given_text [] = none
given_text (c ∷ s) = some (c ∷ s)

abbrev given_number : Number → Option Number
given_number n = if truthy_number n then some n else none

skill_ref : SkillRef
unfolding text
skill_ref = record {
  name = text "@buildersgarden/siwa";
  install = text "npm install @buildersgarden/siwa";
  url = text "https://siwa.id/skill.md";
}

base : SiwaVerificationResult → SiwaResponse
base result = record {
  status = rejected;
  address = given_text result.address;
  agent_id = given_number result.agent_id;
  agent_registry = given_text result.agent_registry;
  chain_id = given_number result.chain_id;
  verified = some result.verified;
  signer_type = result.signer_type;
  code = none;
  error = none;
  action = none;
  skill = none;
}

registry_parts : Str → List Str
unfolding split
registry_parts [] = []
registry_parts (c ∷ s) = split b':' (c ∷ s)

-- The chain of the result, or the one that the registry names.
action_chain : SiwaVerificationResult → List Str → Option Number
unfolding parse_int
action_chain result parts =
    if truthy_number result.chain_id
    then some result.chain_id
    else if leb 2 (length parts)
    then some (parse_int (or_else (get_elem? parts 1) []))
    else none

register_action : SiwaVerificationResult → SiwaAction
unfolding skill_ref registry_parts action_chain text
register_action result =
    let parts = registry_parts result.agent_registry in
    record {
      message =
          text
            "This address is not registered as an ERC-8004 agent. Install the SIWA SDK and register before signing in.";
      skill = skill_ref;
      steps =
          text "Install the SDK: npm install @buildersgarden/siwa"
          ∷ text
              "Create a wallet: import { createWallet } from '@buildersgarden/siwa/keystore'; const wallet = await createWallet();"
          ∷ text "Fund the wallet with ETH on the target chain for gas fees"
          ∷ text
              "Build ERC-8004 registration metadata (JSON with name, description, services, active: true)"
          ∷ text "Register onchain: call register(agentURI) on the Identity Registry contract"
          ∷ text "Retry SIWA sign-in"
          ∷ [];
      registry_address = if length parts == 3 then get_elem? parts 2 else none;
      chain_id = action_chain result parts;
    }

rejected_response : SiwaVerificationResult → Option SiwaErrorCode → SiwaResponse
unfolding base register_action skill_ref text
rejected_response result (some SiwaErrorCode.not_registered) = record (base result) {
  status = Status.not_registered;
  code = some SiwaErrorCode.not_registered;
  error = some (text "Agent is not registered on the ERC-8004 Identity Registry.");
  skill = some skill_ref;
  action = some (register_action result);
}
rejected_response result code = record (base result) {
  code = code;
  error = result.error;
  skill = some skill_ref;
}

unfoldable pub build_siwa_response : SiwaVerificationResult → SiwaResponse
unfolding base rejected_response
build_siwa_response result =
    if result.valid
    then record (base result) { status = authenticated }
    else rejected_response result result.code
