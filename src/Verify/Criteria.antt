-- ===== src/Verify/Criteria.antt =====
-- packages/siwa/src/siwa.ts: the criteria that `verifySIWA` checks after the ownership. The minima
-- are doubles, whose arithmetic is a parameter.
pub mod Keeps
pub mod Reputation
pub mod Meaning
use siwa.Base.{
  ℕ, ◌+◌, ◌-◌, ◌*◌, ◌^◌, Bool, true, false, ◌&&◌, ◌||◌, not, Option, none, some, List, [], ◌∷◌,
  ◌++◌, ◌==◌, if◌then◌else◌, ltb, Result, ok, throws, String, any, is_some, map,
}
use siwa.Base.Int.{ℤ, pos, negsuc, pos_part, neg_part, ltb_ℤ, Number, int}
use siwa.Base.Doubles.{Double, Doubles}
use siwa.Base.Json.{Json, null, bool, num, str, arr, obj, Items, nil, cons, get}
use siwa.Base.Numbers.{show_number, show_nat}
use siwa.Base.Str.{Str, text, str_eq, join, contains}
use siwa.Message.{SiwaMessageFields, given}
use siwa.Receipt.{SignerType, eoa, sca, signer_type_text}
use siwa.Registry.{PublicClient, get_agent, get_reputation, ReputationSummary}
use siwa.Response.{
  SiwaErrorCode, custom_check_failed, agent_not_active, missing_service, missing_trust_model,
  low_reputation, AgentProfile,
}
use siwa.Verify.Flow
use siwa.Verify.Flow.{Outcome, Failure, failure, Check, ◌>>=◌, ◌>>◌, lift, stop, guard, pass}

pub record SiwaVerifyCriteria : Type 0 where
  pub min_score : Option Double
  pub min_feedback_count : Option Double
  pub reputation_registry_address : Option Str
  pub required_services : Option (List Str)
  pub must_be_active : Bool
  pub required_trust : Option (List Str)
  pub allowed_signer_types : Option (List SignerType)
  pub custom : Option (AgentProfile → Result Bool)

unfoldable pub truthy : Option Json → Bool
truthy none = false
truthy (some null) = false
truthy (some (bool b)) = b
truthy (some (num (pos n))) = ltb 0 n
truthy (some (num (negsuc n))) = true
truthy (some (str [])) = false
truthy (some (str (c ∷ s))) = true
truthy (some v) = true

pub same_signer : SignerType → SignerType → Bool
same_signer eoa eoa = true
same_signer sca sca = true
same_signer a b = false

-- `allowed?.length && !allowed.includes(signerType)`, negated
unfoldable pub signer_allowed : Option (List SignerType) → SignerType → Bool
unfolding same_signer
signer_allowed none signer = true
signer_allowed (some []) signer = true
signer_allowed (some (a ∷ allowed)) signer = any (same_signer signer) (a ∷ allowed)

abbrev pub or_empty {ℓ} : {A : Type ℓ} → Option (List A) → List A
or_empty none = []
or_empty (some xs) = xs

unfoldable pub metadata_field : AgentProfile → String → Option Json
metadata_field agent key = of_metadata agent.metadata
  where
    of_metadata : Option Json → Option Json
    of_metadata none = none
    of_metadata (some v) = get v key

-- `items.map(s => s.name)`; reading a property of null throws.
names : Items → Result (List (Option Json))
unfolding text
names nil = ok []
names (cons null vs) = throws (text "Cannot read properties of null (reading 'name')")
names (cons v vs) = Flow.bind_result (names vs) (λ ns. ok (get v "name" ∷ ns))

-- `(agent.metadata?.services ?? []).map(s => s.name)`
pub service_names : Option Json → Result (List (Option Json))
unfolding names text
service_names none = ok []
service_names (some null) = ok []
service_names (some (arr vs)) = names vs
service_names (some v) = throws (text "(agent.metadata?.services ?? []).map is not a function")

pub is_text : Str → Option Json → Bool
unfolding str_eq
is_text s (some (str t)) = str_eq t s
is_text s v = false

item_is : Str → Items → Bool
unfolding is_text
item_is s nil = false
item_is s (cons v vs) = is_text s (some v) || item_is s vs

-- `(agent.metadata?.supportedTrust ?? []).includes(required)`
pub supports : Option Json → Str → Result Bool
unfolding item_is contains text
supports none required = ok false
supports (some null) required = ok false
supports (some (arr vs)) required = ok (item_is required vs)
supports (some (str s)) required = ok (contains s required)
supports (some v) required = throws (text "supported.includes is not a function")

-- `minimum !== undefined && value < minimum`
unfoldable pub below_minimum : Doubles → Double → Option Double → Bool
below_minimum d value none = false
below_minimum d value (some minimum) = d.less value minimum

pub show_minimum : Doubles → Option Double → Str
show_minimum d none = []
show_minimum d (some minimum) = d.show minimum

-- A refusal behind the ownership check: it carries the signer's type.
pub refusal : SiwaMessageFields → SignerType → Option AgentProfile → SiwaErrorCode → Str → Failure
refusal f signer agent code error = record (failure f code error) {
  signer_type = some signer;
  agent = agent;
}

module _ {S : Type 0} (d : Doubles) (f : SiwaMessageFields) (signer : SignerType) where
  unfoldable pub check_signer_type : Option (List SignerType) → Check S (Unit {0})
  unfolding signer_allowed refusal signer_type_text join text
  check_signer_type allowed = guard (signer_allowed allowed signer) (
      refusal f signer none custom_check_failed (
        text "Signer type '"
        ++ (signer_type_text signer
            ++ (text "' is not in allowed types ["
                ++ (join (text ", ") (map signer_type_text (or_empty allowed)) ++ text "]")))))

  unfoldable pub check_active : Bool → AgentProfile → Check S (Unit {0})
  unfolding metadata_field truthy refusal text
  check_active must_be_active agent =
      guard (not must_be_active || truthy (metadata_field agent "active"))
        (refusal f signer (some agent) agent_not_active (text "Agent is not active"))

  unfoldable pub check_services : AgentProfile → List (Option Json) → List Str → Check S (Unit {0})
  unfolding is_text refusal text
  check_services agent known [] = pass tt
  check_services agent known (required ∷ rest) = do
    guard (any (is_text required) known) (
        refusal f signer (some agent) missing_service
          (text "Agent missing required service: " ++ required))
    check_services agent known rest

  -- The names are read only if some service is required.
  unfoldable pub check_required_services : AgentProfile → List Str → Check S (Unit {0})
  unfolding check_services service_names metadata_field
  check_required_services agent [] = pass tt
  check_required_services agent (required ∷ rest) = do
    known ← lift (service_names (metadata_field agent "services"))
    check_services agent known (required ∷ rest)

  unfoldable pub check_trust : AgentProfile → List Str → Check S (Unit {0})
  unfolding supports metadata_field refusal text
  check_trust agent [] = pass tt
  check_trust agent (required ∷ rest) = do
    supported ← lift (supports (metadata_field agent "supportedTrust") required)
    guard supported (
        refusal f signer (some agent) missing_trust_model
          (text "Agent missing required trust model: " ++ required))
    check_trust agent rest

  -- `!criteria.reputationRegistryAddress` is the refusal of an empty address too.
  unfoldable pub reputation_at :
      PublicClient → AgentProfile → Option Str → Check S ReputationSummary
  unfolding refusal
  reputation_at client agent none = stop (
      refusal f signer (some agent) low_reputation
        (text "reputationRegistryAddress is required for reputation criteria"))
  reputation_at client agent (some a) = lift (get_reputation d client f.agent_id a)

  unfoldable pub check_minima :
      AgentProfile → SiwaVerifyCriteria → ReputationSummary → Check S (Unit {0})
  unfolding refusal
  check_minima agent criteria rep = do
    guard (not (below_minimum d rep.count criteria.min_feedback_count)) (
        refusal f signer (some agent) low_reputation (
          text "Agent feedback count "
          ++ (d.show rep.count
              ++ (text " below minimum " ++ show_minimum d criteria.min_feedback_count))))
    guard (not (below_minimum d rep.score criteria.min_score)) (
        refusal f signer (some agent) low_reputation (
          text "Agent reputation score "
          ++ (d.show rep.score ++ (text " below minimum " ++ show_minimum d criteria.min_score))))

  unfoldable pub check_reputation :
      PublicClient → AgentProfile → SiwaVerifyCriteria → Check S (Unit {0})
  check_reputation client agent criteria =
      if is_some criteria.min_score || is_some criteria.min_feedback_count
      then (do
        rep ← reputation_at client agent (given criteria.reputation_registry_address)
        check_minima agent criteria rep)
      else pass tt

  unfoldable pub check_custom :
      AgentProfile → Option (AgentProfile → Result Bool) → Check S (Unit {0})
  unfolding refusal text
  check_custom agent none = pass tt
  check_custom agent (some custom) = do
    passed ← lift (custom agent)
    guard passed (
        refusal f signer (some agent) custom_check_failed
          (text "Agent failed custom criteria check"))

  -- The checks of a profile, in order.
  unfoldable pub check_profile :
      PublicClient → SiwaVerifyCriteria → AgentProfile → Check S (Unit {0})
  check_profile client criteria agent = do
    check_active criteria.must_be_active agent
    check_required_services agent (or_empty criteria.required_services)
    check_trust agent (or_empty criteria.required_trust)
    check_reputation client agent criteria
    check_custom agent criteria.custom

  -- All criteria, and the profile that they were checked on.
  unfoldable pub meets_criteria : PublicClient → Str → SiwaVerifyCriteria → Check S AgentProfile
  meets_criteria client registry criteria = do
    check_signer_type criteria.allowed_signer_types
    agent ← lift (get_agent client f.agent_id registry)
    check_profile client criteria agent
    pass agent
