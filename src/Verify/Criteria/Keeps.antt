-- ===== src/Verify/Criteria/Keeps.antt =====
-- The criteria do not touch the nonces.
use siwa.Base.{Bool, Option, none, some, List, [], ◌∷◌, refl, arith, Result, Result-cases, inl, inr}
use siwa.Base.Doubles.{Doubles}
use siwa.Base.Json.{Json}
use siwa.Base.Str.{Str}
use siwa.Message.{SiwaMessageFields}
use siwa.Receipt.{SignerType}
use siwa.Registry.{PublicClient, get_agent}
use siwa.Response.{AgentProfile}
use siwa.Verify.Keeps.{Keeps}
use siwa.Verify.Criteria.{
  SiwaVerifyCriteria, check_signer_type, check_active, check_services, check_required_services,
  check_trust, reputation_at, check_minima, check_reputation, check_custom, meets_criteria,
  service_names, metadata_field, check_profile, or_empty,
}

module _ {S : Type 0} (d : Doubles) (f : SiwaMessageFields) (signer : SignerType) where
  check_services-Keeps :
      (agent : AgentProfile) (known : List (Option Json)) (required : List Str)
      → Keeps {S = S} (check_services d f signer agent known required)
  unfolding check_services
  check_services-Keeps agent known [] s = refl
  check_services-Keeps agent known (a ∷ rest) s =
      ground (arith, check_services-Keeps agent known rest s)

  check_required_services-Keeps :
      (agent : AgentProfile) (required : List Str)
      → Keeps {S = S} (check_required_services d f signer agent required)
  unfolding check_required_services
  check_required_services-Keeps agent [] s = refl
  check_required_services-Keeps agent (a ∷ rest) s =
      elim (Result-cases (service_names (metadata_field agent "services"))) [
        | inl (known, e) ↦ rw e (check_services-Keeps agent known (a ∷ rest) s)
        | inr (m, e) ↦ rw e refl
      ]

  check_trust-Keeps :
      (agent : AgentProfile) (required : List Str)
      → Keeps {S = S} (check_trust d f signer agent required)
  unfolding check_trust
  check_trust-Keeps agent [] s = refl
  check_trust-Keeps agent (a ∷ rest) s = ground (arith, check_trust-Keeps agent rest s)

  check_reputation-Keeps :
      (client : PublicClient) (agent : AgentProfile) (c : SiwaVerifyCriteria)
      → Keeps {S = S} (check_reputation d f signer client agent c)
  unfolding check_reputation check_minima reputation_at
  check_reputation-Keeps client agent c s = ground arith

  check_custom-Keeps :
      (agent : AgentProfile) (custom : Option (AgentProfile → Result Bool))
      → Keeps {S = S} (check_custom d f signer agent custom)
  unfolding check_custom
  check_custom-Keeps agent none s = refl
  check_custom-Keeps agent (some custom) s = ground arith

  check_profile-Keeps :
      (client : PublicClient) (c : SiwaVerifyCriteria) (agent : AgentProfile)
      → Keeps {S = S} (check_profile d f signer client c agent)
  unfolding check_profile check_active
  check_profile-Keeps client c agent s = ground (
    arith,
    check_required_services-Keeps agent (or_empty c.required_services) s,
    check_trust-Keeps agent (or_empty c.required_trust) s,
    check_reputation-Keeps client agent c s,
    check_custom-Keeps agent c.custom s,
  )

  pub meets_criteria-Keeps :
      (client : PublicClient) (registry : Str) (c : SiwaVerifyCriteria)
      → Keeps {S = S} (meets_criteria d f signer client registry c)
  unfolding meets_criteria check_signer_type
  meets_criteria-Keeps client registry c s =
      elim (Result-cases (get_agent client f.agent_id registry)) [
        | inl (agent, e) ↦ ground (arith, check_profile-Keeps client c agent s)
        | inr (m, e) ↦ ground arith
      ]
