-- ===== src/Verify/Criteria/Meaning.antt =====
-- What it means that the criteria are met.
use siwa.Base.{
  Bool, true, ◌||◌, not, Option, none, some, List, [], ◌∷◌, any, All, ◌≡◌, subst, arith, Result, ok,
  Result-cases, inl, inr,
}
use siwa.Base.Doubles.{Doubles}
use siwa.Base.Json.{Json}
use siwa.Base.Str.{Str}
use siwa.Message.{SiwaMessageFields}
use siwa.Receipt.{SignerType}
use siwa.Registry.{PublicClient, get_agent}
use siwa.Response.{AgentProfile}
use siwa.Verify.Flow.{proceeds, lift}
use siwa.Verify.Keeps.{>>=-proceeds, guard-proceeds, lift-proceeds, pass-proceeds}
use siwa.Verify.Criteria.{
  SiwaVerifyCriteria, truthy, signer_allowed, is_text, supports, service_names, metadata_field,
  or_empty, check_signer_type, check_active, check_services, check_required_services, check_trust,
  check_reputation, check_custom, check_profile, meets_criteria,
}
use siwa.Verify.Criteria.Reputation.{HasReputation, check_reputation-proceeds}

-- Every required service is one of the names in the metadata.
abbrev pub HasServices : Option Json → List Str → Type 0
HasServices services [] = Unit
HasServices services (a ∷ rest) =
    (known : List (Option Json)) × (service_names services ≡ ok known)
    × All (λ q. any (is_text q) known ≡ true) (a ∷ rest)

abbrev pub Passes : Option (AgentProfile → Result Bool) → AgentProfile → Type 0
Passes none agent = Unit
Passes (some custom) agent = custom agent ≡ ok true

pub record IsAcceptable (d : Doubles) (client : PublicClient) (f : SiwaMessageFields)
    (registry : Str) (signer : SignerType) (c : SiwaVerifyCriteria) (agent : AgentProfile)
    : Type 0 where
  pub signer_type : signer_allowed c.allowed_signer_types signer ≡ true
  pub fetched : get_agent client f.agent_id registry ≡ ok agent
  pub active : (not c.must_be_active || truthy (metadata_field agent "active")) ≡ true
  pub services : HasServices (metadata_field agent "services") (or_empty c.required_services)
  pub trust :
      All
        (λ q. supports (metadata_field agent "supportedTrust") q ≡ ok true)
        (or_empty c.required_trust)
  pub reputation : HasReputation d client f c
  pub custom : Passes c.custom agent

module _ {S : Type 0} (d : Doubles) (f : SiwaMessageFields) (signer : SignerType)
    (agent : AgentProfile) where
  check_services-proceeds :
      (known : List (Option Json)) (required : List Str) (s : S) {s' : S} {u : Unit {0}}
      → check_services d f signer agent known required s ≡ (s', proceeds u)
      → All (λ q. any (is_text q) known ≡ true) required
  unfolding check_services
  check_services-proceeds known [] s e = tt
  check_services-proceeds known (a ∷ rest) s {s'} {u} e =
      ground (arith, check_services-proceeds known rest s {s' = s'} {u = u})

  check_required_services-proceeds :
      (required : List Str) (s : S) {s' : S} {u : Unit {0}}
      → check_required_services d f signer agent required s ≡ (s', proceeds u)
      → HasServices (metadata_field agent "services") required
  unfolding check_required_services
  check_required_services-proceeds [] s e = tt
  check_required_services-proceeds (a ∷ rest) s {s'} {u} e =
      elim (Result-cases (service_names (metadata_field agent "services"))) [
        | inl (known, read) ↦ (
          known,
          read,
          check_services-proceeds known (a ∷ rest) s {s' = s'} {u = u} (ground arith),
        )
        | inr (m, thrown) ↦ absurd (ground arith)
      ]

  check_trust-proceeds :
      (required : List Str) (s : S) {s' : S} {u : Unit {0}}
      → check_trust d f signer agent required s ≡ (s', proceeds u)
      → All (λ q. supports (metadata_field agent "supportedTrust") q ≡ ok true) required
  unfolding check_trust
  check_trust-proceeds [] s e = tt
  check_trust-proceeds (a ∷ rest) s {s'} {u} e =
      ground (arith, check_trust-proceeds rest s {s' = s'} {u = u})

  check_custom-proceeds :
      (custom : Option (AgentProfile → Result Bool)) (s : S) {s' : S} {u : Unit {0}}
      → check_custom d f signer agent custom s ≡ (s', proceeds u)
      → Passes custom agent
  unfolding check_custom
  check_custom-proceeds none s e = tt
  check_custom-proceeds (some custom) s e = ground arith

module _ {S : Type 0} (d : Doubles) (f : SiwaMessageFields) (signer : SignerType) where
  -- The criteria are met only by a profile that was fetched from the registry, and only if each one that
  -- is set is passed: the signer's type, activity, the required services and trust models, the caller's
  -- own check, and, in the arithmetic of doubles, the minima of the feedback count and of the score,
  -- which is the summary's value divided by ten to the power of its decimals.
  pub meets_criteria-proceeds :
      (client : PublicClient) (registry : Str) (c : SiwaVerifyCriteria) (s : S) {s' : S}
      {agent : AgentProfile}
      → meets_criteria d f signer client registry c s ≡ (s', proceeds agent)
      → IsAcceptable d client f registry signer c agent
  unfolding meets_criteria check_profile check_signer_type check_active
  meets_criteria-proceeds client registry c s {s'} {agent} e =
      let (u, t, allowed, e₁) =
        >>=-proceeds (check_signer_type d f signer c.allowed_signer_types) _ s e in
      let (a, t₁, fetched, e₂) =
        >>=-proceeds (lift (get_agent client f.agent_id registry)) _ t e₁ in
      let (v, t₂, profile, e₃) = >>=-proceeds (check_profile d f signer client c a) _ t₁ e₂ in
      let (w, p, active, e₄) =
        >>=-proceeds (check_active d f signer c.must_be_active a) _ t₁ profile in
      let (w₁, p₁, services, e₅) =
        >>=-proceeds (check_required_services d f signer a (or_empty c.required_services)) _ p e₄ in
      let (w₂, p₂, trust, e₆) =
        >>=-proceeds (check_trust d f signer a (or_empty c.required_trust)) _ p₁ e₅ in
      let (w₃, p₃, reputation, custom) =
        >>=-proceeds (check_reputation d f signer client a c) _ p₂ e₆ in
      subst (IsAcceptable d client f registry signer c) (pass-proceeds a t₂ e₃).0 (record {
        signer_type = (guard-proceeds (signer_allowed c.allowed_signer_types signer) _ s allowed).0;
        fetched = (lift-proceeds (get_agent client f.agent_id registry) t fetched).0;
        active =
            (guard-proceeds (not c.must_be_active || truthy (metadata_field a "active")) _ t₁
              active).0;
        services =
            check_required_services-proceeds d f signer a (or_empty c.required_services) p services;
        trust = check_trust-proceeds d f signer a (or_empty c.required_trust) p₁ trust;
        reputation = check_reputation-proceeds d f signer a client c p₂ reputation;
        custom = check_custom-proceeds d f signer a c.custom p₃ custom;
      })
