-- ===== src/Verify/Criteria/Reputation.antt =====
-- What the reputation of an agent has to be: packages/siwa/src/siwa.ts.
use siwa.Base.{
  ℕ, Bool, true, false, ◌||◌, Option, none, some, is_some, ◌≡◌, refl, if◌then◌else◌, subst, arith,
  ok, Result-cases, inl, inr, ◌⊎◌,
}
use siwa.Base.Doubles.{Double, Doubles}
use siwa.Base.Str.{Str}
use siwa.Message.{SiwaMessageFields, given}
use siwa.Receipt.{SignerType}
use siwa.Base.Int.{ℤ, pos}
use siwa.Registry.{big_int, PublicClient, ReputationSummary, get_reputation}
use siwa.Response.{AgentProfile}
use siwa.Verify.Flow.{proceeds, lift, pass, ◌>>=◌}
use siwa.Verify.Keeps.{>>=-proceeds, lift-proceeds}
use siwa.Verify.Criteria.{
  SiwaVerifyCriteria, below_minimum, reputation_at, check_minima, check_reputation,
}

abbrev pub Reaches : Doubles → Double → Option Double → Type 0
Reaches d value none = Unit
Reaches d value (some minimum) = d.less value minimum ≡ false

-- With a minimum the summary was read for the message's agent from the registry of the criteria; neither
-- its count nor its value, divided by ten to the power of its decimals, is below the minimum for it.
abbrev pub HasReputation : Doubles → PublicClient → SiwaMessageFields → SiwaVerifyCriteria → Type 0
HasReputation d client f c =
    ((c.min_score ≡ none) × (c.min_feedback_count ≡ none))
    ⊎ ((at_address : Str) × (id : ℤ) × (count : ℕ) × (value : ℤ) × (decimals : ℕ) × (given
            c.reputation_registry_address
          ≡ some at_address)
        × (big_int f.agent_id ≡ ok id)
        × (client.get_summary at_address id ≡ ok (count, value, decimals))
        × Reaches d (d.number (pos count)) c.min_feedback_count
        × Reaches d (d.divide (d.number value) (d.power_of_10 decimals)) c.min_score)

below_minimum-false :
    (d : Doubles) (value : Double) (minimum : Option Double)
    → below_minimum d value minimum ≡ false
    → Reaches d value minimum
unfolding below_minimum
below_minimum-false d value none e = tt
below_minimum-false d value (some minimum) e = e

get_reputation-ok :
    (d : Doubles) (f : SiwaMessageFields) (client : PublicClient) (at_address : Str)
    (rep : ReputationSummary)
    → get_reputation d client f.agent_id at_address ≡ ok rep
    → (id : ℤ) × (count : ℕ) × (value : ℤ) × (decimals : ℕ) × (big_int f.agent_id ≡ ok id)
      × (client.get_summary at_address id ≡ ok (count, value, decimals))
      × (rep.count ≡ d.number (pos count))
      × (rep.score ≡ d.divide (d.number value) (d.power_of_10 decimals))
unfolding get_reputation
get_reputation-ok d f client at_address rep e = elim (Result-cases (big_int f.agent_id)) [
  | inr (m, thrown) ↦ absurd (ground arith)
  | inl (id, numbered) ↦ elim (Result-cases (client.get_summary at_address id)) [
    | inr (m, thrown) ↦ absurd (ground arith)
    | inl ((count, value, decimals), read) ↦
        (id, count, value, decimals, numbered, read, ground arith, ground arith)
  ]
]

module _ {S : Type 0} (d : Doubles) (f : SiwaMessageFields) (signer : SignerType)
    (agent : AgentProfile) where
  check_minima-proceeds :
      (c : SiwaVerifyCriteria) (rep : ReputationSummary) (s : S) {s' : S} {u : Unit {0}}
      → check_minima d f signer agent c rep s ≡ (s', proceeds u)
      → Reaches d rep.count c.min_feedback_count × Reaches d rep.score c.min_score
  unfolding check_minima
  check_minima-proceeds c rep s {s'} {u} e = (
    below_minimum-false d rep.count c.min_feedback_count (ground arith),
    below_minimum-false d rep.score c.min_score (ground arith),
  )

  read_reputation-proceeds :
      (client : PublicClient) (c : SiwaVerifyCriteria) (at_address : Str) (s : S) {s' : S}
      {u : Unit {0}}
      → given c.reputation_registry_address ≡ some at_address
      → (lift (get_reputation d client f.agent_id at_address) >>= check_minima d f signer agent c) s
        ≡ (s', proceeds u)
      → HasReputation d client f c
  read_reputation-proceeds client c at_address s {s'} {u} given_at e =
      let (rep, t, read, e₁) =
        >>=-proceeds (lift (get_reputation d client f.agent_id at_address)) _ s e in
      let (id, count, value, decimals, numbered, summary, same_count, same_score) =
        get_reputation-ok d f client at_address rep
          (lift-proceeds (get_reputation d client f.agent_id at_address) s read).0 in
      let (enough, high) = check_minima-proceeds c rep t e₁ in
      inr (
        at_address,
        id,
        count,
        value,
        decimals,
        given_at,
        numbered,
        summary,
        subst (λ x. Reaches d x c.min_feedback_count) same_count enough,
        subst (λ x. Reaches d x c.min_score) same_score high,
      )

  reputation_at-proceeds :
      (client : PublicClient) (c : SiwaVerifyCriteria) (o : Option Str) (s : S) {s' : S}
      {u : Unit {0}}
      → given c.reputation_registry_address ≡ o
      → (reputation_at d f signer client agent o >>= check_minima d f signer agent c) s
        ≡ (s', proceeds u)
      → HasReputation d client f c
  unfolding reputation_at
  reputation_at-proceeds client c none s missing e = absurd (cc)
  reputation_at-proceeds client c (some at_address) s {s'} {u} given_at e =
      read_reputation-proceeds client c at_address s {s' = s'} {u = u} given_at e

  required-proceeds :
      (client : PublicClient) (c : SiwaVerifyCriteria) (required : Bool) (s : S) {s' : S}
      {u : Unit {0}}
      → (is_some c.min_score || is_some c.min_feedback_count) ≡ required
      → (if required
            then reputation_at d f signer client agent (given c.reputation_registry_address)
              >>= check_minima d f signer agent c
            else pass tt)
          s
        ≡ (s', proceeds u)
      → HasReputation d client f c
  required-proceeds client c true s {s'} {u} required e =
      reputation_at-proceeds client c (given c.reputation_registry_address) s {s' = s'} {u = u} refl
        e
  required-proceeds client c false s free e = inl (ground arith, ground arith)

  pub check_reputation-proceeds :
      (client : PublicClient) (c : SiwaVerifyCriteria) (s : S) {s' : S} {u : Unit {0}}
      → check_reputation d f signer client agent c s ≡ (s', proceeds u)
      → HasReputation d client f c
  unfolding check_reputation
  check_reputation-proceeds client c s {s'} {u} e =
      required-proceeds client c (is_some c.min_score || is_some c.min_feedback_count) s {s' = s'}
        {u = u} refl e
