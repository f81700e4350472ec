-- ===== src/Verify/Nonces.antt =====
-- What a verification does to the nonces.
use siwa.Base.{
  ℕ, ◌≢◌, List, All, true, false, Option, none, some, Result, ok, ◌≡◌, refl, arith, ap, sym, ◌∙◌,
  subst,
}
use siwa.Base.JsMap.{get}
use siwa.Base.Str.{Str}
use siwa.Message.{SiwaMessageFields, parse_siwa_message}
use siwa.NonceStore.{Nonces, consume, Call, run}
use siwa.NonceStore.Absent.{consume-absent, get-consume, DoesNotIssue, run-absent}
use siwa.Receipt.{SignerType}
use siwa.Registry.{PublicClient}
use siwa.Response.{SiwaVerificationResult}
use siwa.Runtime.{Runtime}
use siwa.Verify.Criteria.{SiwaVerifyCriteria}
use siwa.Verify.Criteria.Keeps.{meets_criteria-Keeps}
use siwa.Verify.Flow.{Outcome, proceeds, fails, raises, Check, refused, bind_outcome}
use siwa.Verify.Keeps.{Keeps, Keeps->>=}
use siwa.Verify.Soundness.{IsIdentified, verify_siwa_sound, check_identity-proceeds}
use siwa.Verify.{
  NonceValidator, nonce_store, nonce_ok, check_criteria, check_identity, check_signature,
  check_domain, verification, caught, thrown, verify_siwa,
}

module _ (r : Runtime) {S : Type 0} (client : PublicClient) where
  check_criteria-Keeps :
      (f : SiwaMessageFields) (signer : SignerType) (registry : Str) (c : Option SiwaVerifyCriteria)
      → Keeps {S = S} (check_criteria r client f signer registry c)
  unfolding check_criteria
  check_criteria-Keeps f signer registry none = λ s. refl
  check_criteria-Keeps f signer registry (some c) =
      Keeps->>= _ _ (meets_criteria-Keeps r.doubles f signer client registry c) (λ agent s. refl)

  check_identity-Keeps :
      (message signature expected : Str)
      → Keeps {S = S} (check_identity r client message signature expected)
  unfolding check_identity check_signature check_domain
  check_identity-Keeps message signature expected s = ground arith

  refused_before :
      (o : S × Outcome (SiwaMessageFields × SignerType)) (s : S)
      (next : SiwaMessageFields × SignerType → Check S SiwaVerificationResult)
      → o.0 ≡ s
      → ((x : SiwaMessageFields × SignerType) → o ≡ (o.0, proceeds x) → ⊥)
      → let out = caught r (bind_outcome o next) in (out.0 ≡ s) × (out.1.valid ≡ false)
  unfolding caught refused thrown
  refused_before (t, proceeds x) s next e h = absurd (h x refl)
  refused_before (t, fails i) s next e h = (e, refl)
  refused_before (t, raises m) s next e h = (e, refl)

  -- A request whose message does not parse, was not signed by its address or is for another domain is
  -- refused, and the nonces stay as they are.
  pub verify_siwa-unidentified :
      (message signature expected : Str) (validator : NonceValidator S)
      (criteria : Option SiwaVerifyCriteria) (checked_at now : ℕ) (s : S)
      → ((f : SiwaMessageFields) → ¬ IsIdentified client message signature expected f)
      → let out =
          verify_siwa r client message signature expected validator criteria checked_at now s in
        (out.0 ≡ s) × (out.1.valid ≡ false)
  unfolding verify_siwa verification
  verify_siwa-unidentified message signature expected validator criteria checked_at now s h =
      refused_before (check_identity r client message signature expected s) s _
        (check_identity-Keeps message signature expected s)
        (λ x e. h x.0 (check_identity-proceeds r client message signature expected s e).0)

-- The store of nonce-store.ts as the validator, with its two readings of the clock.
abbrev pub memory : (cleaned_at consumed_at : ℕ) → NonceValidator Nonces
memory cleaned_at consumed_at =
    nonce_store (λ n m. let (m', b) = consume cleaned_at consumed_at n m in (m', ok b))

ok-inj : (f g : SiwaMessageFields) → ◌≡◌ {A = Result SiwaMessageFields} (ok f) (ok g) → f ≡ g
ok-inj f g e = cc

module _ (r : Runtime) (client : PublicClient) where
  -- What an accepted nonce does to the store.
  memory-accepts :
      (t₁ t₂ checked_at : ℕ) (f : SiwaMessageFields) (m m' : Nonces)
      → nonce_ok r (memory t₁ t₂) checked_at f m ≡ (m', proceeds true)
      → ((consume t₁ t₂ f.nonce m).1 ≡ true) × (get f.nonce m' ≡ none)
  unfolding nonce_ok
  memory-accepts t₁ t₂ checked_at f m m' e =
      let accepted : (consume t₁ t₂ f.nonce m).1 ≡ true = ground arith in
      (accepted, subst (λ x. get f.nonce x ≡ none) (ap (λ p. p.0) e) (get-consume t₁ t₂ f.nonce m))

  -- With the in-memory store, a message whose verification gave a valid result is not valid again, by
  -- any signature, at any time and under any criteria and client, as long as no call in between issues
  -- its nonce anew.
  pub verify_siwa-replay :
      (later_client : PublicClient) (message signature again expected other : Str)
      (t₁ t₂ checked_at now u₁ u₂ rechecked_at later : ℕ)
      (criteria recriteria : Option SiwaVerifyCriteria) (m : Nonces) (f : SiwaMessageFields)
      (calls : List Call)
      → parse_siwa_message message ≡ ok f
      → All (DoesNotIssue f.nonce) calls
      → let first =
          verify_siwa r client message signature expected
            (memory t₁ t₂)
            criteria
            checked_at
            now
            m in
        first.1.valid ≡ true
        → (verify_siwa r later_client message again other
            (memory u₁ u₂)
            recriteria
            rechecked_at
            later
            (run first.0 calls)).1.valid
          ≢ true
  verify_siwa-replay later_client message signature again expected other t₁ t₂ checked_at now u₁ u₂
        rechecked_at later criteria recriteria m f calls parsed quiet valid replayed =
      let after : Nonces =
        run
          (verify_siwa r client message signature expected (memory t₁ t₂) criteria checked_at now
            m).0
          calls in
      let a =
        verify_siwa_sound r client message signature expected (memory t₁ t₂) criteria checked_at now
          m valid in
      let b =
        verify_siwa_sound r later_client message again other (memory u₁ u₂) recriteria rechecked_at
          later _ replayed in
      refuted a.nonce_state a.final_state
        (subst (λ g. nonce_ok r (memory t₁ t₂) checked_at g m ≡ (a.nonce_state, proceeds true))
          (ok-inj a.fields f (sym a.identified.parsed ∙ parsed)) a.nonce)
        (sym (ap (λ o. o.0) a.criteria_met)
          ∙ check_criteria-Keeps r client a.fields a.signer a.registry criteria a.nonce_state)
        (ap (λ o. o.0) a.claimed)
        (subst
          (λ g. nonce_ok r (memory u₁ u₂) rechecked_at g after ≡ (b.nonce_state, proceeds true))
          (ok-inj b.fields f (sym b.identified.parsed ∙ parsed)) b.nonce)
    where
      refuted :
          (left final : Nonces) {m₁ m₂ : Nonces}
          → nonce_ok r (memory t₁ t₂) checked_at f m ≡ (left, proceeds true)
          → final ≡ left
          → m₁ ≡ final
          → nonce_ok r (memory u₁ u₂) rechecked_at f (run m₁ calls) ≡ (m₂, proceeds true)
          → ⊥
      refuted left final e same first e' =
          let gone = (memory-accepts t₁ t₂ checked_at f m left e).1 in
          let absent =
            run-absent f.nonce calls _ quiet
              (subst (λ x. get f.nonce x ≡ none) (sym (first ∙ same)) gone) in
          let refused = consume-absent u₁ u₂ f.nonce _ absent in
          let accepted = (memory-accepts u₁ u₂ rechecked_at f _ _ e').0 in cc
