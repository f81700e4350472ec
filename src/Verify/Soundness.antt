-- ===== src/Verify/Soundness.antt =====
-- What a valid result means, and what a verification does to the nonces.
use siwa.Base.{ℕ, true, Option, ok, ◌≡◌, refl, ap, ap₂, subst, sym, ◌∙◌}
use siwa.Base.Str.{Str, str_eq}
use siwa.Base.Str.Laws.{eq_of_str_eq}
use siwa.Message.{SiwaMessageFields, parse_siwa_message}
use siwa.Receipt.{SignerType}
use siwa.Registry.{PublicClient}
use siwa.Response.{SiwaVerificationResult, AgentProfile}
use siwa.Runtime.{Runtime}
use siwa.Verify.Criteria.{SiwaVerifyCriteria}
use siwa.Verify.Flow.{Outcome, proceeds, fails, raises, Failure, lift, refused}
use siwa.Verify.Keeps.{>>=-proceeds, guard-proceeds, lift-proceeds, pass-proceeds}
use siwa.Verify.Inversion.{
  check_signature-proceeds, check_nonce-proceeds, IsRegistered, check_registration-proceeds,
}
use siwa.Verify.{
  NonceValidator, check_signature, check_domain, check_nonce, nonce_ok, check_identity,
  check_registration, check_criteria, base_result, verification, caught, thrown, verify_siwa,
}

-- The message parses, its address signed it, and it is for this domain.
pub record IsIdentified (client : PublicClient) (message signature expected : Str)
    (f : SiwaMessageFields) : Type 0 where
  pub parsed : parse_siwa_message message ≡ ok f
  pub signed : client.verify_message f.address message signature ≡ ok true
  pub domain : f.domain ≡ expected

module _ (r : Runtime) {S : Type 0} (client : PublicClient) (message signature expected : Str) where
  check_domain-proceeds :
      (f : SiwaMessageFields) (s : S) {s' : S} {u : Unit {0}}
      → check_domain r expected f s ≡ (s', proceeds u)
      → (f.domain ≡ expected) × (s ≡ s')
  unfolding check_domain
  check_domain-proceeds f s e =
      let (same, kept) = guard-proceeds (str_eq f.domain expected) _ s e in
      (eq_of_str_eq f.domain expected same, kept)

  pub check_identity-proceeds :
      (s : S) {s' : S} {f : SiwaMessageFields} {signer : SignerType}
      → check_identity r client message signature expected s ≡ (s', proceeds (f, signer))
      → IsIdentified client message signature expected f × (s ≡ s')
  unfolding check_identity
  check_identity-proceeds s {f} e =
      let (g, t, parsed, e₁) = >>=-proceeds (lift (parse_siwa_message message)) _ s e in
      let (signer, t₁, signed, e₂) =
        >>=-proceeds (check_signature r client message signature g) _ t e₁ in
      let (u, t₂, domain, e₃) = >>=-proceeds (check_domain r expected g) _ t₁ e₂ in
      let (reads, same_s) = lift-proceeds (parse_siwa_message message) s parsed in
      let (valid, same_t) = check_signature-proceeds r client g message signature t signed in
      let (bound, same_t₁) = check_domain-proceeds g t₁ domain in
      let (same, same_t₂) = pass-proceeds (g, signer) t₂ e₃ in
      let same_f : g ≡ f = ap (λ x. x.0) same in
      (
        subst (IsIdentified client message signature expected) same_f
            (record { parsed = reads; signed = valid; domain = bound }),
        same_s ∙ same_t ∙ same_t₁ ∙ same_t₂,
      )

  pub record IsVerified (validator : NonceValidator S) (criteria : Option SiwaVerifyCriteria)
      (checked_at now : ℕ) (s : S) (out : S × SiwaVerificationResult) : Type 0 where
    pub fields : SiwaMessageFields
    pub identified : IsIdentified client message signature expected fields
    pub nonce_state : S
    pub final_state : S
    pub nonce : nonce_ok r validator checked_at fields s ≡ (nonce_state, proceeds true)
    pub registry : Str
    pub registered : IsRegistered r client now fields registry
    pub signer : SignerType
    pub agent : Option AgentProfile
    pub criteria_met :
        check_criteria r client fields signer registry criteria nonce_state
        ≡ (final_state, proceeds agent)
    pub claimed : out ≡ (final_state, base_result fields signer agent)

  caught-valid :
      (o : S × Outcome SiwaVerificationResult)
      → (caught r o).1.valid ≡ true
      → (s' : S) × (result : SiwaVerificationResult) × (o ≡ (s', proceeds result))
        × (caught r o ≡ (s', result))
  unfolding caught thrown
  caught-valid (s, proceeds result) e = (s, result, refl, refl)
  caught-valid (s, fails i) e = absurd (refused-invalid i e)
    where
      refused-invalid : (i : Failure) → (refused i).valid ≡ true → ⊥
      refused-invalid i e = cc
  caught-valid (s, raises m) e = absurd (cc)

  -- A result is valid only if the message parses to fields whose address signed it, whose domain is
  -- the expected one, whose nonce the validator accepts, whose time window holds, whose registry is
  -- well formed and names that address as the owner of the agent, and if the criteria pass; the
  -- result claims the identity of those fields.
  pub verify_siwa_sound :
      (validator : NonceValidator S) (criteria : Option SiwaVerifyCriteria) (checked_at now : ℕ)
      (s : S)
      → let out =
          verify_siwa r client message signature expected validator criteria checked_at now s in
        out.1.valid ≡ true → IsVerified validator criteria checked_at now s out
  unfolding verify_siwa verification
  verify_siwa_sound validator criteria checked_at now s e =
      let (s', result, done, same) =
        caught-valid
          (verification r client message signature expected validator criteria checked_at now s)
          e in
      let ((f, signer), t, identity, e₁) =
        >>=-proceeds (check_identity r client message signature expected) _ s done in
      let (u, t₁, nonce, e₂) = >>=-proceeds (check_nonce r validator checked_at f) _ t e₁ in
      let (registry, t₂, registration, e₃) =
        >>=-proceeds (check_registration r client now f) _ t₁ e₂ in
      let (agent, t₃, met, e₄) =
        >>=-proceeds (check_criteria r client f signer registry criteria) _ t₂ e₃ in
      let (identified, same_s) = check_identity-proceeds s identity in
      let (registered, same_t) = check_registration-proceeds r client now f t₁ registration in
      let (claimed, last) = pass-proceeds (base_result f signer agent) t₃ e₄ in
      record {
        fields = f;
        identified = identified;
        nonce_state = t₁;
        final_state = t₃;
        nonce =
            subst (λ x. nonce_ok r validator checked_at f x ≡ (t₁, proceeds true)) (sym same_s)
              (check_nonce-proceeds r client f validator checked_at t nonce);
        registry = registry;
        registered = registered;
        signer = signer;
        agent = agent;
        criteria_met =
            subst (λ x. check_criteria r client f signer registry criteria x ≡ (t₃, proceeds agent))
              (sym same_t) met;
        claimed = same ∙ ap₂ (λ x y. (x, y)) (sym last) (sym claimed);
      }
