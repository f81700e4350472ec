-- ===== src/Issue/Granted.antt =====
-- To whom a nonce is issued, and that its token is accepted.
use siwa.Base.{
  ℕ, ◌+◌, not, Option, some, or_else, Result, ok, throws, ◌≡◌, refl, arith, ap, ap₂, sym, ltb,
}
use siwa.Base.Int.{Number}
use siwa.Base.Json.{Json, get, str}
use siwa.Base.Str.{Str, split}
use siwa.Base.Str.Laws.{eq_of_str_eq}
use siwa.Erc8128.Steps.{Exit, goes, returns, raises, >>=-goes}
use siwa.Message.{SiwaMessageFields, given}
use siwa.Registry.{PublicClient, big_int}
use siwa.Runtime.{Runtime, Laws}
use siwa.Token.{sign_nonce_token, verify_nonce_token}
use siwa.Token.Soundness.{checked_data-sign}
use siwa.Verify.{stateless, nonce_ok}
use siwa.Verify.Flow.{bind_result, proceeds}
use siwa.Verify.Stateless.{nonce_ok-stateless}
use siwa.Issue.{
  SiwaNonceParams, SiwaNonceOptions, NonceIssued, NonceRefused, nonce_issued, registry_parts,
  Sources, nonce_registry, nonce_owner, nonce_captcha, tracked, new_nonce, issued_nonce,
  nonce_payload, nonce_creation, nonce_result, create_siwa_nonce, token_for,
}

module _ (r : Runtime) {S : Type 0} (sources : Sources S) (client : PublicClient)
    (params : SiwaNonceParams) (options : SiwaNonceOptions S) where
  -- The parameters name a registry on which the address owns the agent.
  pub record IsEntitled (registry : Str) : Type 0 where
    pub chain_id : Number
    pub owner : Str
    pub known : registry_parts (split b':' params.agent_registry) ≡ some (chain_id, registry)
    pub owned : bind_result (big_int params.agent_id) (client.owner_of registry) ≡ ok owner
    pub same_owner : r.to_lower owner ≡ r.to_lower params.address

  nonce_registry-goes :
      (o : Option (Number × Str)) (s : S) {s' : S} {p : Number × Str}
      → nonce_registry r sources client params options o s ≡ (s', goes p)
      → o ≡ some p
  unfolding nonce_registry
  nonce_registry-goes o s e = ground arith

  nonce_owner-goes :
      (chain_id : Number) (o : Result Str) (s : S) {s' : S} {u : Unit {0}}
      → nonce_owner r sources client params options chain_id o s ≡ (s', goes u)
      → (owner : Str) × (o ≡ ok owner) × (r.to_lower owner ≡ r.to_lower params.address)
  unfolding nonce_owner
  nonce_owner-goes chain_id (throws m) s e = absurd (cc)
  nonce_owner-goes chain_id (ok owner) s e =
      (owner, refl, eq_of_str_eq (r.to_lower owner) (r.to_lower params.address) (ground arith))

  new_nonce-goes :
      (now ttl : ℕ) (o : S × Str) {s' : S} {issued : NonceIssued}
      → new_nonce r sources client params options now ttl o ≡ (s', goes issued)
      → (nonce : Str) × (issued ≡ issued_nonce r sources client params options now nonce ttl)
  unfolding new_nonce
  new_nonce-goes now ttl (s, nonce) e =
      let (u, t, kept, e₁) =
        >>=-goes (tracked r sources client params options options.nonce_store nonce ttl) _ s e in
      (nonce, ground (arith, e₁))

  nonce_creation-goes :
      (now : ℕ) (s : S) {s' : S} {issued : NonceIssued}
      → nonce_creation r sources client params options now s ≡ (s', goes issued)
      → (registry : Str) × IsEntitled registry
        × (nonce : Str) × (issued
            ≡ issued_nonce r sources client params options now nonce
                (or_else options.expiration_ttl 300000))
  unfolding nonce_creation
  nonce_creation-goes now s {s'} {issued} e =
      let ttl : ℕ = or_else options.expiration_ttl 300000 in
      let ((chain_id, registry), t, known, e₁) =
        >>=-goes
          (nonce_registry r sources client params options
            (registry_parts (split b':' params.agent_registry)))
          _ s e in
      let (u, t₁, owned, e₂) =
        >>=-goes
          (nonce_owner r sources client params options chain_id
            (bind_result (big_int params.agent_id) (client.owner_of registry)))
          _ t e₁ in
      let (v, t₂, captcha, e₃) =
        >>=-goes (nonce_captcha r sources client params options now chain_id options.captcha_policy)
          _ t₁ e₂ in
      let (owner, found, same) = nonce_owner-goes chain_id _ t owned in
      let (nonce, made) = new_nonce-goes now ttl (sources.generate_nonce t₂) e₃ in
      (
        registry,
        record {
          chain_id = chain_id;
          owner = owner;
          known = nonce_registry-goes _ s known;
          owned = found;
          same_owner = same;
        },
        nonce,
        made,
      )

  nonce_result-issued :
      (s' : S) (issued : NonceIssued) (o : S × Exit NonceRefused NonceIssued)
      → nonce_result r sources client params options o ≡ (s', ok (nonce_issued issued))
      → o ≡ (s', goes issued)
  unfolding nonce_result
  nonce_result-issued s' issued (t, goes a) e =
      let same_t : t ≡ s' = ground arith in
      let same_a : a ≡ issued = ground arith in ap₂ (λ x y. (x, goes y)) same_t same_a
  nonce_result-issued s' issued (t, returns x) e = absurd (cc)
  nonce_result-issued s' issued (t, raises x) e = absurd (cc)

  -- A nonce is issued only for a registry in the right form on which the given address owns the agent,
  -- up to case; what is returned holds the nonce with its times and, under a secret, its token.
  pub create_siwa_nonce-IsEntitled :
      (now : ℕ) (s s' : S) (issued : NonceIssued)
      → create_siwa_nonce r sources client params options now s ≡ (s', ok (nonce_issued issued))
      → (registry : Str) × IsEntitled registry
        × (nonce : Str) × (issued
            ≡ issued_nonce r sources client params options now nonce
                (or_else options.expiration_ttl 300000))
  unfolding create_siwa_nonce
  create_siwa_nonce-IsEntitled now s s' issued e =
      nonce_creation-goes now s
        (nonce_result-issued s' issued (nonce_creation r sources client params options now s) e)

  verify_nonce_token-sign_nonce_token :
      Laws r
      → (v : Json) (secret : Str) → r.decode (r.encode v) ≡ ok v
      → verify_nonce_token r (sign_nonce_token r v secret) secret ≡ ok (some v)
  unfolding verify_nonce_token sign_nonce_token
  verify_nonce_token-sign_nonce_token laws v secret read =
      rw (checked_data-sign r laws secret v, read) refl

  -- The token of an issued nonce, whose payload JSON reads back, lets `verifySIWA`'s nonce check pass
  -- for a message with that nonce and address exactly until the nonce expires.
  pub nonce_ok-issued_nonce :
      {T : Type 0} (laws : Laws r) (now ttl later : ℕ) (nonce secret : Str) (f : SiwaMessageFields)
      (s : T)
      → let payload = nonce_payload r sources client params options nonce now (now + ttl) in
        r.decode (r.encode payload) ≡ ok payload
        → given options.secret ≡ some secret
        → f.nonce ≡ nonce
        → f.address ≡ params.address
        → (token : Str) × ((issued_nonce r sources client params options now nonce ttl).nonce_token
            ≡ some token)
          × (nonce_ok r (stateless token secret) later f s
              ≡ (s, proceeds (not (ltb (now + ttl) later))))
  unfolding issued_nonce nonce_payload get
  nonce_ok-issued_nonce laws now ttl later nonce secret f s read kept same_nonce same_address =
      let payload = nonce_payload r sources client params options nonce now (now + ttl) in
      (
        sign_nonce_token r payload secret,
        ap (λ o. token_for r sources client params options o payload) kept,
        nonce_ok-stateless r (sign_nonce_token r payload secret) secret later (now + ttl) f _ s
            (verify_nonce_token-sign_nonce_token laws payload secret read) refl
            (ap (λ x. some (str x)) (sym same_nonce)) (ap (λ x. some (str x)) (sym same_address)),
      )
