-- ===== src/Erc8128/Checks/Soundness.antt =====
-- Which requests are authenticated.
use siwa.Base.{ℕ, true, some, ok, ◌≡◌, arith, ap, ap₂, sym, ◌∙◌, subst}
use siwa.Base.Json.{Json, str, get}
use siwa.Base.Str.{Str}
use siwa.Receipt.{verify_receipt}
use siwa.Runtime.{Runtime}
use siwa.Erc8128.{
  Request, verified, SiwaAgent, Rejection, accepted, VerifyOptions, Libraries, type_allowed,
  given_header,
}
use siwa.Erc8128.Checks.{
  read_receipt, check_type, verifier, check_request, check_address, check_onchain, check_captcha,
  agent_of, authentication, settled, verify_authenticated_request,
}
use siwa.Erc8128.Steps.{Exit, goes, returns, raises, >>=-goes}
use siwa.Erc8128.Checks.Identity.{
  IsOwner, read_receipt-goes, check_type-goes, check_request-goes, check_address-goes, onchain-goes,
}
use siwa.Erc8128.Checks.Challenged.{PassesCaptcha, check_captcha-goes}

module _ (r : Runtime) {S : Type 0} (lib : Libraries S) (options : VerifyOptions S) where
  pub record IsAuthenticated (now : ℕ) (request : Request) (s s' : S) (agent : SiwaAgent)
      : Type 0 where
    pub token : Str
    pub receipt : Json
    pub sent : given_header request.receipt ≡ some token
    pub valid : verify_receipt r now token options.receipt_secret ≡ ok (some receipt)
    pub allowed : type_allowed options.allowed_signer_types (get receipt "signerType") ≡ true
    pub signer : Str
    pub address : Str
    pub nonce_state : S
    pub signed :
        lib.verify_request request (verifier r lib options options.public_client) s
        ≡ (nonce_state, ok (verified signer))
    pub holder : get receipt "address" ≡ some (str address)
    pub same_signer : r.to_lower signer ≡ r.to_lower address
    pub owner : options.verify_onchain ≡ true → IsOwner r lib options receipt address
    pub captcha :
        PassesCaptcha r lib options now request receipt address options.captcha_policy nonce_state
          s'
    pub claimed : agent ≡ agent_of r lib options receipt address

  authentication-goes :
      (now : ℕ) (request : Request) (s : S) {s' : S} {agent : SiwaAgent}
      → authentication r lib options now request s ≡ (s', goes agent)
      → IsAuthenticated now request s s' agent
  unfolding authentication
  authentication-goes now request s {s'} {agent} e =
      let (receipt, t, read, e₁) = >>=-goes (read_receipt r lib options now request) _ s e in
      let (u, t₁, typed, e₂) = >>=-goes (check_type r lib options receipt) _ t e₁ in
      let (signer, t₂, signed, e₃) = >>=-goes (check_request r lib options request) _ t₁ e₂ in
      let (address, t₃, matched, e₄) =
        >>=-goes (check_address r lib options receipt signer) _ t₂ e₃ in
      let (v, t₄, owned, e₅) =
        >>=-goes (check_onchain r lib options receipt address options.verify_onchain) _ t₃ e₄ in
      let (w, t₅, solved, e₆) =
        >>=-goes (check_captcha r lib options now request receipt address options.captcha_policy) _
          t₄ e₅ in
      let (token, sent, valid, same) = read_receipt-goes r lib options now request s read in
      let (allowed, same₁) = check_type-goes r lib options receipt t typed in
      let (holder, same_signer, same₃) =
        check_address-goes r lib options receipt signer t₂ matched in
      let (owner, same₄) =
        onchain-goes r lib options options.verify_onchain receipt address t₃ owned in
      let captcha =
        check_captcha-goes r lib options now request receipt address options.captcha_policy t₄
          solved in
      record {
        token = token;
        receipt = receipt;
        sent = sent;
        valid = valid;
        allowed = allowed;
        signer = signer;
        address = address;
        nonce_state = t₂;
        signed =
            subst
              (λ x.
                lib.verify_request request (verifier r lib options options.public_client) x
                ≡ (t₂, ok (verified signer)))
              (sym (same ∙ same₁)) (check_request-goes r lib options request t₁ signed);
        holder = holder;
        same_signer = same_signer;
        owner = owner;
        captcha =
            subst
              (λ x.
                PassesCaptcha r lib options now request receipt address options.captcha_policy t₂ x)
              (ap (λ p. p.0) e₆)
              (subst
                (λ x.
                  PassesCaptcha r lib options now request receipt address options.captcha_policy x
                    t₅)
                (sym (same₃ ∙ same₄)) captcha);
        claimed = ground (arith, e₆);
      }

  settled-accepted :
      (s' : S) (agent : SiwaAgent) (o : S × Exit Rejection SiwaAgent)
      → settled r lib options o ≡ (s', ok (accepted agent))
      → o ≡ (s', goes agent)
  unfolding settled
  settled-accepted s' agent (t, goes a) e =
      let same_t : t ≡ s' = ground arith in
      let same_a : a ≡ agent = ground arith in ap₂ (λ x y. (x, goes y)) same_t same_a
  settled-accepted s' agent (t, returns x) e = absurd (cc)
  settled-accepted s' agent (t, raises x) e = absurd (cc)

  -- A request is accepted only if its header holds a receipt that is valid under the secret, the
  -- receipt's signer type is allowed, the library verified the request's signature for an address that
  -- is the receipt's up to case, that address owns the receipt's agent where an onchain check is asked
  -- for, and the captcha policy asks for nothing or its challenge was solved; the agent that is returned
  -- is the receipt's.
  pub verify_authenticated_request_sound :
      (now : ℕ) (request : Request) (s s' : S) (agent : SiwaAgent)
      → verify_authenticated_request r lib options now request s ≡ (s', ok (accepted agent))
      → IsAuthenticated now request s s' agent
  unfolding verify_authenticated_request
  verify_authenticated_request_sound now request s s' agent e =
      authentication-goes now request s
        (settled-accepted s' agent (authentication r lib options now request s) e)
