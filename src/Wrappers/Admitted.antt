-- ===== src/Wrappers/Admitted.antt =====
-- What it takes for a wrapper to call the handler: packages/siwa/src/server-side-wrappers.
use siwa.Base.{ℕ, Bool, true, false, Option, none, some, ok, ◌≡◌, arith, ap, sym, subst, ◌∙◌}
use siwa.Base.Str.{Str}
use siwa.Runtime.{Runtime}
use siwa.Payments.{Payment}
use siwa.Erc8128.{
  Request, SiwaAgent, refused, captcha_required, AuthResult, accepted, rejected, VerifyOptions,
  Libraries,
}
use siwa.Erc8128.Checks.{verify_authenticated_request}
use siwa.Erc8128.Steps.{goes, Step, ◌>>=◌, ◌>>◌, lift, pass, require, >>=-goes}
use siwa.Wrappers.{
  WebRequest, Answer, Exchange, Headers, on_world, try_catch, set_header, failure_answer,
  has_siwa_headers, payment_gate,
}
use siwa.Wrappers.Frameworks.{
  SiwaOptions, Admission, missing_headers, agent_or_challenge, agent_or_error, secret_of,
  all_options, options_without_captcha, options_without_client, express_auth, express_middleware,
  fastify_auth, fastify_handler, with_siwa, late_header, next_auth,
}
use siwa.Wrappers.Charged.{IsCharged, on_world-goes, try_catch-goes, lift-goes}
use siwa.Wrappers.Gate.{gate-goes}

module _ {S : Type 0} where
  challenge-goes :
      (result : AuthResult) (x y : Exchange S) (agent : SiwaAgent)
      → agent_or_challenge result x ≡ (y, goes agent)
      → (result ≡ accepted agent) × (x ≡ y)
  unfolding agent_or_challenge set_header
  challenge-goes (accepted a) x y agent h = (ground arith, ground arith)
  challenge-goes (rejected (refused m)) x y agent h = absurd (cc)
  challenge-goes (rejected (captcha_required c t)) x y agent h = absurd (cc)

  error-goes :
      (result : AuthResult) (x y : Exchange S) (agent : SiwaAgent)
      → agent_or_error result x ≡ (y, goes agent)
      → (result ≡ accepted agent) × (x ≡ y)
  unfolding agent_or_error
  error-goes (accepted a) x y agent h = (ground arith, ground arith)
  error-goes (rejected rejection) x y agent h = absurd (cc)

module _ (r : Runtime) {S : Type 0} (lib : Libraries S) (codec : Headers) (now : ℕ)
    (options : SiwaOptions S) (req : WebRequest) where
  -- The agent comes out of a verification with these options, in the state of `x`.
  pub record IsVerified (verify : Str → VerifyOptions S) (agent : SiwaAgent) (x y : Exchange S)
      : Type 0 where
    pub secret : Str
    pub fetch_req : Request
    pub resolved : secret_of options ≡ ok secret
    pub converted : req.converted ≡ ok fetch_req
    pub authenticated :
        verify_authenticated_request r lib (verify secret) now fetch_req x.world
        ≡ (y.world, ok (accepted agent))

  -- From the state that the verification leaves, the payment gate leads to that of `y`.
  pub record IsAdmitted (verify : Str → VerifyOptions S) (agent : SiwaAgent)
      (payment : Option (Payment × Option Str)) (x y : Exchange S) : Type 0 where
    pub between : Exchange S
    pub verified : IsVerified verify agent x between
    pub charged : IsCharged r codec now options.x402 req agent payment between.world y.world

  -- What the first three steps of each wrapper give.
  auth-goes :
      (verify : Str → VerifyOptions S) (judge : AuthResult → Step (Exchange S) Answer SiwaAgent)
      (x y : Exchange S) (agent : SiwaAgent)
      → ((result : AuthResult) (x' y' : Exchange S)
          → judge result x' ≡ (y', goes agent)
          → (result ≡ accepted agent) × (x' ≡ y'))
      → (do
        secret ← lift (secret_of options)
        fetch_req ← lift req.converted
        result ← on_world (verify_authenticated_request r lib (verify secret) now fetch_req)
        judge result)
          x
        ≡ (y, goes agent)
      → IsVerified verify agent x y
  auth-goes verify judge x y agent judged h =
      let (secret, x₁, resolving, h₁) = >>=-goes (lift (secret_of options)) _ x h in
      let (fetch_req, x₂, converting, h₂) = >>=-goes (lift req.converted) _ x₁ h₁ in
      let (result, x₃, verifying, h₃) =
        >>=-goes (on_world (verify_authenticated_request r lib (verify secret) now fetch_req)) _ x₂
          h₂ in
      let (resolved, same₁) = lift-goes (secret_of options) x x₁ secret resolving in
      let (converted, same₂) = lift-goes req.converted x₁ x₂ fetch_req converting in
      let verified = on_world-goes _ x₂ x₃ result verifying in
      let (accepting, same₃) = judged result x₃ y h₃ in
      record {
        secret = secret;
        fetch_req = fetch_req;
        resolved = resolved;
        converted = converted;
        authenticated =
            ap (λ z. verify_authenticated_request r lib (verify secret) now fetch_req z.world)
              (sym (same₂ ∙ same₁))
            ∙ (verified
                ∙ (ap (λ a. (x₃.world, ok a)) accepting
                    ∙ ap (λ z. (z.world, ok (accepted agent))) same₃));
      }

  require-goes :
      (b : Bool) (answer : Answer) (x y : Exchange S) (u : Unit {0})
      → require b answer x ≡ (y, goes u)
      → y ≡ x
  require-goes true answer x y u h = ground arith
  require-goes false answer x y u h = absurd (cc)

  same_charge :
      (x y y' : Exchange S) (a a' : SiwaAgent) (p p' : Option (Payment × Option Str))
      → a ≡ a'
      → p ≡ p'
      → y ≡ y'
      → IsCharged r codec now options.x402 req a p x.world y.world
      → IsCharged r codec now options.x402 req a' p' x.world y'.world
  same_charge x y y' a a' p p' same_agent same_payment same_end charged =
      subst (λ z. IsCharged r codec now options.x402 req a' p' x.world z.world) same_end
        (subst (λ q. IsCharged r codec now options.x402 req a' q x.world y.world) same_payment
          (subst (λ b. IsCharged r codec now options.x402 req b p x.world y.world) same_agent
            charged))

  abbrev guarded : Step (Exchange S) Answer SiwaAgent → Step (Exchange S) Answer Admission
  guarded auth = do
    require (has_siwa_headers req) missing_headers
    agent ← try_catch auth (failure_answer 401 "ERC-8128 auth failed: ")
    payment ← payment_gate r codec now true options.x402 req agent
    pass (agent, payment)

  -- What Express, Fastify and Hono do around their verification.
  guarded-goes :
      (verify : Str → VerifyOptions S) (auth : Step (Exchange S) Answer SiwaAgent)
      (x y : Exchange S) (agent : SiwaAgent) (payment : Option (Payment × Option Str))
      → ((x' y' : Exchange S) → auth x' ≡ (y', goes agent) → IsVerified verify agent x' y')
      → guarded auth x ≡ (y, goes (agent, payment))
      → IsAdmitted verify agent payment x y
  guarded-goes verify auth x y agent payment verified h =
      let (u, x₁, present, h₁) = >>=-goes (require (has_siwa_headers req) missing_headers) _ x h in
      let (agent', x₂, trying, h₂) =
        >>=-goes (try_catch auth (failure_answer 401 "ERC-8128 auth failed: ")) _ x₁ h₁ in
      let (payment', x₃, gating, h₃) =
        >>=-goes (payment_gate r codec now true options.x402 req agent') _ x₂ h₂ in
      let same : x₁ ≡ x = require-goes (has_siwa_headers req) missing_headers x x₁ u present in
      let same_agent : agent' ≡ agent = ground arith in
      let same_payment : payment' ≡ payment = ground arith in
      let same_end : x₃ ≡ y = ground arith in
      let charged = gate-goes r codec now true options.x402 req agent' x₂ x₃ payment' gating in
      let authenticated =
        try_catch-goes auth (failure_answer 401 "ERC-8128 auth failed: ") x₁ x₂ agent' trying in
      record {
        between = x₂;
        verified =
            subst (λ z. IsVerified verify agent z x₂) same
              (verified x₁ x₂ (authenticated ∙ ap (λ a. (x₂, goes a)) same_agent));
        charged =
            same_charge x₂ x₃ y agent' agent payment' payment same_agent same_payment same_end
              charged;
      }

  -- The Express middleware calls the handler only for an agent that the verification of the request with
  -- the caller's options has accepted; where a payment is asked for, then, in the state that the
  -- verification leaves, either the look-up finds a session of the agent for the resource and nothing is
  -- paid, or it finds none, and behind it the payment of the request was verified and settled, its
  -- session was stored where sessions are kept, and the payment is given to the handler.
  pub express_middleware_sound :
      (x y : Exchange S) (agent : SiwaAgent) (payment : Option (Payment × Option Str))
      → express_middleware r lib codec now options req x ≡ (y, goes (agent, payment))
      → IsAdmitted (all_options options) agent payment x y
  unfolding express_middleware express_auth
  express_middleware_sound x y agent payment h =
      guarded-goes (all_options options) _ x y agent payment
        (λ x' y' auth.
          auth-goes (all_options options) agent_or_challenge x' y' agent
            (λ result x₁ y₁ e. challenge-goes result x₁ y₁ agent e) auth)
        h

  -- The same of the Fastify handler and of the Hono middleware, whose verification asks for no captcha.
  pub fastify_handler_sound :
      (x y : Exchange S) (agent : SiwaAgent) (payment : Option (Payment × Option Str))
      → fastify_handler r lib codec now options req x ≡ (y, goes (agent, payment))
      → IsAdmitted (options_without_captcha options) agent payment x y
  unfolding fastify_handler fastify_auth
  fastify_handler_sound x y agent payment h =
      guarded-goes (options_without_captcha options) _ x y agent payment
        (λ x' y' auth.
          auth-goes (options_without_captcha options) agent_or_error x' y' agent
            (λ result x₁ y₁ e. error-goes result x₁ y₁ agent e) auth)
        h

  late-goes :
      (payment : Option (Payment × Option Str)) (x y : Exchange S) (u : Unit {0})
      → late_header r lib codec payment x ≡ (y, goes u)
      → x.world ≡ y.world
  unfolding late_header set_header
  late-goes none x y u h = ground arith
  late-goes (some (payment, tx_hash)) x y u h = ground arith

  -- The Next.js wrapper calls the handler only for an agent that the verification without a public client
  -- has accepted, and for a payment as the others.
  pub with_siwa_sound :
      (x y : Exchange S) (agent : SiwaAgent) (payment : Option (Payment × Option Str))
      → with_siwa r lib codec now options req x ≡ (y, goes (agent, payment))
      → IsAdmitted (options_without_client options) agent payment x y
  unfolding with_siwa next_auth
  with_siwa_sound x y agent payment h =
      let (agent', x₁, authenticated, h₁) =
        >>=-goes (next_auth r lib codec now options req) _ x h in
      let (payment', x₂, gating, h₂) =
        >>=-goes (payment_gate r codec now false options.x402 req agent') _ x₁ h₁ in
      let (u, x₃, headed, h₃) = >>=-goes (late_header r lib codec payment') _ x₂ h₂ in
      let same_agent : agent' ≡ agent = ground arith in
      let same_payment : payment' ≡ payment = ground arith in
      let same_end : x₃ ≡ y = ground arith in
      let charged = gate-goes r codec now false options.x402 req agent' x₁ x₂ payment' gating in
      record {
        between = x₁;
        verified =
            auth-goes (options_without_client options) agent_or_challenge x x₁ agent
              (λ result x' y' e. challenge-goes result x' y' agent e)
              (authenticated ∙ ap (λ a. (x₁, goes a)) same_agent);
        charged =
            same_charge x₁ x₃ y agent' agent payment' payment same_agent same_payment same_end (
              subst (IsCharged r codec now options.x402 req agent' payment' x₁.world)
                (late-goes payment' x₂ x₃ u headed) charged);
      }
