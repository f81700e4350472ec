-- ===== src/Wrappers/Frameworks.antt =====
-- packages/siwa/src/server-side-wrappers: express.ts `siwaMiddleware`, fastify.ts `siwaAuth`, hono.ts
-- `siwaMiddleware` and next.ts `withSiwa`, up to the call of the handler, which is given the agent and the
-- payment.
use siwa.Base.{ℕ, true, false, Option, none, some, ◌∷◌, ◌++◌, Result}
use siwa.Base.Str.{Str, text}
use siwa.Runtime.{Runtime}
use siwa.Payments.{Payment}
use siwa.Erc8128.{
  SiwaAgent, Rejection, refused, captcha_required, AuthResult, accepted, rejected, VerifyOptions,
  Libraries, resolve_receipt_secret,
}
use siwa.Erc8128.Checks.{verify_authenticated_request}
use siwa.Erc8128.Steps.{Step, ◌>>=◌, ◌>>◌, lift, pass, stop, require}
use siwa.Wrappers.{
  WebRequest, captcha, Answer, Exchange, X402Config, Headers, on_world, try_catch, set_header,
  refusal, failure_answer, has_siwa_headers, payment_gate,
}

-- The receipt secret of `verify` is replaced by the one that is resolved.
pub record SiwaOptions (S : Type 0) : Type 0 where
  pub receipt_secret : Option Str
  pub receipt_secret_env : Option Str
  pub siwa_secret_env : Option Str
  pub verify : VerifyOptions S
  pub x402 : Option (X402Config S)

abbrev pub Admission : Type 0
Admission = SiwaAgent × Option (Payment × Option Str)

unfoldable pub missing_headers : Answer
unfolding text refusal
missing_headers =
    refusal 401 (
      text "Unauthorized "
      ++ (0x2014 ∷ text " provide ERC-8128 Signature + X-SIWA-Receipt headers"))

unfoldable pub rejection_error : Rejection → Str
unfolding text
rejection_error (refused message) = message
rejection_error (captcha_required challenge token) = text "Captcha required"

module _ {S : Type 0} where
  -- Express and Next.js send the challenge of the captcha.
  unfoldable pub agent_or_challenge : AuthResult → Step (Exchange S) Answer SiwaAgent
  unfolding text refusal
  agent_or_challenge (accepted agent) = pass agent
  agent_or_challenge (rejected (refused message)) = stop (refusal 401 message)
  agent_or_challenge (rejected (captcha_required challenge token)) = do
    set_header (text "X-SIWA-Challenge") token
    stop (record { status = 401; body = captcha (text "Captcha required") challenge token })

  -- Fastify and Hono send the error alone.
  unfoldable pub agent_or_error : AuthResult → Step (Exchange S) Answer SiwaAgent
  unfolding refusal rejection_error
  agent_or_error (accepted agent) = pass agent
  agent_or_error (rejected rejection) = stop (refusal 401 (rejection_error rejection))

  unfoldable pub secret_of : SiwaOptions S → Result Str
  unfolding resolve_receipt_secret
  secret_of options =
      resolve_receipt_secret options.receipt_secret options.receipt_secret_env
        options.siwa_secret_env

  -- The options that Express passes on.
  abbrev pub all_options : SiwaOptions S → Str → VerifyOptions S
  all_options options secret = record options.verify { receipt_secret = secret }

  -- Fastify and Hono have no captcha options.
  abbrev pub options_without_captcha : SiwaOptions S → Str → VerifyOptions S
  options_without_captcha options secret = record options.verify {
    receipt_secret = secret;
    captcha_policy = none;
    captcha_options = none;
  }

  -- Next.js has no public client.
  abbrev pub options_without_client : SiwaOptions S → Str → VerifyOptions S
  options_without_client options secret = record options.verify {
    receipt_secret = secret;
    public_client = none;
  }

module _ (r : Runtime) {S : Type 0} (lib : Libraries S) (codec : Headers) where
  -- express.ts: the try block of siwaMiddleware
  unfoldable pub express_auth : ℕ → SiwaOptions S → WebRequest → Step (Exchange S) Answer SiwaAgent
  unfolding secret_of agent_or_challenge
  express_auth now options req = do
    secret ← lift (secret_of options)
    fetch_req ← lift req.converted
    result ←
        on_world (verify_authenticated_request r lib (all_options options secret) now fetch_req)
    agent_or_challenge result

  -- express.ts: siwaMiddleware, up to next()
  unfoldable pub express_middleware :
      ℕ → SiwaOptions S → WebRequest → Step (Exchange S) Answer Admission
  unfolding missing_headers has_siwa_headers failure_answer express_auth
  express_middleware now options req = do
    require (has_siwa_headers req) missing_headers
    agent ← try_catch (express_auth now options req) (failure_answer 401 "ERC-8128 auth failed: ")
    payment ← payment_gate r codec now true options.x402 req agent
    pass (agent, payment)

  -- fastify.ts: the try block of siwaAuth
  unfoldable pub fastify_auth : ℕ → SiwaOptions S → WebRequest → Step (Exchange S) Answer SiwaAgent
  unfolding secret_of agent_or_error
  fastify_auth now options req = do
    secret ← lift (secret_of options)
    fetch_req ← lift req.converted
    result ←
        on_world (
          verify_authenticated_request r lib (options_without_captcha options secret) now fetch_req)
    agent_or_error result

  -- fastify.ts: siwaAuth
  unfoldable pub fastify_handler :
      ℕ → SiwaOptions S → WebRequest → Step (Exchange S) Answer Admission
  unfolding missing_headers has_siwa_headers failure_answer fastify_auth
  fastify_handler now options req = do
    require (has_siwa_headers req) missing_headers
    agent ← try_catch (fastify_auth now options req) (failure_answer 401 "ERC-8128 auth failed: ")
    payment ← payment_gate r codec now true options.x402 req agent
    pass (agent, payment)

  -- hono.ts: the try block of siwaMiddleware; Hono's raw request is a Fetch request already
  unfoldable pub hono_auth : ℕ → SiwaOptions S → WebRequest → Step (Exchange S) Answer SiwaAgent
  unfolding secret_of agent_or_error
  hono_auth now options req = do
    secret ← lift (secret_of options)
    raw ← lift req.converted
    result ←
        on_world
          (verify_authenticated_request r lib (options_without_captcha options secret) now raw)
    agent_or_error result

  -- hono.ts: siwaMiddleware, up to next()
  unfoldable pub hono_middleware :
      ℕ → SiwaOptions S → WebRequest → Step (Exchange S) Answer Admission
  unfolding missing_headers has_siwa_headers failure_answer hono_auth
  hono_middleware now options req = do
    require (has_siwa_headers req) missing_headers
    agent ← try_catch (hono_auth now options req) (failure_answer 401 "ERC-8128 auth failed: ")
    payment ← payment_gate r codec now true options.x402 req agent
    pass (agent, payment)

  -- next.ts: the header of the payment, set on the response of the handler
  unfoldable pub late_header : Option (Payment × Option Str) → Step (Exchange S) Answer (Unit {0})
  unfolding text
  late_header none = pass tt
  late_header (some (payment, tx_hash)) =
      set_header (text "Payment-Response") (codec.encode_payment payment tx_hash)

  -- next.ts: the verification of withSiwa
  unfoldable pub next_auth : ℕ → SiwaOptions S → WebRequest → Step (Exchange S) Answer SiwaAgent
  unfolding secret_of agent_or_challenge
  next_auth now options req = do
    secret ← lift (secret_of options)
    fetch_req ← lift req.converted
    result ←
        on_world
          (verify_authenticated_request r lib (options_without_client options secret) now fetch_req)
    agent_or_challenge result

  -- next.ts: withSiwa, up to the call of the handler; nothing is checked before and nothing caught
  unfoldable pub with_siwa : ℕ → SiwaOptions S → WebRequest → Step (Exchange S) Answer Admission
  unfolding next_auth late_header
  with_siwa now options req = do
    agent ← next_auth now options req
    payment ← payment_gate r codec now false options.x402 req agent
    late_header payment
    pass (agent, payment)
