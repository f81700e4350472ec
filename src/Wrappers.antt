-- ===== src/Wrappers.antt =====
-- packages/siwa/src/server-side-wrappers: what the wrappers of Express, Fastify, Hono and Next.js share,
-- the answers that they give and the payment gate that each of them repeats. The session store and the
-- base64 headers of x402.ts are parameters, and so is the conversion of a framework's request.
pub mod Frameworks
pub mod Charged
pub mod Gate
pub mod Admitted
pub mod Cors
use siwa.Base.{
  ℕ, Bool, true, false, ◌&&◌, not, Option, none, some, List, [], ◌∷◌, ◌++◌, if◌then◌else◌, Result,
  ok, throws, String, is_some,
}
use siwa.Base.Str.{Str, text}
use siwa.Captcha.{CaptchaChallenge}
use siwa.Runtime.{Runtime}
use siwa.Payments.{
  X402Session, Payment, PaymentPayload, PaymentRequirements, FacilitatorClient, X402Result, paid,
  unpaid, process_x402_payment,
}
use siwa.Erc8128.{
  Request, SiwaAgent, Rejection, refused, captcha_required, AuthResult, accepted, rejected,
  given_header,
}
use siwa.Erc8128.Steps.{
  Exit, goes, returns, raises, Step, ◌>>=◌, ◌>>◌, lift, pass, stop, require, stateful,
}

-- The headers that the wrappers read; `converted` is the Fetch request that is made of it.
pub record WebRequest : Type 0 where
  pub signature : Option Str
  pub siwa_receipt : Option Str
  pub payment_signature : Option Str
  pub converted : Result Request

pub data Body : Type 0 where
  error : Str → Body
  captcha : (error : Str) → CaptchaChallenge → (challenge_token : Str) → Body
  payment_required : (error : Str) → List PaymentRequirements → (resource_url : Str) → Body

pub record Answer : Type 0 where
  pub status : ℕ
  pub body : Body

-- The state of the server, with the headers that are set on the response.
pub record Exchange (S : Type 0) : Type 0 where
  pub world : S
  pub headers : List (Str × Str)

pub record X402SessionConfig (S : Type 0) : Type 0 where
  pub get : (address resource : Str) → S → S × Result (Option X402Session)
  pub set : (address resource : Str) → X402Session → (ttl : ℕ) → S → S × Result (Unit {0})
  pub ttl : ℕ

pub record X402Config (S : Type 0) : Type 0 where
  pub facilitator : FacilitatorClient S
  pub resource_url : Str
  pub accepts : List PaymentRequirements
  pub session : Option (X402SessionConfig S)

-- encodeX402Header of the two values that are sent, and decodeX402Header of the one that is read
pub record Headers : Type 0 where
  pub encode_required : List PaymentRequirements → (resource_url : Str) → Str
  pub encode_payment : Payment → Option Str → Str
  pub decode_payload : Str → Result PaymentPayload

module _ {S A : Type 0} where
  abbrev pub in_exchange : List (Str × Str) → S × Exit Answer A → Exchange S × Exit Answer A
  in_exchange headers (w, e) = (record { world = w; headers = headers }, e)

  -- A step on the server's state alone.
  unfoldable pub on_world : (S → S × Result A) → Step (Exchange S) Answer A
  on_world call x = in_exchange x.headers (stateful call x.world)

  abbrev pub catch_exit : (Str → Answer) → Exchange S × Exit Answer A → Exchange S × Exit Answer A
  catch_exit handle (x, goes a) = (x, goes a)
  catch_exit handle (x, returns answer) = (x, returns answer)
  catch_exit handle (x, raises message) = (x, returns (handle message))

  -- try { … } catch (err) { return handle(err.message) }
  unfoldable pub try_catch :
      Step (Exchange S) Answer A → (Str → Answer) → Step (Exchange S) Answer A
  try_catch steps handle x = catch_exit handle (steps x)

module _ {S : Type 0} where
  -- res.setHeader(name, value)
  unfoldable pub set_header : (name value : Str) → Step (Exchange S) Answer (Unit {0})
  set_header name value x =
      (record { world = x.world; headers = (name, value) ∷ x.headers }, goes tt)

unfoldable pub refusal : ℕ → Str → Answer
refusal status message = record { status = status; body = error message }

-- The first words are those of the catch clauses.
unfoldable pub failure_answer : ℕ → String → Str → Answer
unfolding text refusal
failure_answer status words message = refusal status (text words ++ message)

unfoldable pub has_siwa_headers : WebRequest → Bool
unfolding given_header
has_siwa_headers req =
    is_some (given_header req.signature) && is_some (given_header req.siwa_receipt)

-- Express, Fastify and Hono set the header of the payment at once, Next.js when the handler is done.
module _ (r : Runtime) (codec : Headers) {S : Type 0} (now : ℕ) (x402 : X402Config S)
    (header_first : Bool) where
  -- Storing the session of a payment; `now` is the clock when it is stored.
  unfoldable pub store_session :
      Option (X402SessionConfig S)
      → (address : Str) → Option Str
      → Step (Exchange S) Answer (Unit {0})
  store_session none address tx_hash = pass tt
  store_session (some session) address tx_hash = on_world (
      session.set address x402.resource_url (record { paid_at = now; tx_hash = tx_hash })
        session.ttl)

  unfoldable pub early_header : Payment → Option Str → Step (Exchange S) Answer (Unit {0})
  unfolding text
  early_header payment tx_hash =
      if header_first
      then set_header (text "Payment-Response") (codec.encode_payment payment tx_hash)
      else pass tt

  unfoldable pub accept_payment :
      (address : Str) → X402Result → Step (Exchange S) Answer (Option (Payment × Option Str))
  unfolding refusal early_header store_session
  accept_payment address (unpaid message) = stop (refusal 402 message)
  accept_payment address (paid payment tx_hash) = do
    early_header payment tx_hash
    store_session x402.session address tx_hash
    pass (some (payment, tx_hash))

  -- The try block of the payment
  unfoldable pub process_payment :
      (address : Str) → Str → Step (Exchange S) Answer (Option (Payment × Option Str))
  unfolding accept_payment
  process_payment address header = do
    payload ← lift (codec.decode_payload header)
    result ← on_world (process_x402_payment payload x402.accepts x402.facilitator)
    accept_payment address result

  unfoldable pub take_payment :
      (address : Str) → Option Str → Step (Exchange S) Answer (Option (Payment × Option Str))
  unfolding text failure_answer process_payment
  take_payment address none = do
    set_header (text "Payment-Required") (codec.encode_required x402.accepts x402.resource_url)
    stop (record {
      status = 402;
      body = payment_required (text "Payment required") x402.accepts x402.resource_url;
    })
  take_payment address (some header) =
      try_catch (process_payment address header)
        (failure_answer 402 "x402 payment processing failed: ")

  unfoldable pub existing_session :
      Option (X402SessionConfig S) → (address : Str) → Step (Exchange S) Answer (Option X402Session)
  existing_session none address = pass none
  existing_session (some session) address = on_world (session.get address x402.resource_url)

  unfoldable pub with_session :
      WebRequest
      → (address : Str) → Option X402Session
      → Step (Exchange S) Answer (Option (Payment × Option Str))
  unfolding take_payment given_header
  with_session req address (some session) = pass none
  with_session req address none = take_payment address (given_header req.payment_signature)

  unfoldable pub charge :
      WebRequest → SiwaAgent → Step (Exchange S) Answer (Option (Payment × Option Str))
  unfolding existing_session with_session
  charge req agent = do
    existing ← existing_session x402.session (r.to_lower agent.address)
    with_session req (r.to_lower agent.address) existing

module _ (r : Runtime) (codec : Headers) {S : Type 0} where
  -- The payment gate; without it nothing is asked for.
  unfoldable pub payment_gate :
      ℕ
      → (header_first : Bool) → Option (X402Config S)
      → WebRequest
      → SiwaAgent
      → Step (Exchange S) Answer (Option (Payment × Option Str))
  payment_gate now header_first none req agent = pass none
  payment_gate now header_first (some x402) req agent =
      charge r codec now x402 header_first req agent
