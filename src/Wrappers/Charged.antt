-- ===== src/Wrappers/Charged.antt =====
-- What the payment gate of the wrappers asks for: packages/siwa/src/server-side-wrappers.
use siwa.Base.{ℕ, Option, none, some, List, Result, ok, throws, ◌≡◌, ◌⊎◌, arith}
use siwa.Base.Str.{Str}
use siwa.Runtime.{Runtime}
use siwa.Payments.{X402Session, Payment, PaymentPayload}
use siwa.Payments.Settled.{IsSettled}
use siwa.Erc8128.{
  Request, SiwaAgent, Rejection, refused, captcha_required, AuthResult, accepted, rejected,
  VerifyOptions, Libraries, given_header,
}
use siwa.Erc8128.Steps.{
  Exit, goes, returns, raises, Step, ◌>>=◌, ◌>>◌, lift, pass, stop, require, stateful, >>=-goes,
}
use siwa.Wrappers.{
  WebRequest, Answer, Exchange, X402Config, X402SessionConfig, Headers, on_world, in_exchange,
  try_catch, catch_exit,
}

module _ {S A : Type 0} where
  from_call :
      {headers : List (Str × Str)} {y : Exchange S} {a : A} (o : S × Result A)
      → in_exchange headers (siwa.Erc8128.Steps.stateful_exit o) ≡ (y, goes a)
      → o ≡ (y.world, ok a)
  from_call (w, throws e) h = absurd (cc)
  from_call (w, ok b) h = ground arith

  from_try :
      (handle : Str → Answer) {y : Exchange S} {a : A} (o : Exchange S × Exit Answer A)
      → catch_exit handle o ≡ (y, goes a)
      → o ≡ (y, goes a)
  from_try handle (x, goes b) h = h
  from_try handle (x, returns answer) h = absurd (cc)
  from_try handle (x, raises message) h = absurd (cc)

  pub on_world-goes :
      (call : S → S × Result A) (x y : Exchange S) (a : A)
      → on_world call x ≡ (y, goes a)
      → call x.world ≡ (y.world, ok a)
  unfolding on_world
  on_world-goes call x y a h = from_call (call x.world) h

  pub try_catch-goes :
      (steps : Step (Exchange S) Answer A) (handle : Str → Answer) (x y : Exchange S) (a : A)
      → try_catch steps handle x ≡ (y, goes a)
      → steps x ≡ (y, goes a)
  unfolding try_catch
  try_catch-goes steps handle x y a h = from_try handle (steps x) h

  pub lift-goes :
      (call : Result A) (x y : Exchange S) (a : A)
      → lift {E = Answer} call x ≡ (y, goes a)
      → (call ≡ ok a) × (y ≡ x)
  lift-goes (throws e) x y a h = absurd (cc)
  lift-goes (ok b) x y a h = (ground arith, ground arith)

module _ (r : Runtime) (codec : Headers) {S : Type 0} (now : ℕ) where
  -- What the look-up of a session for the resource gives, from one state of the server to the next.
  abbrev pub LooksUp :
      X402Config S → (address : Str) → Option X402Session → (before behind : S) → Type 0
  LooksUp x402 address existing before behind =
      ((x402.session ≡ none) × (existing ≡ none) × (before ≡ behind))
      ⊎ ((config : X402SessionConfig S) × (x402.session ≡ some config)
          × (config.get address x402.resource_url before ≡ (behind, ok existing)))

  -- Storing the session of a payment, where there is a store.
  abbrev pub Stores :
      X402Config S → (address : Str) → (tx_hash : Option Str) → (before behind : S) → Type 0
  Stores x402 address tx_hash before behind =
      ((x402.session ≡ none) × (before ≡ behind))
      ⊎ ((config : X402SessionConfig S) × (x402.session ≡ some config)
          × (config.set address x402.resource_url (record { paid_at = now; tx_hash = tx_hash })
                config.ttl before
              ≡ (behind, ok tt)))

  -- The agent has a session for the resource, and nothing else was done.
  abbrev pub HasSession : X402Config S → (address : Str) → (before behind : S) → Type 0
  HasSession x402 address before behind =
      (session : X402Session) × LooksUp x402 address (some session) before behind

  -- There is no session; behind the look-up the facilitator verified and settled the payment of the
  -- request, and behind that the session was stored.
  pub record HasPaid (x402 : X402Config S) (address : Str) (req : WebRequest) (payment : Payment)
      (tx_hash : Option Str) (before behind : S) : Type 0 where
    pub looked_state : S
    pub settled_state : S
    pub header : Str
    pub payload : PaymentPayload
    pub no_session : LooksUp x402 address none before looked_state
    pub sent : given_header req.payment_signature ≡ some header
    pub decoded : codec.decode_payload header ≡ ok payload
    pub settled :
        IsSettled payload x402.accepts x402.facilitator looked_state settled_state payment tx_hash
    pub stored : Stores x402 address tx_hash settled_state behind

  -- What the payment gate does from one state of the server to another, with the payment that the handler
  -- is given.
  abbrev pub IsCharged :
      Option (X402Config S)
      → WebRequest
      → SiwaAgent
      → Option (Payment × Option Str)
      → (before behind : S) → Type 0
  IsCharged none req agent payment before behind = (payment ≡ none) × (before ≡ behind)
  IsCharged (some x402) req agent none before behind =
      HasSession x402 (r.to_lower agent.address) before behind
  IsCharged (some x402) req agent (some (payment, tx_hash)) before behind =
      HasPaid x402 (r.to_lower agent.address) req payment tx_hash before behind
