-- ===== src/Payments.antt =====
-- packages/siwa/src/x402.ts: the in-memory session store and `processX402Payment`. The facilitator is a
-- parameter, whose two calls are steps on a state that it keeps.
pub mod Sessions
pub mod Settled
use siwa.Base.{
  ℕ, ◌+◌, Bool, true, false, not, Option, none, some, [], ◌∷◌, ◌++◌, if◌then◌else◌, or_else, ltb,
  Result, ok, throws, List, String,
}
use siwa.Base.JsMap.{JsMap, get, set, delete, retain}
use siwa.Base.Json.{Json}
use siwa.Base.Str.{Str, text}

pub record X402Session : Type 0 where
  pub paid_at : ℕ
  pub tx_hash : Option Str

pub record SessionEntry : Type 0 where
  pub session : X402Session
  pub expiry : ℕ

abbrev pub SessionStore : Type 0
SessionStore = JsMap SessionEntry

-- `${address}:${resource}`
unfoldable pub session_key : Str → Str → Str
session_key address resource = address ++ (b':' ∷ resource)

unfoldable pub cleanup_sessions : ℕ → SessionStore → SessionStore
cleanup_sessions now sessions = retain (λ e. not (ltb e.expiry now)) sessions

session_of : ℕ → Str → SessionStore → Option SessionEntry → SessionStore × Option X402Session
session_of later key live none = (live, none)
session_of later key live (some e) =
    if ltb e.expiry later then (delete key live, none) else (live, some e.session)

-- `now` is the clock as the clean-up reads it, `later` as the method does.
unfoldable pub get_session :
    (now later : ℕ) → Str → Str → SessionStore → SessionStore × Option X402Session
unfolding session_of
get_session now later address resource sessions =
    let live = cleanup_sessions now sessions in
    session_of later (session_key address resource) live (get (session_key address resource) live)

-- `Map.set` keeps the place of an entry that it overwrites, and its key.
unfoldable pub set_session :
    (now later : ℕ) → Str → Str → X402Session → ℕ → SessionStore → SessionStore
set_session now later address resource session ttl sessions =
    set (session_key address resource) (record { session = session; expiry = later + ttl })
      (cleanup_sessions now sessions)

pub record Payment : Type 0 where
  pub scheme : Str
  pub network : Str
  pub amount : Str
  pub asset : Str
  pub pay_to : Str

pub record PaymentPayload : Type 0 where
  pub signature : Str
  pub payment : Payment
  pub nonce : Option Str
  pub resource : Json

pub record PaymentRequirements : Type 0 where
  pub payment : Payment
  pub max_timeout_seconds : Option ℕ

pub record VerifyResponse : Type 0 where
  pub valid : Bool
  pub reason : Option Str

pub record SettleResponse : Type 0 where
  pub success : Bool
  pub tx_hash : Option Str
  pub reason : Option Str

pub record FacilitatorClient (S : Type 0) : Type 0 where
  pub verify : PaymentPayload → List PaymentRequirements → S → S × Result VerifyResponse
  pub settle : PaymentPayload → List PaymentRequirements → S → S × Result SettleResponse

pub data X402Result : Type 0 where
  paid : Payment → Option Str → X402Result
  unpaid : Str → X402Result

module _ {S : Type 0} (payload : PaymentPayload) (accepts : List PaymentRequirements)
    (facilitator : FacilitatorClient S) where
  unfoldable pub settle_outcome : S × Result SettleResponse → S × Result X402Result
  unfolding text
  settle_outcome (s, throws e) = (s, throws e)
  settle_outcome (s, ok r) =
      if not r.success
      then (
        s,
        ok (unpaid (text "Payment settlement failed: " ++ or_else r.reason (text "unknown"))),
      )
      else (s, ok (paid payload.payment r.tx_hash))

  unfoldable pub verify_outcome : S × Result VerifyResponse → S × Result X402Result
  unfolding text
  verify_outcome (s, throws e) = (s, throws e)
  verify_outcome (s, ok r) =
      let settled = settle_outcome (facilitator.settle payload accepts s) in
      if not r.valid
      then (
        s,
        ok (unpaid (text "Payment verification failed: " ++ or_else r.reason (text "unknown"))),
      )
      else settled

  unfoldable pub process_x402_payment : S → S × Result X402Result
  process_x402_payment s = verify_outcome (facilitator.verify payload accepts s)
