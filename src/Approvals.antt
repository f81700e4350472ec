-- ===== src/Approvals.antt =====
-- packages/2fa-telegram/src/approval-store.ts: the requests that wait for a user, with the timers and the
-- promises that they hold. A promise and a timer are numbers, given out in order. Logging is left out;
-- the calls of `resolve` are kept in the order in which they are made. `handleTimeout` waits for
-- Telegram in its middle, so it is two operations.
pub mod Webhook
pub mod Requests
pub mod Transitions
pub mod Once
pub mod Timers
pub mod Orphans
pub mod Consent
pub mod Buttons
pub mod Decoder
pub mod Messages
use siwa.Base.{
  ℕ, ◌+◌, ◌-◌, ◌/◌, Bool, true, false, Option, none, some, List, [], ◌∷◌, ◌++◌, ◌==◌, if◌then◌else◌,
  zero, suc, String,
}
use siwa.Base.JsMap.{JsMap, get, set, delete}
use siwa.Base.Json.{Json}
use siwa.Base.Numbers.{show_nat}
use siwa.Base.Str.{Str, text}

pub data Operation : Type 0 where
  sign_message sign_transaction sign_authorization : Operation

pub record ApprovalRequest : Type 0 where
  pub request_id : Str
  pub operation : Operation
  pub wallet : Str
  pub payload : Json
  pub chain_id : Option Json

pub record ApprovalResult : Type 0 where
  pub approved : Bool
  pub reason : Option Str
  pub response_time_ms : Option ℕ

-- `resolve` is the promise that it settles.
pub record PendingApproval : Type 0 where
  pub request_id : Str
  pub operation : Operation
  pub wallet : Str
  pub payload : Json
  pub decoded_data : Option Str
  pub created_at : ℕ
  pub expires_at : ℕ
  pub telegram_message_id : ℕ
  pub resolve : ℕ
  pub timeout_id : ℕ

-- `closing` holds the timeouts that wait for Telegram, with the promise to reject, `resolved` the
-- calls of `resolve`, and `fresh` is above every promise and timer given out.
pub record Approvals : Type 0 where
  pub pending : JsMap PendingApproval
  pub timers : List (ℕ × Str)
  pub closing : List (ℕ × ApprovalResult)
  pub resolved : List (ℕ × ApprovalResult)
  pub fresh : ℕ

abbrev pub no_approvals : Approvals
no_approvals = record { pending = []; timers = []; closing = []; resolved = []; fresh = 0 }

-- clearTimeout(id)
unfoldable pub clear_timeout : ℕ → List (ℕ × Str) → List (ℕ × Str)
clear_timeout id [] = []
clear_timeout id ((t, k) ∷ ts) =
    let rest = clear_timeout id ts in if t == id then rest else (t, k) ∷ rest

-- The live timer, with the request that it is for.
unfoldable pub get_timer : ℕ → List (ℕ × Str) → Option Str
get_timer id [] = none
get_timer id ((t, k) ∷ ts) = let rest = get_timer id ts in if t == id then some k else rest

pub record CreateApprovalOptions : Type 0 where
  pub request : ApprovalRequest
  pub telegram_message_id : ℕ
  pub decoded_data : Option Str

abbrev pub pending_approval : (timeout_ms now : ℕ) → CreateApprovalOptions → ℕ → PendingApproval
pending_approval timeout_ms now options fresh = record {
  request_id = options.request.request_id;
  operation = options.request.operation;
  wallet = options.request.wallet;
  payload = options.request.payload;
  decoded_data = options.decoded_data;
  created_at = now;
  expires_at = now + timeout_ms;
  telegram_message_id = options.telegram_message_id;
  resolve = fresh;
  timeout_id = fresh;
}

-- The promise that is returned is the number `fresh` of the state before.
unfoldable pub create_pending_approval :
    (timeout_ms now : ℕ) → CreateApprovalOptions → Approvals → Approvals
create_pending_approval timeout_ms now options s = record s {
  timers = (s.fresh, options.request.request_id) ∷ s.timers;
  pending =
      set options.request.request_id (pending_approval timeout_ms now options s.fresh) s.pending;
  fresh = suc s.fresh;
}

-- `Timeout (${timeoutSeconds}s)`
unfoldable pub timeout_result : ℕ → ApprovalResult
unfolding text show_nat
timeout_result timeout_ms = record {
  approved = false;
  reason = some (text "Timeout (" ++ (show_nat (timeout_ms / 1000) ++ text "s)"));
  response_time_ms = none;
}

abbrev timed_out : ℕ → Str → Approvals → Option PendingApproval → Approvals
timed_out timeout_ms request_id s none = s
timed_out timeout_ms request_id s (some p) = record s {
  pending = delete request_id s.pending;
  closing = (p.resolve, timeout_result timeout_ms) ∷ s.closing;
}

-- handleTimeout up to its call of Telegram
unfoldable pub handle_timeout : ℕ → Str → Approvals → Approvals
handle_timeout timeout_ms request_id s =
    timed_out timeout_ms request_id s (get request_id s.pending)

abbrev fired : ℕ → ℕ → Approvals → Option Str → Approvals
fired timeout_ms id s none = s
fired timeout_ms id s (some k) =
    handle_timeout timeout_ms k (record s { timers = clear_timeout id s.timers })

-- A timer runs out; it is gone when its callback runs.
unfoldable pub fire : ℕ → ℕ → Approvals → Approvals
fire timeout_ms id s = fired timeout_ms id s (get_timer id s.timers)

unfoldable pub pick {ℓ} : {A : Type ℓ} → ℕ → List A → Option (A × List A)
pick i [] = none
pick zero (x ∷ xs) = some (x, xs)
pick (suc i) (x ∷ xs) = elim (pick i xs) [ none ↦ none | some (y, ys) ↦ some (y, x ∷ ys) ]

abbrev picked : Approvals → Option ((ℕ × ApprovalResult) × List (ℕ × ApprovalResult)) → Approvals
picked s none = s
picked s (some (c, rest)) = record s { closing = rest; resolved = c ∷ s.resolved }

-- The rest of handleTimeout, once Telegram has answered; the answers come in any order.
unfoldable pub finish_timeout : ℕ → Approvals → Approvals
finish_timeout i s = picked s (pick i s.closing)

unfoldable pub user_result : Bool → ℕ → ApprovalResult
unfolding text
user_result approved ms = record {
  approved = approved;
  reason = if approved then none else some (text "User rejected the request");
  response_time_ms = some ms;
}

abbrev resolved_pending :
    ℕ → Str → Bool → Approvals → Option PendingApproval → Approvals × Option ApprovalResult
resolved_pending now request_id approved s none = (s, none)
resolved_pending now request_id approved s (some p) =
    let result : ApprovalResult = user_result approved (now - p.created_at) in
    (
      record s {
        timers = clear_timeout p.timeout_id s.timers;
        pending = delete request_id s.pending;
        resolved = (p.resolve, result) ∷ s.resolved;
      },
      some result,
    )

-- The clock does not go back behind the creation of the request.
unfoldable pub resolve_pending_approval :
    ℕ → Str → Bool → Approvals → Approvals × Option ApprovalResult
resolve_pending_approval now request_id approved s =
    resolved_pending now request_id approved s (get request_id s.pending)

unfoldable pub shutdown_result : ApprovalResult
unfolding text
shutdown_result = record {
  approved = false;
  reason = some (text "Server shutdown");
  response_time_ms = none;
}

-- The loop of cleanupAllPending.
unfoldable pub reject_each : JsMap PendingApproval → Approvals → Approvals
reject_each [] s = s
reject_each ((k, p) ∷ m) s = reject_each m (record s {
  timers = clear_timeout p.timeout_id s.timers;
  resolved = (p.resolve, shutdown_result) ∷ s.resolved;
})

unfoldable pub cleanup_all_pending : Approvals → Approvals
cleanup_all_pending s = record (reject_each s.pending s) { pending = [] }
