-- ===== src/Approvals/Once.antt =====
-- How often a promise is held and settled.
use siwa.Approvals.Requests.{Config, Telegram}
use siwa.Approvals.Transitions.{
  Transition, Reach, requested, pressed, expired, reported, stopped, here, next,
  request-IsRequested, webhook-IsPressed,
}
use siwa.Approvals.Webhook.{is_approve}
use siwa.Base.{
  ℕ, zero, suc, ◌+◌, ◌≤◌, Bool, Option, none, some, List, [], ◌∷◌, ◌==◌, if◌then◌else◌, ltb, ◌≡◌,
  Option-cases, inl, inr, refl, arith,
}
use siwa.Base.Str.{Str}
use siwa.Base.JsMap.{JsMap, get, set, delete}
use siwa.Approvals.{
  Approvals, ApprovalResult, PendingApproval, CreateApprovalOptions, no_approvals,
  create_pending_approval, handle_timeout, clear_timeout, get_timer, fire, pending_approval,
  finish_timeout, cleanup_all_pending, reject_each, pick, shutdown_result, resolve_pending_approval,
}

abbrev pub one : ℕ → ℕ → ℕ
one p q = if p == q then 1 else 0

-- How often the promise `q` is held by a pending request.
unfoldable pub held : ℕ → JsMap PendingApproval → ℕ
held q [] = 0
held q ((k, p) ∷ m) = one p.resolve q + held q m

-- How often a list of settlements settles it.
unfoldable pub calls : ℕ → List (ℕ × ApprovalResult) → ℕ
calls q [] = 0
calls q ((p, r) ∷ cs) = one p q + calls q cs

pub held-set-none :
    (q : ℕ) (k : Str) (v : PendingApproval) (m : JsMap PendingApproval)
    → held q (set k v m) ≤ one v.resolve q + held q m
unfolding held set
held-set-none q k v [] = omega arith
held-set-none q k v ((j, w) ∷ m) = ground (arith, held-set-none q k v m)

pub held-set :
    (q : ℕ) (k : Str) (v p : PendingApproval) (m : JsMap PendingApproval)
    → get k m ≡ some p
    → held q (set k v m) + one p.resolve q ≡ one v.resolve q + held q m
unfolding held set get
held-set q k v p [] h = absurd (cc)
held-set q k v p ((j, w) ∷ m) h = ground (arith, held-set q k v p m)

pub held-delete : (q : ℕ) (k : Str) (m : JsMap PendingApproval) → held q (delete k m) ≤ held q m
unfolding held delete
held-delete q k [] = omega arith
held-delete q k ((j, w) ∷ m) = ground (arith, held-delete q k m)

pub held-delete-some :
    (q : ℕ) (k : Str) (p : PendingApproval) (m : JsMap PendingApproval)
    → get k m ≡ some p
    → held q (delete k m) + one p.resolve q ≤ held q m
unfolding held delete get
held-delete-some q k p [] h = absurd (cc)
held-delete-some q k p ((j, w) ∷ m) h = ground (arith, held-delete-some q k p m, held-delete q k m)

abbrev Counts :
    ℕ
    → List (ℕ × ApprovalResult)
    → Option ((ℕ × ApprovalResult) × List (ℕ × ApprovalResult))
    → Type 0
Counts q cs none = Unit
Counts q cs (some (c, rest)) = calls q cs ≡ one c.0 q + calls q rest

calls-pick : (q i : ℕ) (cs : List (ℕ × ApprovalResult)) → Counts q cs (pick i cs)
unfolding calls pick
calls-pick q i [] = tt
calls-pick q zero (x ∷ cs) = refl
calls-pick q (suc i) (x ∷ cs) = ground (arith, calls-pick q i cs)

-- The uses of a promise that are made or may still be made.
unfoldable pub credit : ℕ → Approvals → ℕ
credit q s =
    held q s.pending + calls q s.closing + calls q s.resolved + (if ltb q s.fresh then 0 else 1)

finish_timeout-credit : (q i : ℕ) (s : Approvals) → credit q (finish_timeout i s) ≡ credit q s
unfolding finish_timeout credit calls
finish_timeout-credit q i s = ground (arith, calls-pick q i s.closing)

create-credit :
    (q timeout_ms now : ℕ) (options : CreateApprovalOptions) (s : Approvals)
    → credit q (create_pending_approval timeout_ms now options s) ≤ credit q s
unfolding create_pending_approval credit
create-credit q timeout_ms now options s = ground (
  arith,
  held-set-none q options.request.request_id (pending_approval timeout_ms now options s.fresh)
      s.pending,
)

resolve-credit :
    (q now : ℕ) (k : Str) (approved : Bool) (s : Approvals)
    → credit q (resolve_pending_approval now k approved s).0 ≤ credit q s
unfolding resolve_pending_approval credit calls
resolve-credit q now k approved s = elim (Option-cases (get k s.pending)) [
  | inl e ↦ ground arith
  | inr (p, e) ↦ ground (arith, held-delete-some q k p s.pending e)
]

handle_timeout-credit :
    (q timeout_ms : ℕ) (k : Str) (s : Approvals)
    → credit q (handle_timeout timeout_ms k s) ≤ credit q s
unfolding handle_timeout credit calls
handle_timeout-credit q timeout_ms k s = elim (Option-cases (get k s.pending)) [
  | inl e ↦ ground arith
  | inr (p, e) ↦ ground (arith, held-delete-some q k p s.pending e)
]

clear-credit :
    (q id : ℕ) (s : Approvals)
    → credit q (record s { timers = clear_timeout id s.timers }) ≡ credit q s
unfolding credit
clear-credit q id s = refl

fire-credit : (q timeout_ms id : ℕ) (s : Approvals) → credit q (fire timeout_ms id s) ≤ credit q s
unfolding fire
fire-credit q timeout_ms id s = elim (Option-cases (get_timer id s.timers)) [
  | inl e ↦ rw e (omega arith)
  | inr (k, e) ↦ rw e (
      omega (
        arith,
        clear-credit q id s,
        handle_timeout-credit q timeout_ms k (record s { timers = clear_timeout id s.timers }),
      ))
]

pub reject_each-rest :
    (m : JsMap PendingApproval) (s : Approvals)
    → ((reject_each m s).closing ≡ s.closing) × ((reject_each m s).fresh ≡ s.fresh)
unfolding reject_each
reject_each-rest [] s = (refl, refl)
reject_each-rest ((k, p) ∷ m) s = reject_each-rest m _

calls-reject_each :
    (q : ℕ) (m : JsMap PendingApproval) (s : Approvals)
    → calls q (reject_each m s).resolved ≡ held q m + calls q s.resolved
unfolding reject_each held calls
calls-reject_each q [] s = omega arith
calls-reject_each q ((k, p) ∷ m) s = omega (
  arith,
  calls-reject_each q m (record s {
    timers = clear_timeout p.timeout_id s.timers;
    resolved = (p.resolve, shutdown_result) ∷ s.resolved;
  }),
)

cleanup-credit : (q : ℕ) (s : Approvals) → credit q (cleanup_all_pending s) ≡ credit q s
unfolding cleanup_all_pending credit held
cleanup-credit q s = ground (arith, calls-reject_each q s.pending s, reject_each-rest s.pending s)

pub cleanup-resolved :
    (q : ℕ) (s : Approvals)
    → calls q (cleanup_all_pending s).resolved ≡ held q s.pending + calls q s.resolved
unfolding cleanup_all_pending
cleanup-resolved q s = calls-reject_each q s.pending s

module _ (config : Config) (telegram : Telegram) where
  -- No step makes new uses of a promise that is given out.
  pub Transition-credit :
      (q : ℕ) {s t : Approvals} → Transition config telegram s t → credit q t ≤ credit q s
  Transition-credit q (requested {s} now secret body) =
      elim (request-IsRequested config telegram now s secret body) [
        | inl e ↦ rw e (omega arith)
        | inr (options, e) ↦ rw e (create-credit q config.tfa_approval_timeout_ms now options s)
      ]
  Transition-credit q (pressed {s} now update) = elim (webhook-IsPressed now s update) [
    | inl e ↦ rw e (omega arith)
    | inr (d, parsed, p, sent, parse, found, e) ↦
        rw e (resolve-credit q now parsed.request_id (is_approve parsed) s)
  ]
  Transition-credit q (expired {s} id) = fire-credit q config.tfa_approval_timeout_ms id s
  Transition-credit q (reported {s} i) = omega (arith, finish_timeout-credit q i s)
  Transition-credit q (stopped {s}) = omega (arith, cleanup-credit q s)

  pub Reach-credit : (q : ℕ) {s t : Approvals} → Reach config telegram s t → credit q t ≤ credit q s
  Reach-credit q here = omega arith
  Reach-credit q (next past step) = omega (arith, Reach-credit q past, Transition-credit q step)

  -- In every history of the server, whatever requests, presses, timeouts and answers of Telegram come
  -- in whatever order, each promise is settled at most once.
  pub calls-Reach :
      (q : ℕ) (s : Approvals) → Reach config telegram no_approvals s → calls q s.resolved ≤ 1
  unfolding credit held calls
  calls-Reach q s past = ground (arith, Reach-credit q past)
