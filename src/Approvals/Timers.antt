-- ===== src/Approvals/Timers.antt =====
-- Every request that waits has a timer that ends its wait.
use siwa.Base.{
  ℕ, Bool, ◌<◌, none, some, List, [], ◌∷◌, ◌≡◌, ◌==◌, if◌then◌else◌, arith, Option-cases, inl, inr,
}
use siwa.Base.Str.{Str}
use siwa.Base.Str.Laws.{str_eq_iff, str_eq_refl}
use siwa.Base.JsMap.{get, delete, get-set, get-delete}
use siwa.Approvals.{
  Approvals, ApprovalResult, PendingApproval, CreateApprovalOptions, no_approvals, pending_approval,
  create_pending_approval, fire, handle_timeout, clear_timeout, finish_timeout, cleanup_all_pending,
  resolve_pending_approval, pick, get_timer, timeout_result,
}
use siwa.Approvals.Requests.{Config, Telegram}
use siwa.Approvals.Transitions.{
  Transition, Reach, requested, pressed, expired, reported, stopped, here, next,
  request-IsRequested, webhook-IsPressed,
}
use siwa.Approvals.Webhook.{is_approve}

get_timer-clear_timeout :
    (i id : ℕ) (ts : List (ℕ × Str))
    → get_timer i (clear_timeout id ts) ≡ (if i == id then none else get_timer i ts)
unfolding get_timer clear_timeout
get_timer-clear_timeout i id [] = ground arith
get_timer-clear_timeout i id ((t, k) ∷ ts) = ground (arith, get_timer-clear_timeout i id ts)

-- A request that waits has its own live timer.
pub record IsArmed (s : Approvals) : Type 0 where
  pub armed :
      (k : Str) (p : PendingApproval)
      → get k s.pending ≡ some p
      → get_timer p.timeout_id s.timers ≡ some k
  pub aged : (k : Str) (p : PendingApproval) → get k s.pending ≡ some p → p.timeout_id < s.fresh

create-IsArmed :
    (timeout_ms now : ℕ) (options : CreateApprovalOptions) (s : Approvals)
    → IsArmed s
    → IsArmed (create_pending_approval timeout_ms now options s)
unfolding create_pending_approval get_timer
create-IsArmed timeout_ms now options s h =
    let v : PendingApproval = pending_approval timeout_ms now options s.fresh in
    let id : Str = options.request.request_id in
    record {
      armed = λ k p e.
          ground (arith, get-set id k v s.pending, str_eq_iff id k, h.armed k p, h.aged k p);
      aged = λ k p e. ground (arith, get-set id k v s.pending, h.aged k p);
    }

-- Settling one request leaves the timers of the others alone.
settled-IsArmed :
    (k : Str) (id : ℕ) (s : Approvals) (closing resolved : List (ℕ × ApprovalResult))
    → IsArmed s
    → get_timer id s.timers ≡ some k
    → IsArmed (record {
      pending = delete k s.pending;
      timers = clear_timeout id s.timers;
      closing = closing;
      resolved = resolved;
      fresh = s.fresh;
    })
settled-IsArmed k id s closing resolved h e = record {
  armed = λ j q f. ground (
    arith,
    get-delete k j s.pending,
    str_eq_iff k j,
    get_timer-clear_timeout q.timeout_id id s.timers,
    h.armed j q,
  );
  aged = λ j q f. ground (arith, get-delete k j s.pending, h.aged j q);
}

resolve-IsArmed :
    (now : ℕ) (k : Str) (approved : Bool) (s : Approvals)
    → IsArmed s
    → IsArmed (resolve_pending_approval now k approved s).0
unfolding resolve_pending_approval
resolve-IsArmed now k approved s h = elim (Option-cases (get k s.pending)) [
  | inl e ↦ rw e h
  | inr (p, e) ↦ rw e (settled-IsArmed k p.timeout_id s s.closing _ h (h.armed k p e))
]

-- A timer clears its own request: the one that the store has under its id, if that is its own.
fire-IsArmed : (timeout_ms id : ℕ) (s : Approvals) → IsArmed s → IsArmed (fire timeout_ms id s)
unfolding fire handle_timeout
fire-IsArmed timeout_ms id s h = elim (Option-cases (get_timer id s.timers)) [
  | inl e ↦ rw e h
  | inr (k, e) ↦ elim (Option-cases (get k s.pending)) [
    | inl f ↦ rw e (
        rw f (record {
          armed = λ j q g.
              ground (arith, get_timer-clear_timeout q.timeout_id id s.timers, h.armed j q g);
          aged = h.aged;
        }))
    | inr (p, f) ↦ rw e (rw f (settled-IsArmed k id s _ s.resolved h e))
  ]
]

finish_timeout-IsArmed : (i : ℕ) (s : Approvals) → IsArmed s → IsArmed (finish_timeout i s)
unfolding finish_timeout
finish_timeout-IsArmed i s h = elim (Option-cases (pick i s.closing)) [
  | inl e ↦ rw e h
  | inr (c, e) ↦ rw e (record { armed = h.armed; aged = h.aged })
]

cleanup-IsArmed : (s : Approvals) → IsArmed (cleanup_all_pending s)
unfolding cleanup_all_pending get
cleanup-IsArmed s = record { armed = λ k p e. absurd (cc); aged = λ k p e. absurd (cc) }

module _ (config : Config) (telegram : Telegram) where
  Transition-IsArmed : {s t : Approvals} → Transition config telegram s t → IsArmed s → IsArmed t
  Transition-IsArmed (requested {s} now secret body) h =
      elim (request-IsRequested config telegram now s secret body) [
        | inl e ↦ rw e h
        | inr (options, e) ↦ rw e (create-IsArmed config.tfa_approval_timeout_ms now options s h)
      ]
  Transition-IsArmed (pressed {s} now update) h = elim (webhook-IsPressed now s update) [
    | inl e ↦ rw e h
    | inr (d, parsed, p, sent, parse, found, e) ↦
        rw e (resolve-IsArmed now parsed.request_id (is_approve parsed) s h)
  ]
  Transition-IsArmed (expired {s} id) h = fire-IsArmed config.tfa_approval_timeout_ms id s h
  Transition-IsArmed (reported {s} i) h = finish_timeout-IsArmed i s h
  Transition-IsArmed (stopped {s}) h = cleanup-IsArmed s

  Reach-IsArmed : {s : Approvals} → Reach config telegram no_approvals s → IsArmed s
  unfolding get
  Reach-IsArmed here = record { armed = λ k p e. absurd (cc); aged = λ k p e. absurd (cc) }
  Reach-IsArmed (next past step) = Transition-IsArmed step (Reach-IsArmed past)

  -- In every history of the server, a request that waits has a timer of its own. When that timer runs
  -- out and Telegram answers, the request is gone from the store and its promise is settled with the
  -- refusal of a timeout.
  pub fire-settles :
      (s : Approvals) (k : Str) (p : PendingApproval)
      → Reach config telegram no_approvals s
      → get k s.pending ≡ some p
      → let ms = config.tfa_approval_timeout_ms in
        let t = finish_timeout 0 (fire ms p.timeout_id s) in
        (get_timer p.timeout_id s.timers ≡ some k)
        × (get k t.pending ≡ none)
        × (t.resolved ≡ (p.resolve, timeout_result ms) ∷ s.resolved)
  unfolding fire handle_timeout finish_timeout pick
  fire-settles s k p past found =
      let armed = (Reach-IsArmed past).armed k p found in
      ground (arith, armed, get-delete k k s.pending, str_eq_refl k)
