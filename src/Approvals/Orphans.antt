-- ===== src/Approvals/Orphans.antt =====
-- What becomes of a request whose id is used again while it waits.
use siwa.Base.{ℕ, ◌≤◌, some, ◌≡◌, arith, [], ◌∷◌, inl, inr}
use siwa.Base.Str.{Str}
use siwa.Base.JsMap.{JsMap, get}
use siwa.Approvals.{
  Approvals, PendingApproval, CreateApprovalOptions, no_approvals, pending_approval,
  create_pending_approval, fire, handle_timeout, finish_timeout, resolve_pending_approval,
}
use siwa.Approvals.Requests.{Config, Telegram}
use siwa.Approvals.Transitions.{
  Transition, Reach, requested, pressed, expired, reported, stopped, here, next,
  request-IsRequested, webhook-IsPressed,
}
use siwa.Approvals.Once.{held, calls, credit, held-set, Reach-credit, cleanup-resolved}

get-held :
    (k : Str) (p : PendingApproval) (m : JsMap PendingApproval)
    → get k m ≡ some p
    → 1 ≤ held p.resolve m
unfolding get held
get-held k p [] h = absurd (cc)
get-held k p ((j, w) ∷ m) h = ground (arith, get-held k p m)

module _ (config : Config) (telegram : Telegram) where
  -- The settlements that are made stay made.
  Transition-calls :
      (q : ℕ) {s t : Approvals}
      → Transition config telegram s t
      → calls q s.resolved ≤ calls q t.resolved
  unfolding create_pending_approval resolve_pending_approval calls fire handle_timeout
      finish_timeout
  Transition-calls q (requested {s} now secret body) =
      elim (request-IsRequested config telegram now s secret body) [
        | inl e ↦ rw e (omega arith)
        | inr (options, e) ↦ rw e (omega arith)
      ]
  Transition-calls q (pressed {s} now update) = elim (webhook-IsPressed now s update) [
    | inl e ↦ rw e (omega arith)
    | inr (d, parsed, p, sent, parse, found, e) ↦ rw e (ground arith)
  ]
  Transition-calls q (expired {s} id) = ground arith
  Transition-calls q (reported {s} i) = ground arith
  Transition-calls q (stopped {s}) = omega (arith, cleanup-resolved q s)

  Reach-calls :
      (q : ℕ) {s t : Approvals}
      → Reach config telegram s t
      → calls q s.resolved ≤ calls q t.resolved
  Reach-calls q here = omega arith
  Reach-calls q (next past step) = omega (arith, Reach-calls q past, Transition-calls q step)

  start-credit : (q : ℕ) → credit q no_approvals ≤ 1
  unfolding credit held calls
  start-credit q = ground arith

  -- A second request with the id of one that waits takes its place in the store: from then on, in every
  -- later history of the server, the promise of the first one is never settled, neither by the user nor
  -- by its timeout nor at shutdown.
  pub create-duplicate_orphans :
      (s t : Approvals) (p : PendingApproval) (now : ℕ) (options : CreateApprovalOptions)
      → Reach config telegram no_approvals s
      → get options.request.request_id s.pending ≡ some p
      → Reach config telegram
          (create_pending_approval config.tfa_approval_timeout_ms now options s)
          t
      → calls p.resolve t.resolved ≡ 0
  unfolding create_pending_approval credit
  create-duplicate_orphans s t p now options past found later =
      let v : PendingApproval =
        pending_approval config.tfa_approval_timeout_ms now options s.fresh in
      ground (
        arith,
        start-credit p.resolve,
        Reach-credit config telegram p.resolve past,
        get-held options.request.request_id p s.pending found,
        held-set p.resolve options.request.request_id v p s.pending found,
        Reach-credit config telegram p.resolve later,
      )
