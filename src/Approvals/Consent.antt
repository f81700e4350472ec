-- ===== src/Approvals/Consent.antt =====
-- What it takes for a request to be approved.
use siwa.Base.{
  ℕ, zero, suc, Option, ap, sym, subst, ◌-◌, ◌∙◌, ◌+◌, ◌<◌, Bool, true, false, none, some, List, [],
  ◌∷◌, ◌++◌, ◌≡◌, ◌==◌, if◌then◌else◌, refl, arith, Option-cases, inl, inr, ◌⊎◌, Bool-cases,
}
use siwa.Base.Str.{Str, text}
use siwa.Base.JsMap.{JsMap, get}
use siwa.Approvals.{
  Approvals, ApprovalResult, PendingApproval, CreateApprovalOptions, no_approvals,
  create_pending_approval, fire, handle_timeout, finish_timeout, cleanup_all_pending,
  resolve_pending_approval, pick, reject_each, clear_timeout, get_timer, timeout_result,
  user_result, shutdown_result,
}
use siwa.Approvals.Requests.{Config, Telegram}
use siwa.Approvals.Transitions.{
  Transition, Reach, requested, pressed, expired, reported, stopped, here, next,
  request-IsRequested, webhook-IsPressed, data_of,
}
use siwa.Approvals.Webhook.{
  TelegramUpdate, ParsedCallback, is_approve, parse_callback_data, handle_internal_webhook,
}
use siwa.Approvals.Buttons.{is_approve-true, parse_callback_data-some}
use siwa.Approvals.Once.{one, reject_each-rest}

-- How often a list of settlements approves the promise `q`.
unfoldable pub approvals : ℕ → List (ℕ × ApprovalResult) → ℕ
approvals q [] = 0
approvals q ((p, r) ∷ cs) = (if r.approved then one p q else 0) + approvals q cs

-- The settlements that wait for Telegram are refusals.
IsRefusing : List (ℕ × ApprovalResult) → Type 0
IsRefusing [] = Unit
IsRefusing ((p, r) ∷ cs) = (r.approved ≡ false) × IsRefusing cs

-- An update that reports the press of the button "approve" of the request that waits with the promise
-- `q`, which the webhook takes from the state `s` to the state `t`.
pub record IsApproval (q : ℕ) (s t : Approvals) : Type 0 where
  pub now : ℕ
  pub update : TelegramUpdate
  pub request_id : Str
  pub pending : PendingApproval
  pub button : data_of update.callback_query ≡ some (text "approve" ++ (b':' ∷ request_id))
  pub found : get request_id s.pending ≡ some pending
  pub promise : pending.resolve ≡ q
  pub handled : t ≡ (handle_internal_webhook now update s).0

module _ (config : Config) (telegram : Telegram) where
  -- The first approval of the promise in the history that leads to the state `s` is such a press.
  pub record WasApproved (q : ℕ) (s : Approvals) : Type 0 where
    pub before : Approvals
    pub behind : Approvals
    pub past : Reach config telegram no_approvals before
    pub not_yet : approvals q before.resolved ≡ 0
    pub press : IsApproval q before behind
    pub since : Reach config telegram behind s

  later :
      (q : ℕ) {s t : Approvals} → WasApproved q s → Transition config telegram s t → WasApproved q t
  later q was step = record {
    before = was.before;
    behind = was.behind;
    past = was.past;
    not_yet = was.not_yet;
    press = was.press;
    since = next was.since step;
  }

abbrev Refuses : Option ((ℕ × ApprovalResult) × List (ℕ × ApprovalResult)) → Type 0
Refuses none = Unit
Refuses (some (c, rest)) = (c.1.approved ≡ false) × IsRefusing rest

pick-Refuses : (i : ℕ) (cs : List (ℕ × ApprovalResult)) → IsRefusing cs → Refuses (pick i cs)
unfolding pick IsRefusing
pick-Refuses i [] h = tt
pick-Refuses zero ((p, r) ∷ cs) h = h
pick-Refuses (suc i) ((p, r) ∷ cs) h = ground (arith, pick-Refuses i cs)

approvals-reject_each :
    (q : ℕ) (m : JsMap PendingApproval) (s : Approvals)
    → approvals q (reject_each m s).resolved ≡ approvals q s.resolved
unfolding reject_each approvals shutdown_result
approvals-reject_each q [] s = refl
approvals-reject_each q ((k, p) ∷ m) s = omega (
  arith,
  approvals-reject_each q m (record s {
    timers = clear_timeout p.timeout_id s.timers;
    resolved = (p.resolve, shutdown_result) ∷ s.resolved;
  }),
)

fire-IsRefusing :
    (timeout_ms id : ℕ) (s : Approvals)
    → IsRefusing s.closing
    → IsRefusing (fire timeout_ms id s).closing × ((fire timeout_ms id s).resolved ≡ s.resolved)
unfolding fire handle_timeout timeout_result IsRefusing
fire-IsRefusing timeout_ms id s h = elim (Option-cases (get_timer id s.timers)) [
  | inl e ↦ rw e (h, refl)
  | inr (k, e) ↦ elim (Option-cases (get k s.pending)) [
    | inl f ↦ rw e (rw f (h, refl))
    | inr (p, f) ↦ rw e (rw f ((refl, h), refl))
  ]
]

settle-approvals :
    (q p ms : ℕ) (approved : Bool) (cs : List (ℕ × ApprovalResult))
    → (approvals q ((p, user_result approved ms) ∷ cs) ≡ approvals q cs)
      ⊎ ((approved ≡ true) × (p ≡ q))
unfolding approvals user_result
settle-approvals q p ms false cs = inl (omega arith)
settle-approvals q p ms true cs = elim (Bool-cases (p == q)) [
  | inl same ↦ inr (refl, ground arith)
  | inr other ↦ inl (ground arith)
]

press-approvals :
    (q now : ℕ) (s : Approvals) (parsed : ParsedCallback) (p : PendingApproval)
    → get parsed.request_id s.pending ≡ some p
    → let t = (resolve_pending_approval now parsed.request_id (is_approve parsed) s).0 in
      (t.closing ≡ s.closing)
      × ((approvals q t.resolved ≡ approvals q s.resolved)
          ⊎ ((is_approve parsed ≡ true) × (p.resolve ≡ q)))
unfolding resolve_pending_approval
press-approvals q now s parsed p found =
    rw found
      (refl, settle-approvals q p.resolve (now - p.created_at) (is_approve parsed) s.resolved)

pressed-IsApproval :
    (q now : ℕ) (s : Approvals) (update : TelegramUpdate) (pressed_data : Str)
    (parsed : ParsedCallback) (p : PendingApproval)
    → data_of update.callback_query ≡ some pressed_data
    → parse_callback_data pressed_data ≡ some parsed
    → get parsed.request_id s.pending ≡ some p
    → is_approve parsed ≡ true
    → p.resolve ≡ q
    → IsApproval q s (handle_internal_webhook now update s).0
pressed-IsApproval q now s update pressed_data parsed p sent parse found agreed promise = record {
  now = now;
  update = update;
  request_id = parsed.request_id;
  pending = p;
  button =
      sent
      ∙ ap some (
          parse_callback_data-some pressed_data parsed parse
          ∙ ap (λ a. a ++ (b':' ∷ parsed.request_id)) (is_approve-true parsed agreed));
  found = found;
  promise = promise;
  handled = refl;
}

created :
    (q timeout_ms now : ℕ) (options : CreateApprovalOptions) (s : Approvals)
    → IsRefusing s.closing
    → let t = create_pending_approval timeout_ms now options s in
      IsRefusing t.closing × (approvals q t.resolved ≡ approvals q s.resolved)
unfolding create_pending_approval
created q timeout_ms now options s h = (h, refl)

finish-approvals :
    (q i : ℕ) (s : Approvals)
    → IsRefusing s.closing
    → IsRefusing (finish_timeout i s).closing
      × (approvals q (finish_timeout i s).resolved ≡ approvals q s.resolved)
unfolding finish_timeout approvals
finish-approvals q i s h = ground (arith, pick-Refuses i s.closing h)

cleanup-approvals :
    (q : ℕ) (s : Approvals)
    → IsRefusing s.closing
    → IsRefusing (cleanup_all_pending s).closing
      × (approvals q (cleanup_all_pending s).resolved ≡ approvals q s.resolved)
unfolding cleanup_all_pending
cleanup-approvals q s h =
    let closing = (reject_each-rest s.pending s).0 in
    (subst IsRefusing (sym closing) h, approvals-reject_each q s.pending s)

module _ (config : Config) (telegram : Telegram) where
  Transition-approvals :
      (q : ℕ) {s t : Approvals}
      → Transition config telegram s t
      → IsRefusing s.closing
      → IsRefusing t.closing
        × ((approvals q t.resolved ≡ approvals q s.resolved) ⊎ IsApproval q s t)
  Transition-approvals q (requested {s} now secret body) h =
      elim (request-IsRequested config telegram now s secret body) [
        | inl e ↦ rw e (h, inl refl)
        | inr (options, e) ↦
            let (closing, same) = created q config.tfa_approval_timeout_ms now options s h in
            rw e (closing, inl same)
      ]
  Transition-approvals q (pressed {s} now update) h = elim (webhook-IsPressed now s update) [
    | inl e ↦
        (subst (λ x. IsRefusing x.closing) (sym e) h, inl (ap (λ x. approvals q x.resolved) e))
    | inr (d, parsed, p, sent, parse, found, e) ↦
        let (kept, result) = press-approvals q now s parsed p found in
        (
          subst (λ x. IsRefusing x.closing) (sym e) (subst IsRefusing (sym kept) h),
          elim result [
            | inl same ↦ inl (ap (λ x. approvals q x.resolved) e ∙ same)
            | inr (agreed, promise) ↦
                inr (pressed-IsApproval q now s update d parsed p sent parse found agreed promise)
          ],
        )
  ]
  Transition-approvals q (expired {s} id) h =
      let (closing, same) = fire-IsRefusing config.tfa_approval_timeout_ms id s h in
      (closing, inl (ap (approvals q) same))
  Transition-approvals q (reported {s} i) h =
      let (closing, same) = finish-approvals q i s h in (closing, inl same)
  Transition-approvals q (stopped {s}) h =
      let (closing, same) = cleanup-approvals q s h in (closing, inl same)

  Reach-approvals :
      (q : ℕ) {s : Approvals}
      → Reach config telegram no_approvals s
      → IsRefusing s.closing × ((approvals q s.resolved ≡ 0) ⊎ WasApproved config telegram q s)
  unfolding approvals IsRefusing
  Reach-approvals q here = (tt, inl refl)
  Reach-approvals q (next {t} {u} past step) =
      let (closing, before) = Reach-approvals q past in
      let (closing', now) = Transition-approvals q step closing in
      (
        closing',
        elim before [
          | inr was ↦ inr (later config telegram q was step)
          | inl none_yet ↦ elim now [
            | inl same ↦ inl (same ∙ none_yet)
            | inr press ↦ inr (record {
              before = t;
              behind = u;
              past = past;
              not_yet = none_yet;
              press = press;
              since = here;
            })
          ]
        ],
      )

  -- A promise is settled with an approval only if, in the history that leads to that state, an update
  -- arrived that reports a press of a button whose data are "approve:" and the id of a request that was
  -- then waiting with this promise; the promise had no approval before that press.
  pub approvals-pressed :
      (q : ℕ) (s : Approvals)
      → Reach config telegram no_approvals s
      → 0 < approvals q s.resolved
      → WasApproved config telegram q s
  approvals-pressed q s past h = elim ((Reach-approvals q past).1) [
    | inl never ↦ absurd (omega arith)
    | inr was ↦ was
  ]
