-- ===== src/Approvals/Transitions.antt =====
-- What the approval server does between two waits, as a relation on its state, and the histories that
-- these steps make: packages/2fa-telegram/src/index.ts with approval-handler.ts, internal-webhook.ts and
-- approval-store.ts.
use siwa.Base.{
  ℕ, zero, suc, Bool, Option, none, some, ◌≡◌, refl, ◌⊎◌, inl, inr, ok, throws, Result, Bool-cases,
  Option-cases, ap, ◌∙◌, [], ◌∷◌,
}
use siwa.Base.Json.{Json}
use siwa.Base.JsMap.{get}
use siwa.Base.Str.{Str}
use siwa.Approvals.{
  Approvals, ApprovalRequest, PendingApproval, ApprovalResult, CreateApprovalOptions,
  create_pending_approval, fire, finish_timeout, cleanup_all_pending, resolve_pending_approval,
}
use siwa.Approvals.Requests.{
  Config, Telegram, delivered, formatted, validated, handle_approval_request,
  validate_approval_request, verify_internal_auth,
}
use siwa.Approvals.Webhook.{
  ParsedCallback, TelegramUpdate, TelegramCallbackQuery, replied, press, press_data, press_parsed,
  press_found, parse_callback_data, is_approve, handle_internal_webhook,
}

pub data Transition (config : Config) (telegram : Telegram) : Approvals → Approvals → Type 0 where
  requested :
      {s : Approvals} (now : ℕ) (secret : Option Str) (body : Json)
      → Transition config telegram s (handle_approval_request config telegram now secret body s).0
  pressed :
      {s : Approvals} (now : ℕ) (update : TelegramUpdate)
      → Transition config telegram s (handle_internal_webhook now update s).0
  expired :
      {s : Approvals} (id : ℕ)
      → Transition config telegram s (fire config.tfa_approval_timeout_ms id s)
  reported : {s : Approvals} (i : ℕ) → Transition config telegram s (finish_timeout i s)
  stopped : {s : Approvals} → Transition config telegram s (cleanup_all_pending s)

pub data Reach (config : Config) (telegram : Telegram) (s : Approvals) : Approvals → Type 0 where
  here : Reach config telegram s s
  next :
      {t u : Approvals}
      → Reach config telegram s t
      → Transition config telegram t u
      → Reach config telegram s u

module _ (config : Config) (telegram : Telegram) (now : ℕ) (s : Approvals) where
  -- The store as it was, or with one more request.
  abbrev pub IsRequested : Approvals → Type 0
  IsRequested t =
      (t ≡ s)
      ⊎ ((options : CreateApprovalOptions) × (t
            ≡ create_pending_approval config.tfa_approval_timeout_ms now options s))

  delivered-IsRequested :
      (request : ApprovalRequest) (id : Option ℕ)
      → IsRequested (delivered config telegram now request id s).0
  unfolding delivered
  delivered-IsRequested request none = inl refl
  delivered-IsRequested request (some zero) = inl refl
  delivered-IsRequested request (some (suc n)) = inr (_, refl)

  formatted-IsRequested :
      (request : ApprovalRequest) (message : Result Str)
      → IsRequested (formatted config telegram now request message s).0
  unfolding formatted
  formatted-IsRequested request (throws e) = inl refl
  formatted-IsRequested request (ok message) = delivered-IsRequested request _

  validated-IsRequested :
      (request : Option ApprovalRequest) → IsRequested (validated config telegram now request s).0
  unfolding validated
  validated-IsRequested none = inl refl
  validated-IsRequested (some request) = formatted-IsRequested request _

  pub request-IsRequested :
      (secret : Option Str) (body : Json)
      → IsRequested (handle_approval_request config telegram now secret body s).0
  unfolding handle_approval_request
  request-IsRequested secret body = elim (Bool-cases (verify_internal_auth config secret)) [
    | inl e ↦ rw e (validated-IsRequested (validate_approval_request body))
    | inr e ↦ rw e (inl refl)
  ]

-- The data of the button whose press an update reports.
abbrev pub data_of : Option TelegramCallbackQuery → Option Str
data_of none = none
data_of (some callback) = callback.callback_data

module _ (now : ℕ) (s : Approvals) where
  -- The store as it was, or with the request that the pressed button names settled.
  abbrev pub IsPressed : Option Str → Approvals → Type 0
  IsPressed sent t =
      (t ≡ s)
      ⊎ ((pressed_data : Str) × (parsed : ParsedCallback) × (p : PendingApproval) × (sent
            ≡ some pressed_data)
          × (parse_callback_data pressed_data ≡ some parsed)
          × (get parsed.request_id s.pending ≡ some p)
          × (t ≡ (resolve_pending_approval now parsed.request_id (is_approve parsed) s).0))

  replied-state :
      (approved : Bool) (r : Approvals × Option ApprovalResult) → (replied approved r).0 ≡ r.0
  replied-state approved (t, none) = refl
  replied-state approved (t, some result) = refl

  parsed-IsPressed :
      (pressed_data : Str) (parsed : Option ParsedCallback)
      → parse_callback_data pressed_data ≡ parsed
      → IsPressed (some pressed_data) (press_parsed now s parsed).0
  parsed-IsPressed pressed_data none e = inl refl
  parsed-IsPressed pressed_data (some parsed) e =
      elim (Option-cases (get parsed.request_id s.pending)) [
        | inl absent ↦ rw absent (inl refl)
        | inr (p, found) ↦ inr (
          pressed_data,
          parsed,
          p,
          refl,
          e,
          found,
          ap (λ o. (press_found now parsed s o).0) found ∙ replied-state (is_approve parsed) _,
        )
      ]

  data-IsPressed :
      (pressed_data : Option Str) → IsPressed pressed_data (press_data now s pressed_data).0
  data-IsPressed none = inl refl
  data-IsPressed (some []) = inl refl
  data-IsPressed (some (c ∷ t)) = parsed-IsPressed (c ∷ t) _ refl

  press-IsPressed :
      (callback : Option TelegramCallbackQuery)
      → IsPressed (data_of callback) (press now s callback).0
  press-IsPressed none = inl refl
  press-IsPressed (some callback) = data-IsPressed callback.callback_data

  pub webhook-IsPressed :
      (update : TelegramUpdate)
      → IsPressed (data_of update.callback_query) (handle_internal_webhook now update s).0
  unfolding handle_internal_webhook
  webhook-IsPressed update = press-IsPressed update.callback_query
