-- ===== src/Keyring/Refusals.antt =====
-- How the proxy answers when the second-factor server refuses.
use siwa.Base.{
  ℕ, ◌/◌, Bool, true, false, ◌||◌, none, some, List, [], ◌∷◌, ◌++◌, ◌≡◌, refl, arith, if◌then◌else◌,
  ap, ◌∙◌,
}
use siwa.Base.Json.{Json, str}
use siwa.Base.Numbers.{show_nat}
use siwa.Base.Str.{Str, text, contains, starts_with}
use siwa.Approvals.{ApprovalResult, timeout_result, user_result, shutdown_result}
use siwa.Erc8128.Steps.{returns}
use siwa.Keyring.Approval.{refusal_status}

-- The member `reason` of a result of the second-factor server, as the proxy reads it.
abbrev pub reason_of : ApprovalResult → siwa.Base.Option Json
reason_of result = elim result.reason [ none ↦ none | some s ↦ some (str s) ]

starts_with-append : (p s : Str) → starts_with (p ++ s) p ≡ true
unfolding starts_with
starts_with-append [] s = refl
starts_with-append (c ∷ p) s = ground (arith, starts_with-append p s)

contains-prefix : (p s : Str) → contains (p ++ s) p ≡ true
unfolding contains starts_with
contains-prefix [] [] = refl
contains-prefix [] (c ∷ s) = refl
contains-prefix (c ∷ p) s = rw (starts_with-append (c ∷ p) s) refl

-- A request that timed out is answered with 408; one that the user rejected, and one that was pending when
-- the server stopped, with 403. The answer carries the reason of the second-factor server.
pub refusal_status-reason_of :
    (timeout_ms ms : ℕ)
    → (refusal_status (reason_of (timeout_result timeout_ms))
        ≡ returns
            (text "2FA rejected: Timeout (" ++ (show_nat (timeout_ms / 1000) ++ text "s)"), 408))
      × (refusal_status (reason_of (user_result false ms))
          ≡ returns (text "2FA rejected: User rejected the request", 403))
      × (refusal_status (reason_of shutdown_result)
          ≡ returns (text "2FA rejected: Server shutdown", 403))
unfolding refusal_status contains starts_with timeout_result user_result shutdown_result text
refusal_status-reason_of timeout_ms ms = (
  ap
      (λ late. returns (
        text "2FA rejected: Timeout (" ++ (show_nat (timeout_ms / 1000) ++ text "s)"),
        if late then 408 else 403,
      ))
      (contains-prefix (text "Timeout") (text " (" ++ (show_nat (timeout_ms / 1000) ++ text "s)"))),
  refl,
  refl,
)
