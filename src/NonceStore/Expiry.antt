-- ===== src/NonceStore/Expiry.antt =====
-- An issued nonce is accepted until it expires, and no longer.
use siwa.Base.{
  ℕ, ◌+◌, ◌≤◌, true, false, some, List, [], ◌∷◌, leb, arith, ◌≡◌, ◌∙◌, refl, ap, All, is_some,
}
use siwa.Base.Str.{Str, str_eq}
use siwa.Base.Str.Laws.{str_eq_refl}
use siwa.Base.JsMap.{get, IsMap, get-set}
use siwa.NonceStore.{Nonces, cleanup, issue, consume, Call, issues, consumes, step, run, step-IsMap}
use siwa.NonceStore.Refinement.{
  Promised, alive, assign, promised_step, ended, IsTimed, Keeps, step-answer, step-Keeps,
}

-- A call about another nonce.
abbrev pub Leaves : Str → Call → Type 0
Leaves n (issues now later k ttl) = str_eq k n ≡ false
Leaves n (consumes now later k) = str_eq k n ≡ false

promised_step-Leaves :
    (n : Str) (s : Promised) (c : Call) → Leaves n c → (promised_step s c).0 n ≡ s n
unfolding promised_step assign alive
promised_step-Leaves n s (issues now later k ttl) l = ground arith
promised_step-Leaves n s (consumes now later k) l = ground arith

is_some-alive : (later expiry : ℕ) → is_some (alive later (some expiry)) ≡ leb later expiry
unfolding alive
is_some-alive later expiry = ground arith

-- When the last call of a history ends.
unfoldable pub ended_after : ℕ → List Call → ℕ
ended_after t [] = t
ended_after t (c ∷ cs) = ended_after (ended c) cs

consume-promised :
    (n : Str) (t expiry now later : ℕ) (m : Nonces) (s : Promised) (cs : List Call)
    → IsMap m
    → Keeps t m s
    → s n ≡ some expiry
    → All (Leaves n) cs
    → IsTimed t cs
    → ended_after t cs ≤ now
    → now ≤ later
    → (consume now later n (run m cs)).1 ≡ leb later expiry
unfolding run ended_after step promised_step alive
consume-promised n t expiry now later m s [] h keeps e l timed le le' =
    step-answer t m s (consumes now later n) h keeps le le'
    ∙ (ap (λ v. is_some (alive later v)) e ∙ is_some-alive later expiry)
consume-promised n t expiry now later m s (c ∷ cs) h keeps e l timed le le' =
    consume-promised n (ended c) expiry now later (step m c).0 (promised_step s c).0 cs
      (step-IsMap m c h) (step-Keeps t m s c h keeps timed.0 timed.1.0)
      (promised_step-Leaves n s c l.0 ∙ e) l.1 timed.1.1 le le'

issue-IsMap :
    (now later : ℕ) (n : Str) (ttl : ℕ) (m : Nonces) → IsMap m → IsMap (issue now later n ttl m).0
unfolding step
issue-IsMap now later n ttl m h = step-IsMap m (issues now later n ttl) h

get-issue :
    (now later : ℕ) (n : Str) (ttl : ℕ) (m : Nonces)
    → (issue now later n ttl m).1 ≡ true
    → get n (issue now later n ttl m).0 ≡ some (later + ttl)
unfolding issue
get-issue now later n ttl m e =
    ground (arith, get-set n n (later + ttl) (cleanup now m), str_eq_refl n)

-- A nonce that was issued is accepted by the next call that consumes it exactly while its time to
-- live has not passed, whatever was done with other nonces in between, by calls whose clock readings do
-- not run backwards.
pub consume-run-issue :
    (m : Nonces) (n : Str) (issued_at set_at ttl now later : ℕ) (cs : List Call)
    → IsMap m
    → (issue issued_at set_at n ttl m).1 ≡ true
    → All (Leaves n) cs
    → IsTimed set_at cs
    → ended_after set_at cs ≤ now
    → now ≤ later
    → (consume now later n (run (issue issued_at set_at n ttl m).0 cs)).1 ≡ leb later (set_at + ttl)
unfolding Keeps
consume-run-issue m n issued_at set_at ttl now later cs h ok l timed le le' =
    let issued = (issue issued_at set_at n ttl m).0 in
    consume-promised n set_at (set_at + ttl) now later issued (λ k. get k issued) cs
      (issue-IsMap issued_at set_at n ttl m h) (λ k at lt. refl)
      (get-issue issued_at set_at n ttl m ok) l timed le le'
