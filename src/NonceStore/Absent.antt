-- ===== src/NonceStore/Absent.antt =====
-- A nonce that the in-memory store does not hold.
use siwa.Base.{ℕ, ◌+◌, false, not, none, List, [], ◌∷◌, ltb, arith, ◌≡◌, All}
use siwa.Base.Str.{Str, str_eq}
use siwa.Base.Str.Laws.{str_eq_refl}
use siwa.Base.JsMap.{get, get-set, get-delete, get-retain-none}
use siwa.NonceStore.{
  Nonces, cleanup, issue, consume, consume_entry, Call, issues, consumes, step, run,
}

cleanup-absent : (now : ℕ) (n : Str) (m : Nonces) → get n m ≡ none → get n (cleanup now m) ≡ none
unfolding cleanup
cleanup-absent now n m h = get-retain-none (λ (x : ℕ). not (ltb x now)) n m h

pub consume-absent :
    (now later : ℕ) (n : Str) (m : Nonces) → get n m ≡ none → (consume now later n m).1 ≡ false
unfolding consume consume_entry
consume-absent now later n m h = ground (arith, cleanup-absent now n m h)

pub get-consume : (now later : ℕ) (n : Str) (m : Nonces) → get n (consume now later n m).0 ≡ none
unfolding consume consume_entry
get-consume now later n m = ground (arith, get-delete n n (cleanup now m), str_eq_refl n)

-- A call that does not issue the nonce.
abbrev pub DoesNotIssue : Str → Call → Type 0
DoesNotIssue n (issues now later k ttl) = str_eq k n ≡ false
DoesNotIssue n (consumes now later k) = Unit

step-absent :
    (n : Str) (c : Call) (m : Nonces)
    → DoesNotIssue n c
    → get n m ≡ none
    → get n (step m c).0 ≡ none
unfolding step issue consume consume_entry
step-absent n (issues now later k ttl) m d h =
    ground (arith, get-set k n (later + ttl) (cleanup now m), cleanup-absent now n m h)
step-absent n (consumes now later k) m d h =
    ground (arith, get-delete k n (cleanup now m), cleanup-absent now n m h)

pub run-absent :
    (n : Str) (cs : List Call) (m : Nonces)
    → All (DoesNotIssue n) cs
    → get n m ≡ none
    → get n (run m cs) ≡ none
unfolding run
run-absent n [] m d h = h
run-absent n (c ∷ cs) m d h = run-absent n cs (step m c).0 d.1 (step-absent n c m d.0 h)
