-- ===== src/NonceStore/Once.antt =====
-- No nonce is accepted more often than it was issued.
use siwa.Base.{
  ℕ, ◌+◌, ◌≤◌, false, ◌&&◌, not, none, List, [], ◌∷◌, if◌then◌else◌, ltb, is_some, arith, ◌≡◌,
}
use siwa.Base.Str.{Str, str_eq}
use siwa.Base.Str.Laws.{str_eq_iff}
use siwa.Base.JsMap.{get, has, IsMap, get-set, get-delete, get-retain}
use siwa.NonceStore.{
  Nonces, cleanup, issue, consume, consume_entry, Call, issues, consumes, step, step-IsMap,
}

-- How often a run of calls issues, and accepts, the nonce `n`.
issued : Str → Nonces → Call → ℕ
issued n m (issues now later k ttl) = if str_eq k n && (issue now later k ttl m).1 then 1 else 0
issued n m (consumes now later k) = 0

accepted : Str → Nonces → Call → ℕ
accepted n m (issues now later k ttl) = 0
accepted n m (consumes now later k) = if str_eq k n && (consume now later k m).1 then 1 else 0

unfoldable pub issued_count : Str → Nonces → List Call → ℕ
unfolding issued
issued_count n m [] = 0
issued_count n m (c ∷ cs) = issued n m c + issued_count n (step m c).0 cs

unfoldable pub accepted_count : Str → Nonces → List Call → ℕ
unfolding accepted
accepted_count n m [] = 0
accepted_count n m (c ∷ cs) = accepted n m c + accepted_count n (step m c).0 cs

abbrev pub present : Str → Nonces → ℕ
present n m = if has n m then 1 else 0

get-cleanup :
    (now : ℕ) (n : Str) (m : Nonces)
    → IsMap m
    → is_some (get n m) ≡ false
    → get n (cleanup now m) ≡ none
unfolding cleanup
get-cleanup now n m h e = ground (arith, get-retain (λ (expiry : ℕ). not (ltb expiry now)) n m h)

step-credit :
    (n : Str) (m : Nonces) (c : Call)
    → IsMap m
    → accepted n m c + present n (step m c).0 ≤ issued n m c + present n m
unfolding step accepted issued issue consume consume_entry
step-credit n m (issues now later k ttl) h =
    ground (arith, str_eq_iff k n, get-set k n (later + ttl) (cleanup now m), get-cleanup now n m h)
step-credit n m (consumes now later k) h =
    ground (arith, str_eq_iff k n, get-delete k n (cleanup now m), get-cleanup now n m h)

run-credit :
    (n : Str) (m : Nonces) (cs : List Call)
    → IsMap m
    → accepted_count n m cs ≤ issued_count n m cs + present n m
unfolding accepted_count issued_count
run-credit n m [] h = omega arith
run-credit n m (c ∷ cs) h =
    omega (arith, step-credit n m c h, run-credit n (step m c).0 cs (step-IsMap m c h))

-- In every history of a store that starts empty, each nonce is accepted at most as often as it was
-- issued.
pub accepted-le-issued : (n : Str) (cs : List Call) → accepted_count n [] cs ≤ issued_count n [] cs
unfolding get
accepted-le-issued n cs = omega (arith, run-credit n [] cs tt)
