-- ===== src/NonceStore/Refinement.antt =====
-- What the in-memory store promises, without its bookkeeping: a table of expiries that nothing is
-- swept from.
use siwa.Base.{
  ℕ, ◌+◌, ◌≤◌, Bool, true, false, not, Option, none, some, List, [], ◌∷◌, if◌then◌else◌, ltb, leb,
  is_some, arith, ◌≡◌, refl, ap₂,
}
use siwa.Base.Str.{Str, str_eq}
use siwa.Base.Str.Laws.{str_eq_iff}
use siwa.Base.JsMap.{get, IsMap, get-set, get-delete, get-retain}
use siwa.NonceStore.{
  Nonces, cleanup, issue, consume, consume_entry, Call, issues, consumes, step, step-IsMap,
}

-- The expiry that each nonce was last issued with, until it is consumed.
abbrev pub Promised : Type 0
Promised = Str → Option ℕ

-- The nonce where it has not expired.
unfoldable pub alive : ℕ → Option ℕ → Option ℕ
alive now none = none
alive now (some expiry) = if leb now expiry then some expiry else none

unfoldable pub assign : Str → Option ℕ → Promised → Promised
assign k v s n = if str_eq k n then v else s n

unfoldable pub promised_step : Promised → Call → Promised × Bool
unfolding alive assign
promised_step s (issues now later n ttl) =
    if is_some (alive now (s n)) then (s, false) else (assign n (some (later + ttl)) s, true)
promised_step s (consumes now later n) = (assign n none s, is_some (alive later (s n)))

-- The answers to the calls, by the store and by the promise.
unfoldable pub answers : Nonces → List Call → List Bool
unfolding step
answers m [] = []
answers m (c ∷ cs) = (step m c).1 ∷ answers (step m c).0 cs

unfoldable pub promised_answers : Promised → List Call → List Bool
unfolding promised_step
promised_answers s [] = []
promised_answers s (c ∷ cs) = (promised_step s c).1 ∷ promised_answers (promised_step s c).0 cs

-- The clock does not run backwards.
abbrev pub started : Call → ℕ
started (issues now later n ttl) = now
started (consumes now later n) = now

abbrev pub ended : Call → ℕ
ended (issues now later n ttl) = later
ended (consumes now later n) = later

abbrev pub IsTimed : ℕ → List Call → Type 0
IsTimed t [] = Unit
IsTimed t (c ∷ cs) = (t ≤ started c) × ((started c ≤ ended c) × IsTimed (ended c) cs)

-- From the time `t` on, the store holds the unexpired nonces of the promise.
unfoldable pub Keeps : ℕ → Nonces → Promised → Type 0
Keeps t m s = (n : Str) (now : ℕ) → t ≤ now → alive now (get n m) ≡ alive now (s n)

get-cleanup :
    (now : ℕ) (n : Str) (m : Nonces) → IsMap m → get n (cleanup now m) ≡ alive now (get n m)
unfolding cleanup alive
get-cleanup now n m h = ground (arith, get-retain (λ (x : ℕ). not (ltb x now)) n m h)

alive-alive :
    (now later : ℕ) (v : Option ℕ) → now ≤ later → alive later (alive now v) ≡ alive later v
unfolding alive
alive-alive now later none le = refl
alive-alive now later (some expiry) le = ground arith

pub step-answer :
    (t : ℕ) (m : Nonces) (s : Promised) (c : Call)
    → IsMap m
    → Keeps t m s
    → t ≤ started c
    → started c ≤ ended c
    → (step m c).1 ≡ (promised_step s c).1
unfolding step issue consume consume_entry promised_step Keeps
step-answer t m s (issues now later k ttl) h e le le' =
    ground (arith, get-cleanup now k m h, e k now le)
step-answer t m s (consumes now later k) h e le le' =
    ground (arith, get-cleanup now k m h, e k now le)

pub step-Keeps :
    (t : ℕ) (m : Nonces) (s : Promised) (c : Call)
    → IsMap m
    → Keeps t m s
    → t ≤ started c
    → started c ≤ ended c
    → Keeps (ended c) (step m c).0 (promised_step s c).0
unfolding step issue consume consume_entry promised_step Keeps alive assign
step-Keeps t m s (issues now later k ttl) h e le le' n at lt = ground (
  arith,
  get-set k n (later + ttl) (cleanup now m),
  get-cleanup now n m h,
  get-cleanup now k m h,
  e k now le,
  e n at (omega arith),
  str_eq_iff k n,
)
step-Keeps t m s (consumes now later k) h e le le' n at lt = ground (
  arith,
  get-delete k n (cleanup now m),
  get-cleanup now n m h,
  e n at (omega arith),
  str_eq_iff k n,
)

answers-Keeps :
    (t : ℕ) (m : Nonces) (s : Promised) (cs : List Call)
    → IsMap m
    → Keeps t m s
    → IsTimed t cs
    → answers m cs ≡ promised_answers s cs
unfolding answers promised_answers
answers-Keeps t m s [] h e l = refl
answers-Keeps t m s (c ∷ cs) h e l =
    ap₂ (λ b bs. b ∷ bs) (step-answer t m s c h e l.0 l.1.0)
      (answers-Keeps (ended c) (step m c).0 (promised_step s c).0 cs (step-IsMap m c h)
        (step-Keeps t m s c h e l.0 l.1.0) l.1.1)

-- A store that starts empty gives the same answers to every history of calls whose clock does not run
-- backwards as the table that nothing is swept from: the clean-up cannot be observed.
pub answers-promised :
    (t : ℕ) (cs : List Call) → IsTimed t cs → answers [] cs ≡ promised_answers (λ n. none) cs
unfolding Keeps get
answers-promised t cs l = answers-Keeps t [] (λ n. none) cs tt (λ n now le. refl) l
