-- ===== src/NonceStore.antt =====
-- packages/siwa/src/nonce-store.ts: the in-memory store. The bodies of its two methods do not wait, so
-- each runs as one step; `now` is the clock as `cleanup` reads it, `later` as the method does.
pub mod Once
pub mod Refinement
pub mod Expiry
pub mod Remote
pub mod Absent
use siwa.Base.{
  ℕ, ◌+◌, Bool, true, false, not, Option, none, some, List, [], ◌∷◌, if◌then◌else◌, ltb, leb, arith,
}
use siwa.Base.Str.{Str}
use siwa.Base.JsMap.{
  JsMap, get, has, set, delete, retain, IsMap, set-IsMap, delete-IsMap, retain-IsMap,
}

-- nonce → expiry
abbrev pub Nonces : Type 0
Nonces = JsMap ℕ

pub cleanup : ℕ → Nonces → Nonces
cleanup now nonces = retain (λ expiry. not (ltb expiry now)) nonces

unfoldable pub issue : (now later : ℕ) → Str → ℕ → Nonces → Nonces × Bool
unfolding cleanup
issue now later nonce ttl nonces =
    let live = cleanup now nonces in
    if has nonce live then (live, false) else (set nonce (later + ttl) live, true)

consume_entry : ℕ → Str → Nonces → Option ℕ → Nonces × Bool
consume_entry later nonce live none = (live, false)
consume_entry later nonce live (some expiry) = (delete nonce live, leb later expiry)

unfoldable pub consume : (now later : ℕ) → Str → Nonces → Nonces × Bool
unfolding cleanup consume_entry
consume now later nonce nonces =
    let live = cleanup now nonces in consume_entry later nonce live (get nonce live)

pub data Call : Type 0 where
  issues : (now later : ℕ) → Str → ℕ → Call
  consumes : (now later : ℕ) → Str → Call

unfoldable pub step : Nonces → Call → Nonces × Bool
step nonces (issues now later nonce ttl) = issue now later nonce ttl nonces
step nonces (consumes now later nonce) = consume now later nonce nonces

unfoldable pub run : Nonces → List Call → Nonces
run nonces [] = nonces
run nonces (c ∷ cs) = run (step nonces c).0 cs

pub cleanup-IsMap : (now : ℕ) (m : Nonces) → IsMap m → IsMap (cleanup now m)
unfolding cleanup
cleanup-IsMap now m h = retain-IsMap (λ expiry. not (ltb expiry now)) m h

pub step-IsMap : (m : Nonces) (c : Call) → IsMap m → IsMap (step m c).0
unfolding step issue consume consume_entry
step-IsMap m (issues now later n ttl) h =
    let live = cleanup-IsMap now m h in
    ground (arith, live, set-IsMap n (later + ttl) (cleanup now m) live)
step-IsMap m (consumes now later n) h =
    let live = cleanup-IsMap now m h in ground (arith, live, delete-IsMap n (cleanup now m) live)

pub run-IsMap : (m : Nonces) (cs : List Call) → IsMap m → IsMap (run m cs)
unfolding run
run-IsMap m [] h = h
run-IsMap m (c ∷ cs) h = run-IsMap (step m c).0 cs (step-IsMap m c h)
