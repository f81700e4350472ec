-- ===== src/Erc8128/Replay.antt =====
-- A key of a request is accepted once while its entry lives.
use siwa.Base.{ℕ, ◌+◌, ◌*◌, ◌≤◌, true, false, not, some, List, [], ◌∷◌, ltb, arith, ◌≡◌, All}
use siwa.Base.JsMap.{get, retain, IsMap, get-set, get-retain, set-IsMap, retain-IsMap}
use siwa.Base.Str.{Str}
use siwa.Base.Str.Laws.{str_eq_refl, str_eq_iff}
use siwa.Erc8128.{Seen, consume_key}

-- One call: the time, the key and its time to live in seconds.
abbrev pub Consumption : Type 0
Consumption = ℕ × Str × ℕ

unfoldable pub run : Seen → List Consumption → Seen
run seen [] = seen
run seen ((now, key, ttl) ∷ cs) = run (consume_key now key ttl seen).0 cs

abbrev pub UpTo : ℕ → Consumption → Type 0
UpTo expiry (now, key, ttl) = now ≤ expiry

live : ℕ → Seen → Seen
live now seen = retain (λ expiry. not (ltb expiry now)) seen

get-live :
    (now : ℕ) (key : Str) (seen : Seen) (expiry : ℕ)
    → IsMap seen
    → get key seen ≡ some expiry
    → now ≤ expiry
    → get key (live now seen) ≡ some expiry
unfolding live
get-live now key seen expiry h e le =
    ground (arith, get-retain (λ (x : ℕ). not (ltb x now)) key seen h)

consume_key-IsMap :
    (now : ℕ) (key : Str) (ttl : ℕ) (seen : Seen)
    → IsMap seen
    → IsMap (consume_key now key ttl seen).0
unfolding consume_key live
consume_key-IsMap now key ttl seen h =
    let kept = retain-IsMap (λ (x : ℕ). not (ltb x now)) seen h in
    ground (arith, kept, set-IsMap key (now + ttl * 1000) (live now seen) kept)

consume_key-keeps :
    (now : ℕ) (key other : Str) (ttl : ℕ) (seen : Seen) (expiry : ℕ)
    → IsMap seen
    → get key seen ≡ some expiry
    → now ≤ expiry
    → get key (consume_key now other ttl seen).0 ≡ some expiry
unfolding consume_key live
consume_key-keeps now key other ttl seen expiry h e le = ground (
  arith,
  str_eq_iff other key,
  get-set other key (now + ttl * 1000) (live now seen),
  get-live now key seen expiry h e le,
)

run-refuses :
    (key : Str) (expiry : ℕ) (seen : Seen) (cs : List Consumption) (now ttl : ℕ)
    → IsMap seen
    → get key seen ≡ some expiry
    → All (UpTo expiry) cs
    → now ≤ expiry
    → (consume_key now key ttl (run seen cs)).1 ≡ false
unfolding run consume_key live
run-refuses key expiry seen [] now ttl h e l le =
    ground (arith, get-live now key seen expiry h e le)
run-refuses key expiry seen ((at_time, other, t) ∷ cs) now ttl h e l le =
    run-refuses key expiry (consume_key at_time other t seen).0 cs now ttl
      (consume_key-IsMap at_time other t seen h)
      (consume_key-keeps at_time key other t seen expiry h e l.0) l.1 le

get-consume_key :
    (now : ℕ) (key : Str) (ttl : ℕ) (seen : Seen)
    → (consume_key now key ttl seen).1 ≡ true
    → get key (consume_key now key ttl seen).0 ≡ some (now + ttl * 1000)
unfolding consume_key live
get-consume_key now key ttl seen e =
    ground (arith, get-set key key (now + ttl * 1000) (live now seen), str_eq_refl key)

-- A key that was accepted is refused until its time to live has passed, whatever is consumed in
-- between.
pub consume_key-replay :
    (key : Str) (seen : Seen) (first ttl again later : ℕ) (cs : List Consumption)
    → IsMap seen
    → (consume_key first key ttl seen).1 ≡ true
    → All (UpTo (first + ttl * 1000)) cs
    → later ≤ first + ttl * 1000
    → (consume_key later key again (run (consume_key first key ttl seen).0 cs)).1 ≡ false
consume_key-replay key seen first ttl again later cs h e l le =
    run-refuses key (first + ttl * 1000) (consume_key first key ttl seen).0 cs later again
      (consume_key-IsMap first key ttl seen h) (get-consume_key first key ttl seen e) l le
