-- ===== src/Gateway/Limit.antt =====
-- How many requests of one address the gateway lets in.
use siwa.Base.{
  ℕ, ◌+◌, ◌≤◌, ◌<◌, Bool, false, ◌&&◌, not, List, [], ◌∷◌, ◌++◌, if◌then◌else◌, leb, length,
  or_else, ◌≡◌, refl, arith, ap, sym, subst, ◌∙◌, Bool-cases, inl, inr,
}
use siwa.Base.JsMap.{get, set, get-set}
use siwa.Base.Str.{Str, str_eq}
use siwa.Base.Str.Laws.{str_eq_refl, eq_of_str_eq}
use siwa.Gateway.{RateLimits, in_window, recent, limited, is_rate_limited, rate_limit_max_requests}

-- How many of the times lie in the window that ends now.
abbrev pub count : ℕ → List ℕ → ℕ
count now [] = 0
count now (t ∷ ts) = (if in_window now t then 1 else 0) + count now ts

pub record Call : Type 0 where
  pub at : ℕ
  pub ip : Str

-- The times at which calls of `ip` were let in, the last first.
abbrev pub let_in : Str → Call → Bool → List ℕ → List ℕ
let_in ip c was_limited times = if not was_limited && str_eq c.ip ip then c.at ∷ times else times

unfoldable pub run : Str → List Call → RateLimits → List ℕ → RateLimits × List ℕ
run ip [] m times = (m, times)
run ip (c ∷ cs) m times =
    let (m', was_limited) = is_rate_limited c.at c.ip m in
    run ip cs m' (let_in ip c was_limited times)

-- The clock does not go back, and has reached `last` at the end.
abbrev pub IsTimed : ℕ → List Call → ℕ → Type 0
IsTimed from [] last = from ≤ last
IsTimed from (c ∷ cs) last = (from ≤ c.at) × IsTimed c.at cs last

length-recent : (now : ℕ) (ts : List ℕ) → length (recent now ts) ≡ count now ts
unfolding recent
length-recent now [] = refl
length-recent now (t ∷ ts) = ground (arith, length-recent now ts)

-- What is outside of a window is outside of every later one.
count-recent :
    (now later : ℕ) (ts : List ℕ) → now ≤ later → count later (recent now ts) ≡ count later ts
unfolding recent
count-recent now later [] h = refl
count-recent now later (t ∷ ts) h = ground (arith, count-recent now later ts)

count-append : (now : ℕ) (xs ys : List ℕ) → count now (xs ++ ys) ≡ count now xs + count now ys
count-append now [] ys = omega arith
count-append now (t ∷ xs) ys = omega (arith, count-append now xs ys)

count-later : (now later : ℕ) (ts : List ℕ) → now ≤ later → count later ts ≤ count now ts
count-later now later [] h = omega arith
count-later now later (t ∷ ts) h = ground (arith, count-later now later ts)

abbrev stored : Str → RateLimits → List ℕ
stored ip m = or_else (get ip m) []

-- The store counts the calls that were let in, for every later window, and they are within the limit.
pub record IsCounted (ip : Str) (m : RateLimits) (times : List ℕ) (last : ℕ) : Type 0 where
  pub same : (later : ℕ) → last ≤ later → count later (stored ip m) ≡ count later times
  pub within : (later : ℕ) → last ≤ later → count later times ≤ rate_limit_max_requests

later-IsCounted :
    (ip : Str) (m : RateLimits) (times : List ℕ) (last now : ℕ)
    → last ≤ now
    → IsCounted ip m times last
    → IsCounted ip m times now
later-IsCounted ip m times last now h counted = record {
  same = λ later l. counted.same later (omega arith);
  within = λ later l. counted.within later (omega arith);
}

stored-set :
    (ip other : Str) (ts : List ℕ) (m : RateLimits)
    → stored ip (set other ts m) ≡ (if str_eq other ip then ts else stored ip m)
stored-set ip other ts m = ground (arith, get-set other ip ts m)

-- A call that is let in.
admitted-IsCounted :
    (ip : Str) (at : ℕ) (m : RateLimits) (times : List ℕ) (last : ℕ)
    → last ≤ at
    → length (recent at (stored ip m)) < rate_limit_max_requests
    → IsCounted ip m times last
    → IsCounted ip (set ip (recent at (stored ip m) ++ (at ∷ [])) m) (at ∷ times) at
admitted-IsCounted ip at m times last h few counted =
    let kept : List ℕ = recent at (stored ip m) in
    let put : stored ip (set ip (kept ++ (at ∷ [])) m) ≡ kept ++ (at ∷ []) =
      stored-set ip ip (kept ++ (at ∷ [])) m
      ∙ ap (λ b. if b then kept ++ (at ∷ []) else stored ip m) (str_eq_refl ip) in
    record {
      same = λ later l.
          ap (count later) put
          ∙ omega (
            arith,
            count-append later kept (at ∷ []),
            count-recent at later (stored ip m) l,
            counted.same later (omega arith),
          );
      within = λ later l. ground (
        arith,
        count-later at later (at ∷ times) l,
        counted.same at h,
        length-recent at (stored ip m),
        few,
      );
    }

few_lem : (n : ℕ) → leb rate_limit_max_requests n ≡ false → n < rate_limit_max_requests
few_lem n h = ground arith

step-IsCounted :
    (ip : Str) (c : Call) (m : RateLimits) (times : List ℕ) (last : ℕ)
    → last ≤ c.at
    → IsCounted ip m times last
    → let (m', was_limited) = is_rate_limited c.at c.ip m in
      IsCounted ip m' (let_in ip c was_limited times) c.at
unfolding is_rate_limited limited
step-IsCounted ip c m times last h counted =
    let kept : List ℕ = recent c.at (stored c.ip m) in
    elim (Bool-cases (leb rate_limit_max_requests (length kept))) [
      | inl full ↦ rw full (later-IsCounted ip m times last c.at h counted)
      | inr free ↦ elim (Bool-cases (str_eq c.ip ip)) [
        | inl same ↦
            let e : c.ip ≡ ip = eq_of_str_eq c.ip ip same in
            rw free (
              rw same (
                subst
                  (λ k.
                    IsCounted ip (set k (recent c.at (stored k m) ++ (c.at ∷ [])) m) (c.at ∷ times)
                      c.at)
                  (sym e)
                  (admitted-IsCounted ip c.at m times last h
                    (subst (λ k. length (recent c.at (stored k m)) < rate_limit_max_requests) e
                      (few_lem (length kept) free))
                    counted)))
        | inr other ↦
            let later = later-IsCounted ip m times last c.at h counted in
            let put : stored ip (set c.ip (kept ++ (c.at ∷ [])) m) ≡ stored ip m =
              stored-set ip c.ip (kept ++ (c.at ∷ [])) m
              ∙ ap (λ b. if b then kept ++ (c.at ∷ []) else stored ip m) other in
            rw free (
              rw other
                (record { same = λ t l. ap (count t) put ∙ later.same t l; within = later.within }))
      ]
    ]

run-IsCounted :
    (ip : Str) (cs : List Call) (m : RateLimits) (times : List ℕ) (from last : ℕ)
    → IsTimed from cs last
    → IsCounted ip m times from
    → let (m', times') = run ip cs m times in IsCounted ip m' times' last
unfolding run
run-IsCounted ip [] m times from last timed counted =
    later-IsCounted ip m times from last timed counted
run-IsCounted ip (c ∷ cs) m times from last (h, timed) counted =
    run-IsCounted ip cs _ _ c.at last timed (step-IsCounted ip c m times from h counted)

-- In every history of a gateway that starts with no requests, under a clock that does not go back, at most
-- sixty calls of one address are let in within any sixty seconds that end at the last call or later.
pub run-count :
    (ip : Str) (cs : List Call) (last now : ℕ)
    → IsTimed 0 cs last
    → last ≤ now
    → count now (run ip cs [] []).1 ≤ rate_limit_max_requests
unfolding get
run-count ip cs last now timed later =
    let counted =
      run-IsCounted ip cs [] [] 0 last timed
        (record { same = λ t l. refl; within = λ t l. omega arith }) in
    counted.within now later
