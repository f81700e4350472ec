-- ===== src/NonceStore/Remote/Atomic.antt =====
-- What the store over Redis answers.
use siwa.Base.{
  ℕ, ◌+◌, ◌≤◌, Bool, true, false, ◌&&◌, not, none, some, List, [], ◌∷◌, ◌++◌, ◌==◌, if◌then◌else◌,
  leb, is_some, arith, ◌≡◌, refl, sym, ◌∙◌, ap, ap₂, Result, ok, ◌>>=◌, All, map,
}
use siwa.Base.Str.{Str, str_eq, text}
use siwa.Base.Str.Laws.{str_eq_iff}
use siwa.NonceStore.{Call, issues, consumes}
use siwa.NonceStore.Refinement.{
  Promised, alive, assign, promised_step, promised_answers, started, ended, IsTimed,
}
use siwa.NonceStore.Remote.{RedisLikeClient, reply_is_ok, redis_issue, redis_consume}

-- What Redis documents of the two commands, by the keys that are there at a time: with a positive time to
-- live NX writes a key that is not there, for that time, and DEL counts the keys that it removes.
pub record RedisLaws {S : Type 0} (redis : RedisLikeClient S) (live : Str → ℕ → S → Bool)
    : Type 0 where
  pub set_reply :
      (now : ℕ) (k v : Str) (ttl : ℕ) (s : S)
      → 1 ≤ ttl
      → (redis.set_nx now k v ttl s).1 ≡ ok (if live k now s then none else some (text "OK"))
  pub set_live :
      (now t : ℕ) (k j v : Str) (ttl : ℕ) (s : S)
      → 1 ≤ ttl
      → now ≤ t
      → live j t (redis.set_nx now k v ttl s).0
        ≡ (if str_eq k j && not (live k now s) then leb t (now + ttl) else live j t s)
  pub del_count :
      (now : ℕ) (k : Str) (s : S) → (redis.del now k s).1 ≡ ok (if live k now s then 1 else 0)
  pub del_live :
      (now t : ℕ) (k j : Str) (s : S)
      → now ≤ t
      → live j t (redis.del now k s).0 ≡ (if str_eq k j then false else live j t s)

-- A call that the server runs at one time, with a positive time to live.
abbrev pub IsServed : Call → Type 0
IsServed (issues now later n ttl) = (later ≡ now) × (1 ≤ ttl)
IsServed (consumes now later n) = later ≡ now

str_eq-append : (p a b : Str) → str_eq (p ++ a) (p ++ b) ≡ str_eq a b
unfolding str_eq
str_eq-append [] a b = refl
str_eq-append (c ∷ p) a b = ground (arith, str_eq-append p a b)

reply-live : (b : Bool) → reply_is_ok (if b then none else some (text "OK")) ≡ not b
unfolding reply_is_ok str_eq text
reply-live true = refl
reply-live false = refl

count-live : (b : Bool) → ((if b then 1 else 0) == 1) ≡ b
count-live true = refl
count-live false = refl

module _ {S : Type 0} (redis : RedisLikeClient S) (prefix : Str) where
  unfoldable pub redis_step : S → Call → S × Result Bool
  redis_step s (issues now later n ttl) = redis_issue redis prefix now n ttl s
  redis_step s (consumes now later n) = redis_consume redis prefix now n s

  unfoldable pub redis_answers : S → List Call → List (Result Bool)
  unfolding redis_step
  redis_answers s [] = []
  redis_answers s (c ∷ cs) = (redis_step s c).1 ∷ redis_answers (redis_step s c).0 cs

  module _ (live : Str → ℕ → S → Bool) (laws : RedisLaws redis live) where
    -- From the time `t` on, the keys that are there are the unexpired nonces of the promise.
    abbrev Agrees : ℕ → S → Promised → Type 0
    Agrees t s p =
        (n : Str) (now : ℕ) → t ≤ now → live (prefix ++ n) now s ≡ is_some (alive now (p n))

    step-answer :
        (t : ℕ) (s : S) (p : Promised) (c : Call)
        → Agrees t s p
        → IsServed c
        → t ≤ started c
        → (redis_step s c).1 ≡ ok (promised_step p c).1
    unfolding redis_step redis_issue redis_consume promised_step
    step-answer t s p (issues now later k ttl) agree served le =
        ap (λ r. r >>= λ x. ok (reply_is_ok x))
          (laws.set_reply now (prefix ++ k) (text "1") ttl s served.1)
        ∙ (ap ok (reply-live (live (prefix ++ k) now s) ∙ ap not (agree k now le)) ∙ ground arith)
    step-answer t s p (consumes now later k) agree served le =
        ap (λ r. r >>= λ x. ok (x == 1)) (laws.del_count now (prefix ++ k) s)
        ∙ (ap ok (count-live (live (prefix ++ k) now s) ∙ agree k now le)
            ∙ ap (λ x. ok (is_some (alive x (p k)))) (sym served))

    step-Agrees :
        (t : ℕ) (s : S) (p : Promised) (c : Call)
        → Agrees t s p
        → IsServed c
        → t ≤ started c
        → Agrees (ended c) (redis_step s c).0 (promised_step p c).0
    unfolding redis_step redis_issue redis_consume promised_step assign alive
    step-Agrees t s p (issues now later k ttl) agree served le n at lt =
        laws.set_live now at (prefix ++ k) (prefix ++ n) (text "1") ttl s served.1
          (omega (arith, served.0))
        ∙ ground (
          arith,
          str_eq-append prefix k n,
          str_eq_iff k n,
          agree k now le,
          agree n at (omega (arith, served.0)),
          served.0,
        )
    step-Agrees t s p (consumes now later k) agree served le n at lt =
        laws.del_live now at (prefix ++ k) (prefix ++ n) s (omega (arith, served))
        ∙ ground (arith, str_eq-append prefix k n, agree n at (omega (arith, served)))

    answers-Agrees :
        (t : ℕ) (s : S) (p : Promised) (cs : List Call)
        → Agrees t s p
        → All IsServed cs
        → IsTimed t cs
        → redis_answers s cs ≡ map ok (promised_answers p cs)
    unfolding redis_answers promised_answers
    answers-Agrees t s p [] agree served timed = refl
    answers-Agrees t s p (c ∷ cs) agree served timed =
        ap₂ (λ b bs. b ∷ bs) (step-answer t s p c agree served.0 timed.0)
          (answers-Agrees (ended c) (redis_step s c).0 (promised_step p c).0 cs
            (step-Agrees t s p c agree served.0 timed.0) served.1 timed.1.1)

    -- On a server that holds no key with the prefix and gives the documented replies, whose clock does
    -- not run backwards, the store over Redis answers every history of calls with positive times to live
    -- as the table of promised expiries does, and throws at none.
    pub redis_answers-promised :
        (t : ℕ) (s : S) (cs : List Call)
        → ((n : Str) (now : ℕ) → live (prefix ++ n) now s ≡ false)
        → All IsServed cs
        → IsTimed t cs
        → redis_answers s cs ≡ map ok (promised_answers (λ n. none) cs)
    unfolding alive
    redis_answers-promised t s cs empty served timed =
        answers-Agrees t s (λ n. none) cs (λ n now le. empty n now) served timed
