-- ===== src/Erc8128/Steps.antt =====
-- Going on, an early return of a value, or an exception, with the state threaded through.
use siwa.Base.{Bool, true, false, Result, ok, throws, ◌≡◌, refl}
use siwa.Base.Str.{Str}

pub data Exit (E : Type 0) (A : Type 0) : Type 0 where
  goes : A → Exit E A
  returns : E → Exit E A
  raises : Str → Exit E A

abbrev pub Step : Type 0 → Type 0 → Type 0 → Type 0
Step S E A = S → S × Exit E A

module _ {S E A B : Type 0} where
  abbrev pub bind_exit : S × Exit E A → (A → Step S E B) → S × Exit E B
  bind_exit (s, goes a) f = f a s
  bind_exit (s, returns e) f = (s, returns e)
  bind_exit (s, raises m) f = (s, raises m)

  infixl 5 ◌>>=◌
  abbrev pub ◌>>=◌ : Step S E A → (A → Step S E B) → Step S E B
  ◌>>=◌ m f s = bind_exit (m s) f

  pub >>=-goes :
      (m : Step S E A) (f : A → Step S E B) (s : S) {s' : S} {b : B}
      → (m >>= f) s ≡ (s', goes b)
      → (a : A) × (t : S) × (m s ≡ (t, goes a)) × (f a t ≡ (s', goes b))
  >>=-goes m f s {s'} {b} e = from_exit (m s) refl e
    where
      from_exit :
          (o : S × Exit E A)
          → m s ≡ o
          → bind_exit o f ≡ (s', goes b)
          → (a : A) × (t : S) × (m s ≡ (t, goes a)) × (f a t ≡ (s', goes b))
      from_exit (t, goes a) same e = (a, t, same, e)
      from_exit (t, returns x) same e = absurd (cc)
      from_exit (t, raises x) same e = absurd (cc)

module _ {S E B : Type 0} where
  infixl 5 ◌>>◌
  abbrev pub ◌>>◌ : Step S E (Unit {0}) → Step S E B → Step S E B
  m >> k = m >>= λ _. k

module _ {E A : Type 0} where
  abbrev pub of_result : Result A → Exit E A
  of_result (ok a) = goes a
  of_result (throws m) = raises m

module _ {S E A : Type 0} where
  abbrev pub pass : A → Step S E A
  pass a s = (s, goes a)

  abbrev pub stop : E → Step S E A
  stop e s = (s, returns e)

  abbrev pub lift : Result A → Step S E A
  lift m s = (s, of_result m)

  abbrev pub stateful_exit : S × Result A → S × Exit E A
  stateful_exit (s, m) = (s, of_result m)

  abbrev pub stateful : (S → S × Result A) → Step S E A
  stateful m s = stateful_exit (m s)

module _ {S E : Type 0} where
  abbrev pub require : Bool → E → Step S E (Unit {0})
  require true e s = (s, goes tt)
  require false e s = (s, returns e)
