-- ===== src/Verify/Keeps.antt =====
-- Steps of a verification that leave the nonces alone, and what a step that goes on was made of.
use siwa.Base.{Bool, true, false, Result, ok, throws, ◌≡◌, refl, ◌∙◌}
use siwa.Verify.Flow.{
  Outcome, proceeds, fails, raises, Failure, Check, bind_outcome, ◌>>=◌, guard, lift, pass,
}

abbrev pub Keeps : {S A : Type 0} → Check S A → Type 0
Keeps {S} m = (s : S) → (m s).0 ≡ s

bind_outcome-Keeps :
    {S A B : Type 0} (o : S × Outcome A) (f : A → Check S B) (s : S)
    → o.0 ≡ s
    → ((a : A) → Keeps (f a))
    → (bind_outcome o f).0 ≡ s
bind_outcome-Keeps (t, proceeds a) f s e k = k a t ∙ e
bind_outcome-Keeps (t, fails i) f s e k = e
bind_outcome-Keeps (t, raises m) f s e k = e

pub Keeps->>= :
    {S A B : Type 0} (m : Check S A) (f : A → Check S B)
    → Keeps m
    → ((a : A) → Keeps (f a))
    → Keeps (m >>= f)
Keeps->>= m f h k s = bind_outcome-Keeps (m s) f s (h s) k

bind_outcome-proceeds :
    {S A B : Type 0} (o : S × Outcome A) (f : A → Check S B) {s' : S} {b : B}
    → bind_outcome o f ≡ (s', proceeds b)
    → (a : A) × (t : S) × (o ≡ (t, proceeds a)) × (f a t ≡ (s', proceeds b))
bind_outcome-proceeds (t, proceeds a) f e = (a, t, refl, e)
bind_outcome-proceeds (t, fails i) f e = absurd (cc)
bind_outcome-proceeds (t, raises m) f e = absurd (cc)

pub >>=-proceeds :
    {S A B : Type 0} (m : Check S A) (f : A → Check S B) (s : S) {s' : S} {b : B}
    → (m >>= f) s ≡ (s', proceeds b)
    → (a : A) × (t : S) × (m s ≡ (t, proceeds a)) × (f a t ≡ (s', proceeds b))
>>=-proceeds m f s e = bind_outcome-proceeds (m s) f e

pub guard-proceeds :
    {S : Type 0} (b : Bool) (i : Failure) (s : S) {s' : S} {u : Unit {0}}
    → guard b i s ≡ (s', proceeds u)
    → (b ≡ true) × (s ≡ s')
guard-proceeds true i s e = (refl, cc)
guard-proceeds false i s e = absurd (cc)

pub lift-proceeds :
    {S A : Type 0} (m : Result A) (s : S) {s' : S} {a : A}
    → lift m s ≡ (s', proceeds a)
    → (m ≡ ok a) × (s ≡ s')
lift-proceeds (ok b) s e = (cc, cc)
lift-proceeds (throws m) s e = absurd (cc)

pub pass-proceeds :
    {S A : Type 0} (a : A) (s : S) {s' : S} {b : A}
    → pass a s ≡ (s', proceeds b)
    → (a ≡ b) × (s ≡ s')
pass-proceeds a s e = (cc, cc)
