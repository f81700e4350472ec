-- ===== src/Base/Results.antt =====
-- What a call gives: a value, or a thrown exception with its message.
use mathlib.Core.Path.{◌≡◌, refl}
use mathlib.Core.Logic.{◌⊎◌, inl, inr}
use mathlib.Core.List.{List}
use Prim.Native.Nat.{ℕ}

pub data Result {ℓ} (A : Type ℓ) : Type ℓ where
  ok : A → Result A
  throws : List ℕ → Result A

-- The call does not throw.
abbrev pub Returns {ℓ} : {A : Type ℓ} → Result A → Type ℓ
Returns {A} r = (a : A) × (r ≡ ok a)

pub Result-cases {ℓ} :
    {A : Type ℓ} (r : Result A) → ((a : A) × (r ≡ ok a)) ⊎ ((e : List ℕ) × (r ≡ throws e))
Result-cases (ok a) = inl (a, refl)
Result-cases (throws e) = inr (e, refl)

module _ {ℓ κ} {A : Type ℓ} {B : Type κ} where
  -- What follows a call; an exception passes by it.
  infixl 5 ◌>>=◌
  abbrev pub ◌>>=◌ : Result A → (A → Result B) → Result B
  throws message >>= next = throws message
  ok value >>= next = next value

  -- Where the whole goes well, both of its parts do.
  pub >>=-ok_inv :
      (call : Result A) (next : A → Result B) {last : B}
      → (call >>= next) ≡ ok last
      → (first : A) × (call ≡ ok first) × (next first ≡ ok last)
  >>=-ok_inv (throws message) next e = cc
  >>=-ok_inv (ok value) next e = (value, refl, e)
