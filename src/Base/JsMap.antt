-- ===== src/Base/JsMap.antt =====
-- A JavaScript `Map` with string keys: its entries in insertion order, with one entry for a key.
use siwa.Base.Tests.{if◌then◌else◌, is_some}
use siwa.Base.Str.{Str, str_eq}
use siwa.Base.Str.Laws.{str_eq_iff}
use mathlib.Core.Path.{◌≡◌, refl}
use mathlib.Core.Bool.{Bool}
use mathlib.Core.Option.{Option, none, some}
use mathlib.Core.List.{List, [], ◌∷◌}
use native.Mathlib.Omega.{arith}

abbrev pub JsMap {ℓ} : Type ℓ → Type ℓ
JsMap V = List (Str × V)

module _ {ℓ} {V : Type ℓ} where
  -- m.get(k)
  unfoldable pub get : Str → JsMap V → Option V
  get k [] = none
  get k ((j, v) ∷ m) = if str_eq j k then some v else get k m

  -- m.has(k)
  abbrev pub has : Str → JsMap V → Bool
  has k m = is_some (get k m)

  -- m.set(k, v)
  unfoldable pub set : Str → V → JsMap V → JsMap V
  set k v [] = (k, v) ∷ []
  set k v ((j, w) ∷ m) = if str_eq j k then (j, v) ∷ m else (j, w) ∷ set k v m

  -- m.delete(k)
  unfoldable pub delete : Str → JsMap V → JsMap V
  delete k [] = []
  delete k ((j, w) ∷ m) = let rest = delete k m in if str_eq j k then rest else (j, w) ∷ rest

  -- The loop that deletes every entry whose value fails the test.
  unfoldable pub retain : (V → Bool) → JsMap V → JsMap V
  retain p [] = []
  retain p ((j, w) ∷ m) = let rest = retain p m in if p w then (j, w) ∷ rest else rest

  abbrev pub IsMap : JsMap V → Type ℓ
  IsMap [] = Unit
  IsMap ((j, v) ∷ m) = (get j m ≡ none) × IsMap m

  get-nil : (k : Str) → get k [] ≡ none
  unfolding get
  get-nil k = refl

  pub get-set :
      (k j : Str) (v : V) (m : JsMap V)
      → get j (set k v m) ≡ (if str_eq k j then some v else get j m)
  unfolding get set
  get-set k j v [] = refl
  get-set k j v ((i, w) ∷ m) =
      ground (arith, str_eq_iff k j, str_eq_iff i k, str_eq_iff i j, get-set k j v m)

  pub get-delete :
      (k j : Str) (m : JsMap V) → get j (delete k m) ≡ (if str_eq k j then none else get j m)
  unfolding get delete
  get-delete k j [] = ground arith
  get-delete k j ((i, w) ∷ m) =
      ground (arith, str_eq_iff k j, str_eq_iff i k, str_eq_iff i j, get-delete k j m)

  abbrev pub keep : (V → Bool) → Option V → Option V
  keep p none = none
  keep p (some v) = if p v then some v else none

  pub get-retain-none :
      (p : V → Bool) (j : Str) (m : JsMap V) → get j m ≡ none → get j (retain p m) ≡ none
  unfolding get retain
  get-retain-none p j [] h = refl
  get-retain-none p j ((i, w) ∷ m) h = ground (arith, get-retain-none p j m)

  pub get-retain :
      (p : V → Bool) (j : Str) (m : JsMap V) → IsMap m → get j (retain p m) ≡ keep p (get j m)
  unfolding get retain
  get-retain p j [] h = refl
  get-retain p j ((i, w) ∷ m) h =
      ground (arith, str_eq_iff i j, get-retain p j m h.1, get-retain-none p i m h.0)

  pub retain-IsMap : (p : V → Bool) (m : JsMap V) → IsMap m → IsMap (retain p m)
  unfolding retain
  retain-IsMap p [] h = tt
  retain-IsMap p ((i, w) ∷ m) h = ground (arith, retain-IsMap p m h.1, get-retain-none p i m h.0)

  pub delete-IsMap : (k : Str) (m : JsMap V) → IsMap m → IsMap (delete k m)
  unfolding delete
  delete-IsMap k [] h = tt
  delete-IsMap k ((i, w) ∷ m) h = ground (arith, delete-IsMap k m h.1, get-delete k i m, h.0)

  pub set-IsMap : (k : Str) (v : V) (m : JsMap V) → IsMap m → IsMap (set k v m)
  unfolding set
  set-IsMap k v [] h = (get-nil k, tt)
  set-IsMap k v ((i, w) ∷ m) h =
      ground (arith, set-IsMap k v m h.1, get-set k i v m, str_eq_iff i k, str_eq_iff k i, h.0)
