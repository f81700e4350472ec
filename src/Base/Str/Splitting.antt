-- ===== src/Base/Str/Splitting.antt =====
-- Splitting and joining of strings.
use siwa.Base.Str.{Str, split, split₂, includes₂, join, cons_head}
use siwa.Base.Lists.{All}
use Prim.Native.Nat.{ℕ}
use mathlib.Core.Path.{◌≡◌, refl, ap, ◌∙◌}
use mathlib.Core.Logic.{◌≢◌}
use mathlib.Core.Bool.{true}
use mathlib.Core.List.{List, [], ◌∷◌, ◌++◌}
use native.Mathlib.Omega.{arith}

abbrev pub Lacks : ℕ → Str → Type 0
Lacks c = All (λ x. x ≢ c)

split-Lacks : (c : ℕ) (s : Str) → Lacks c s → split c s ≡ s ∷ []
unfolding split
split-Lacks c [] h = refl
split-Lacks c (x ∷ s) h = ground (arith, split-Lacks c s)

split-append : (c : ℕ) (s t : Str) → Lacks c s → split c (s ++ (c ∷ t)) ≡ s ∷ split c t
unfolding split
split-append c [] t h = ground arith
split-append c (x ∷ s) t h = ground (arith, split-append c s t)

-- Lines without the separator come back from their join.
pub split-join :
    (c : ℕ) (p : Str) (ps : List Str)
    → All (Lacks c) (p ∷ ps)
    → split c (join (c ∷ []) (p ∷ ps)) ≡ p ∷ ps
unfolding join
split-join c p [] h = split-Lacks c p h.0
split-join c p (q ∷ ps) h =
    split-append c p (join (c ∷ []) (q ∷ ps)) h.0 ∙ ap (λ r. p ∷ r) (split-join c q ps h.1)

-- Splitting at the first pair that stands behind a text without the pair's first unit.
pub split₂-append :
    (a b : ℕ) (k v : Str) → Lacks a k → split₂ a b (k ++ (a ∷ b ∷ v)) ≡ k ∷ split₂ a b v
unfolding split₂
split₂-append a b [] v h = ground arith
split₂-append a b (x ∷ []) v h = ground (arith, split₂-append a b [] v)
split₂-append a b (x ∷ y ∷ k) v h = ground (arith, split₂-append a b (y ∷ k) v)

pub includes₂-append : (a b : ℕ) (k v : Str) → includes₂ a b (k ++ (a ∷ b ∷ v)) ≡ true
unfolding includes₂
includes₂-append a b [] v = ground arith
includes₂-append a b (x ∷ []) v = ground (arith, includes₂-append a b [] v)
includes₂-append a b (x ∷ y ∷ k) v = ground (arith, includes₂-append a b (y ∷ k) v)

join-cons_head :
    (sep : Str) (c : ℕ) (ps : List Str) → ps ≢ [] → join sep (cons_head c ps) ≡ c ∷ join sep ps
unfolding join
join-cons_head sep c [] h = absurd (h refl)
join-cons_head sep c (p ∷ []) h = refl
join-cons_head sep c (p ∷ q ∷ ps) h = refl

split₂-ne-nil : (a b : ℕ) (s : Str) → split₂ a b s ≢ []
unfolding split₂
split₂-ne-nil a b [] = cc
split₂-ne-nil a b (x ∷ []) = cc
split₂-ne-nil a b (x ∷ y ∷ s) = ground (arith, split₂-ne-nil a b (y ∷ s))

join-nil : (sep : Str) (ps : List Str) → ps ≢ [] → join sep ([] ∷ ps) ≡ sep ++ join sep ps
unfolding join
join-nil sep [] h = absurd (h refl)
join-nil sep (p ∷ ps) h = refl

join-one : (sep p : Str) → join sep (p ∷ []) ≡ p
unfolding join
join-one sep p = refl

-- Joining undoes splitting.
pub join-split₂ : (a b : ℕ) (s : Str) → join (a ∷ b ∷ []) (split₂ a b s) ≡ s
unfolding split₂
join-split₂ a b [] = join-one (a ∷ b ∷ []) []
join-split₂ a b (x ∷ []) = join-one (a ∷ b ∷ []) (x ∷ [])
join-split₂ a b (x ∷ y ∷ s) = ground (
  arith,
  join-nil (a ∷ b ∷ []) (split₂ a b s) (split₂-ne-nil a b s),
  join-cons_head (a ∷ b ∷ []) x (split₂ a b (y ∷ s)) (split₂-ne-nil a b (y ∷ s)),
  join-split₂ a b s,
  join-split₂ a b (y ∷ s),
)

split-ne-nil : (c : ℕ) (s : Str) → split c s ≢ []
unfolding split
split-ne-nil c [] = cc
split-ne-nil c (x ∷ s) = ground (arith, split-ne-nil c s)

pub join-split : (c : ℕ) (s : Str) → join (c ∷ []) (split c s) ≡ s
unfolding split
join-split c [] = join-one (c ∷ []) []
join-split c (x ∷ s) = ground (
  arith,
  join-nil (c ∷ []) (split c s) (split-ne-nil c s),
  join-cons_head (c ∷ []) x (split c s) (split-ne-nil c s),
  join-split c s,
)
