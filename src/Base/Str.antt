-- ===== src/Base/Str.antt =====
-- JavaScript strings, as the lists of their UTF-16 code units, with the operations of
-- `String.prototype` that the sources call.
pub mod Laws
pub mod Splitting
use Prim.Native.Char.{code}
use siwa.Base.Tests.{ltb, leb, ◌==◌, if◌then◌else◌}
use siwa.Base.Lists.{length}
use Prim.Native.Nat.{ℕ, zero, suc}
use Prim.Native.String.{String}
use mathlib.Core.Bool.{Bool, true, false, ◌&&◌, ◌||◌}
use mathlib.Core.List.{List, [], ◌∷◌, ◌++◌, reverse}

abbrev pub Str : Type 0
Str = List ℕ

-- The code units of a literal in the source, all of them ASCII.
unfoldable pub text : String → Str
text String.[] = []
text (String.◌∷◌ c s) = code c ∷ text s

-- s === t
unfoldable pub str_eq : Str → Str → Bool
str_eq [] [] = true
str_eq [] (y ∷ t) = false
str_eq (x ∷ s) [] = false
str_eq (x ∷ s) (y ∷ t) = x == y && str_eq s t

-- s.startsWith(p)
unfoldable pub starts_with : Str → Str → Bool
starts_with s [] = true
starts_with [] (y ∷ p) = false
starts_with (x ∷ s) (y ∷ p) = x == y && starts_with s p

-- list.includes(s)
unfoldable pub includes : List Str → Str → Bool
unfolding str_eq
includes [] s = false
includes (x ∷ xs) s = str_eq x s || includes xs s

abbrev pub cons_head : ℕ → List Str → List Str
cons_head c [] = (c ∷ []) ∷ []
cons_head c (p ∷ ps) = (c ∷ p) ∷ ps

-- s.split(c) for a separator of one code unit
unfoldable pub split : ℕ → Str → List Str
split c [] = [] ∷ []
split c (x ∷ s) = let rest = split c s in if x == c then [] ∷ rest else cons_head x rest

-- s.split(sep) for a separator of two code units
unfoldable pub split₂ : ℕ → ℕ → Str → List Str
split₂ a b [] = [] ∷ []
split₂ a b (x ∷ []) = (x ∷ []) ∷ []
split₂ a b (x ∷ y ∷ s) =
    let next = [] ∷ split₂ a b s in
    let longer = cons_head x (split₂ a b (y ∷ s)) in if x == a && y == b then next else longer

-- parts.join(sep)
unfoldable pub join : Str → List Str → Str
join sep [] = []
join sep (p ∷ []) = p
join sep (p ∷ q ∷ ps) = p ++ (sep ++ join sep (q ∷ ps))

-- s.includes(ab) for a text of two code units
unfoldable pub includes₂ : ℕ → ℕ → Str → Bool
includes₂ a b [] = false
includes₂ a b (x ∷ []) = false
includes₂ a b (x ∷ y ∷ s) = (x == a && y == b) || includes₂ a b (y ∷ s)

-- White space and line terminators, as `trim` and `parseInt` skip them.
unfoldable pub is_space : ℕ → Bool
is_space c =
    (leb 9 c && leb c 13)
    || c == 32
    || c == 0xA0
    || c == 0x1680
    || (leb 0x2000 c && leb c 0x200A)
    || c == 0x2028
    || c == 0x2029
    || c == 0x202F
    || c == 0x205F
    || c == 0x3000
    || c == 0xFEFF

unfoldable pub trim_start : Str → Str
unfolding is_space
trim_start [] = []
trim_start (c ∷ s) = let rest = trim_start s in if is_space c then rest else c ∷ s

-- s.trim()
unfoldable pub trim : Str → Str
unfolding trim_start
trim s = reverse (trim_start (reverse (trim_start s)))

-- What `.` of a regular expression without flags does not match.
unfoldable pub is_line_end : ℕ → Bool
is_line_end c = c == 10 || c == 13 || c == 0x2028 || c == 0x2029

-- s.slice(n)
unfoldable pub drop : ℕ → Str → Str
drop zero s = s
drop (suc n) [] = []
drop (suc n) (c ∷ s) = drop n s

-- s.includes(p)
unfoldable pub contains : Str → Str → Bool
unfolding starts_with
contains [] p = starts_with [] p
contains (c ∷ s) p = starts_with (c ∷ s) p || contains s p
