-- ===== src/Token/Bytes.antt =====
-- `Buffer.from(s)`, the UTF-8 bytes of a string, and `crypto.timingSafeEqual`.
use siwa.Base.{
  ℕ, ◌+◌, ◌-◌, ◌*◌, ◌/◌, ◌%◌, ◌<◌, Bool, ◌&&◌, Option, none, some, List, [], ◌∷◌, ◌++◌, ◌==◌,
  if◌then◌else◌, ltb, leb, length, All, All-split, Result, ok, throws, ◌≡◌, refl, ap, arith,
}
use siwa.Base.Str.{Str, text, str_eq}

-- A high surrogate waits for a low one behind it.
is_high : ℕ → Bool
is_high u = leb 0xD800 u && leb u 0xDBFF

is_low : ℕ → Bool
is_low u = leb 0xDC00 u && leb u 0xDFFF

replacement : List ℕ
replacement = 0xEF ∷ 0xBF ∷ 0xBD ∷ []

-- The bytes of a unit that belongs to no pair.
single : ℕ → List ℕ
unfolding replacement is_high is_low
single u =
    if ltb u 0x80
    then u ∷ []
    else if ltb u 0x800
    then (0xC0 + u / 64) ∷ (0x80 + u % 64) ∷ []
    else if is_high u
    then []
    else if is_low u
    then replacement
    else (0xE0 + u / 4096) ∷ (0x80 + u / 64 % 64) ∷ (0x80 + u % 64) ∷ []

code_point : ℕ → ℕ → ℕ
code_point h l = 0x10000 + (h - 0xD800) * 0x400 + (l - 0xDC00)

four : ℕ → List ℕ
four p = (0xF0 + p / 262144) ∷ (0x80 + p / 4096 % 64) ∷ (0x80 + p / 64 % 64) ∷ (0x80 + p % 64) ∷ []

emit : Option ℕ → ℕ → List ℕ
unfolding single four code_point replacement is_low
emit none u = single u
emit (some h) u = if is_low u then four (code_point h u) else replacement ++ single u

pending : ℕ → Option ℕ
unfolding is_high
pending u = if is_high u then some u else none

utf8_from : Option ℕ → Str → List ℕ
utf8_from none [] = []
utf8_from (some h) [] = replacement
utf8_from p (u ∷ s) = emit p u ++ utf8_from (pending u) s

unfoldable pub utf8 : Str → List ℕ
unfolding utf8_from emit pending replacement
utf8 s = utf8_from none s

-- crypto.timingSafeEqual(a, b), which throws on buffers of different lengths
unfoldable pub timing_safe_equal : List ℕ → List ℕ → Result Bool
unfolding str_eq text
timing_safe_equal a b =
    if length a == length b
    then ok (str_eq a b)
    else throws (text "Input buffers must have the same byte length")

abbrev pub IsAscii : Str → Type 0
IsAscii = All (λ c. c < 128)

emit-ascii : (u : ℕ) → u < 128 → emit none u ≡ u ∷ []
unfolding emit single
emit-ascii u h = ground arith

pending-ascii : (u : ℕ) → u < 128 → pending u ≡ none
unfolding pending is_high
pending-ascii u h = ground arith

-- An ASCII text is its own encoding.
utf8_from-ascii : (s : Str) → IsAscii s → utf8_from none s ≡ s
unfolding utf8_from
utf8_from-ascii [] h = refl
utf8_from-ascii (u ∷ s) h =
    rw (emit-ascii u h.0, pending-ascii u h.0) (ap (λ r. u ∷ r) (utf8_from-ascii s h.1))

pub utf8-ascii : (s : Str) → IsAscii s → utf8 s ≡ s
unfolding utf8
utf8-ascii s h = utf8_from-ascii s h

emit-IsAscii_inv : (u : ℕ) → All (λ c. c < 128) (emit none u) → pending u ≡ none → u < 128
unfolding emit single pending is_high
emit-IsAscii_inv u h p = ground arith

emit-some : (h u : ℕ) → ¬ All (λ c. c < 128) (emit (some h) u)
unfolding emit four
emit-some h u = ground arith

replacement_high : ¬ All (λ c. c < 128) replacement
unfolding replacement
replacement_high h = omega arith

-- Bytes below 128 come from an ASCII text only.
utf8_from-IsAscii_inv :
    (p : Option ℕ) (s : Str) → All (λ c. c < 128) (utf8_from p s) → (p ≡ none) × IsAscii s
unfolding utf8_from
utf8_from-IsAscii_inv none [] h = (refl, tt)
utf8_from-IsAscii_inv (some h) [] a = absurd (replacement_high a)
utf8_from-IsAscii_inv none (u ∷ s) a =
    let (here, later) = All-split (λ c. c < 128) (emit none u) _ a in
    let (closed, rest) = utf8_from-IsAscii_inv (pending u) s later in
    (refl, (emit-IsAscii_inv u here closed, rest))
utf8_from-IsAscii_inv (some h) (u ∷ s) a =
    absurd (emit-some h u (All-split (λ c. c < 128) (emit (some h) u) _ a).0)

pub utf8-IsAscii_inv : (s : Str) → All (λ c. c < 128) (utf8 s) → IsAscii s
unfolding utf8
utf8-IsAscii_inv s h = (utf8_from-IsAscii_inv none s h).1
