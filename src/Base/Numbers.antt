-- ===== src/Base/Numbers.antt =====
-- Numbers in template literals, and `parseInt`. A number stands for its exact integer value: the
-- rounding of doubles above 2^53 and the exponent form from 10^21 on are not modelled.
pub mod RoundTrip
pub mod Hex
use Prim.Native.Nat.{ℕ, zero, suc, ◌+◌, ◌-◌, ◌*◌, ◌/◌, ◌%◌}
use mathlib.Core.Bool.{Bool, true, false, ◌&&◌, ◌||◌}
use mathlib.Core.Option.{Option, none, some}
use mathlib.Core.List.{[], ◌∷◌}
use siwa.Base.Tests.{ltb, leb, ◌==◌, if◌then◌else◌}
use siwa.Base.Int.{ℤ, pos, negsuc, Number, nan, int}
use siwa.Base.Str.{Str, text, trim_start}

-- The digits of `n` in front of `acc`, on fuel above `n`.
digits : ℕ → ℕ → Str → Str
digits zero n acc = acc
digits (suc fuel) n acc =
    let longer = digits fuel (n / 10) ((b'0' + n % 10) ∷ acc) in
    if ltb n 10 then (b'0' + n) ∷ acc else longer

unfoldable pub show_nat : ℕ → Str
unfolding digits
show_nat n = digits (suc n) n []

-- `${n}`
unfoldable pub show_number : Number → Str
unfolding show_nat text
show_number nan = text "NaN"
show_number (int (pos n)) = show_nat n
show_number (int (negsuc n)) = b'-' ∷ show_nat (suc n)

-- The value of a digit in base ten or sixteen.
digit : ℕ → ℕ → Option ℕ
digit radix c =
    if leb b'0' c && leb c b'9'
    then some (c - b'0')
    else if radix == 16 && leb b'a' c && leb c b'f'
    then some (c - 87)
    else if radix == 16 && leb b'A' c && leb c b'F'
    then some (c - 55)
    else none

-- The value of the longest prefix of digits, behind digits of value `acc`.
scan : ℕ → ℕ → Str → ℕ
scan radix acc [] = acc
scan radix acc (c ∷ s) = elim (digit radix c) [
  | none ↦ acc
  | some d ↦ scan radix (acc * radix + d) s
]

magnitude : ℕ → Str → Option ℕ
magnitude radix [] = none
magnitude radix (c ∷ s) = elim (digit radix c) [ none ↦ none | some d ↦ some (scan radix d s) ]

-- Without a radix argument a prefix `0x` asks for base sixteen.
unsigned : Bool → Str → Option ℕ
unsigned hex (z ∷ x ∷ s) =
    if hex && z == b'0' && (x == b'x' || x == b'X')
    then magnitude 16 s
    else magnitude 10 (z ∷ x ∷ s)
unsigned hex s = magnitude 10 s

positive : Option ℕ → Number
positive none = nan
positive (some n) = int (pos n)

negative : Option ℕ → Number
negative none = nan
negative (some zero) = int (pos 0)
negative (some (suc n)) = int (negsuc n)

signed : Bool → Str → Number
signed hex [] = nan
signed hex (c ∷ s) =
    if c == b'-'
    then negative (unsigned hex s)
    else if c == b'+'
    then positive (unsigned hex s)
    else positive (unsigned hex (c ∷ s))

-- parseInt(s)
unfoldable pub parse_int : Str → Number
unfolding signed positive negative unsigned magnitude scan digit trim_start
parse_int s = signed true (trim_start s)

-- parseInt(s, 10)
unfoldable pub parse_int_10 : Str → Number
unfolding signed positive negative unsigned magnitude scan digit trim_start
parse_int_10 s = signed false (trim_start s)

-- The digits in base sixteen, behind an optional prefix `0x`.
hexadecimal : Str → Option ℕ
hexadecimal (z ∷ x ∷ s) =
    if z == b'0' && (x == b'x' || x == b'X') then magnitude 16 s else magnitude 16 (z ∷ x ∷ s)
hexadecimal s = magnitude 16 s

signed_16 : Str → Number
signed_16 [] = nan
signed_16 (c ∷ s) =
    if c == b'-'
    then negative (hexadecimal s)
    else if c == b'+'
    then positive (hexadecimal s)
    else positive (hexadecimal (c ∷ s))

-- parseInt(s, 16)
unfoldable pub parse_int_16 : Str → Number
unfolding signed_16 positive negative hexadecimal magnitude scan digit trim_start
parse_int_16 s = signed_16 (trim_start s)
