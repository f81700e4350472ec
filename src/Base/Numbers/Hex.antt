-- ===== src/Base/Numbers/Hex.antt =====
-- Bytes in base sixteen, two digits each, and their reading by `parseInt(s, 16)`.
use Prim.Native.Nat.{ℕ, ◌+◌, ◌-◌, ◌*◌, ◌/◌, ◌%◌, ◌<◌, ◌≤◌}
use mathlib.Core.Path.{◌≡◌, refl, ap, ap₂, ◌∙◌}
use mathlib.Core.Logic.{◌≢◌}
use mathlib.Core.Option.{some}
use mathlib.Core.List.{List, [], ◌∷◌}
use native.Mathlib.Omega.{arith}
use siwa.Base.Tests.{ltb, if◌then◌else◌}
use siwa.Base.Lists.{All}
use siwa.Base.Int.{pos, negsuc, Number, nan, int}
use siwa.Base.Str.{Str, trim_start, is_space}
use siwa.Base.Numbers.{parse_int_16, digit, magnitude, scan, hexadecimal, signed_16, positive}

unfoldable pub hex_digit : ℕ → ℕ
hex_digit d = if ltb d 10 then b'0' + d else 87 + d

-- Array.from(bytes).map((b) => b.toString(16).padStart(2, "0")).join("") on bytes
unfoldable pub to_hex_string : List ℕ → Str
unfolding hex_digit
to_hex_string [] = []
to_hex_string (b ∷ bs) = hex_digit (b / 16) ∷ hex_digit (b % 16) ∷ to_hex_string bs

-- What a Uint8Array keeps of a number.
unfoldable pub to_byte : Number → ℕ
to_byte nan = 0
to_byte (int (pos n)) = n % 256
to_byte (int (negsuc n)) = 255 - n % 256

-- An odd unit at the end falls outside of the array.
unfoldable pub from_hex_string : Str → List ℕ
unfolding parse_int_16 to_byte
from_hex_string (a ∷ b ∷ s) = to_byte (parse_int_16 (a ∷ b ∷ [])) ∷ from_hex_string s
from_hex_string s = []

digit-hex_digit : (d : ℕ) → d < 16 → digit 16 (hex_digit d) ≡ some d
unfolding digit hex_digit
digit-hex_digit d h = ground arith

hex_digit-ge : (d : ℕ) → d < 16 → (b'0' ≤ hex_digit d) × (hex_digit d ≤ b'f')
unfolding hex_digit
hex_digit-ge d h = ground arith

hex_digit-ne-x : (d : ℕ) → d < 16 → (hex_digit d ≢ b'X') × (hex_digit d ≢ b'x')
unfolding hex_digit
hex_digit-ne-x d h = (λ e. ground arith, λ e. ground arith)

trim_start-pair : (c d : ℕ) → b'0' ≤ c → c ≤ b'f' → trim_start (c ∷ d ∷ []) ≡ c ∷ d ∷ []
unfolding trim_start is_space
trim_start-pair c d low high = ground arith

hexadecimal-pair :
    (c d u v : ℕ)
    → d ≢ b'X'
    → d ≢ b'x'
    → digit 16 c ≡ some u
    → digit 16 d ≡ some v
    → hexadecimal (c ∷ d ∷ []) ≡ some (u * 16 + v)
unfolding hexadecimal magnitude scan
hexadecimal-pair c d u v upper lower eu ev = ground arith

signed_16-pair : (c d : ℕ) → b'0' ≤ c → signed_16 (c ∷ d ∷ []) ≡ positive (hexadecimal (c ∷ d ∷ []))
unfolding signed_16
signed_16-pair c d low = ground arith

parse-pair :
    (a b : ℕ)
    → a < 16
    → b < 16
    → parse_int_16 (hex_digit a ∷ hex_digit b ∷ []) ≡ int (pos (a * 16 + b))
unfolding parse_int_16 positive
parse-pair a b ha hb =
    let (low, high) = hex_digit-ge a ha in
    ap signed_16 (trim_start-pair (hex_digit a) (hex_digit b) low high)
    ∙ signed_16-pair (hex_digit a) (hex_digit b) low
    ∙ ap positive (
        hexadecimal-pair (hex_digit a) (hex_digit b) a b (hex_digit-ne-x b hb).0
          (hex_digit-ne-x b hb).1 (digit-hex_digit a ha) (digit-hex_digit b hb))

to_byte-byte : (b : ℕ) → b < 256 → to_byte (int (pos (b / 16 * 16 + b % 16))) ≡ b
unfolding to_byte
to_byte-byte b h = omega arith

-- A text of bytes in base sixteen is read back.
pub from_hex_string-to_hex_string :
    (bs : List ℕ) → All (λ b. b < 256) bs → from_hex_string (to_hex_string bs) ≡ bs
unfolding from_hex_string to_hex_string
from_hex_string-to_hex_string [] h = refl
from_hex_string-to_hex_string (b ∷ bs) h =
    ap₂ (λ x xs. x ∷ xs)
      (ap to_byte (parse-pair (b / 16) (b % 16) (omega arith) (omega arith)) ∙ to_byte-byte b h.0)
      (from_hex_string-to_hex_string bs h.1)
