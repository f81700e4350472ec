-- ===== src/Base/Numbers/RoundTrip.antt =====
-- `parseInt` reads back what a template literal prints.
use Prim.Native.Nat.{ℕ, zero, suc, ◌+◌, ◌-◌, ◌*◌, ◌/◌, ◌%◌, ◌≤◌, ◌<◌}
use mathlib.Core.Path.{◌≡◌, refl, ap, ◌∙◌}
use mathlib.Core.Logic.{◌≢◌}
use mathlib.Core.Bool.{Bool, true, false}
use mathlib.Core.Option.{some}
use mathlib.Core.List.{[], ◌∷◌}
use native.Mathlib.Omega.{arith}
use mathlib.Core.Logic.{inl, inr}
use siwa.Base.Tests.{ltb, ◌==◌, Bool-cases}
use siwa.Base.Lists.{All}
use siwa.Base.Int.{pos, negsuc, Number, nan, int}
use siwa.Base.Str.{Str, text, trim_start}
use siwa.Base.Numbers.{
  digits, show_nat, show_number, digit, scan, magnitude, unsigned, signed, positive, negative,
  parse_int, parse_int_10,
}

abbrev pub IsDigit : ℕ → Type 0
IsDigit c = (b'0' ≤ c) × (c ≤ b'9')

digits-IsDigit : (f n : ℕ) (acc : Str) → All IsDigit acc → All IsDigit (digits f n acc)
unfolding digits
digits-IsDigit zero n acc h = h
digits-IsDigit (suc f) n acc h = ground (arith, digits-IsDigit f (n / 10) ((b'0' + n % 10) ∷ acc))

pub show_nat-IsDigit : (n : ℕ) → All IsDigit (show_nat n)
unfolding show_nat
show_nat-IsDigit n = digits-IsDigit (suc n) n [] tt

digit_lem : (c : ℕ) → IsDigit c → digit 10 c ≡ some (c - b'0')
unfolding digit
digit_lem c h = ground arith

scan-cons : (v c : ℕ) (s : Str) → IsDigit c → scan 10 v (c ∷ s) ≡ scan 10 (v * 10 + (c - b'0')) s
unfolding scan digit
scan-cons v c s h = ground arith

scan-digits : (f n : ℕ) (acc : Str) → n < f → scan 10 0 (digits f n acc) ≡ scan 10 n acc
unfolding digits
scan-digits zero n acc h = elim h [ ]
scan-digits (suc f) n acc h = elim (Bool-cases (ltb n 10)) [
  | inl e ↦ rw e (scan-cons 0 (b'0' + n) acc (ground arith) ∙ ap (λ v. scan 10 v acc) (omega arith))
  | inr e ↦ rw e (
      scan-digits f (n / 10) ((b'0' + n % 10) ∷ acc) (ground arith)
      ∙ scan-cons (n / 10) (b'0' + n % 10) acc (omega arith)
      ∙ ap (λ v. scan 10 v acc) (omega arith))
]

magnitude-scan : (s : Str) → All IsDigit s → s ≢ [] → magnitude 10 s ≡ some (scan 10 0 s)
unfolding magnitude scan digit
magnitude-scan [] h e = absurd (e refl)
magnitude-scan (c ∷ s) h e = ground arith

unsigned-digits :
    (hex : Bool) (s : Str) → All IsDigit s → s ≢ [] → unsigned hex s ≡ some (scan 10 0 s)
unfolding unsigned
unsigned-digits hex [] h e = absurd (e refl)
unsigned-digits hex (c ∷ []) h e = magnitude-scan (c ∷ []) h e
unsigned-digits hex (c ∷ x ∷ s) h e = ground (arith, magnitude-scan (c ∷ x ∷ s))

digits-cons : (f n : ℕ) (acc : Str) → acc ≢ [] → digits f n acc ≢ []
unfolding digits
digits-cons zero n acc h = h
digits-cons (suc f) n acc h = ground (arith, digits-cons f (n / 10) ((b'0' + n % 10) ∷ acc))

pub show_nat-ne-nil : (n : ℕ) → show_nat n ≢ []
unfolding show_nat
show_nat-ne-nil n = ground (arith, digits-cons n (n / 10) ((b'0' + n % 10) ∷ []))

trim_start-digits : (s : Str) → All IsDigit s → trim_start s ≡ s
unfolding trim_start
trim_start-digits [] h = refl
trim_start-digits (c ∷ s) h = ground arith

signed-digits :
    (hex : Bool) (s : Str) → All IsDigit s → s ≢ [] → signed hex s ≡ int (pos (scan 10 0 s))
unfolding signed positive
signed-digits hex [] h e = absurd (e refl)
signed-digits hex (c ∷ s) h e =
    rw (test_ne c b'-' (omega arith), test_ne c b'+' (omega arith))
      (ap positive (unsigned-digits hex (c ∷ s) h e))
  where
    test_ne : (c k : ℕ) → c ≢ k → (c == k) ≡ false
    test_ne c k h = ground arith

scan-show_nat : (n : ℕ) → scan 10 0 (show_nat n) ≡ n
unfolding show_nat scan
scan-show_nat n = scan-digits (suc n) n [] (omega arith)

parse_int-digits : (s : Str) → All IsDigit s → s ≢ [] → parse_int s ≡ int (pos (scan 10 0 s))
unfolding parse_int
parse_int-digits s h e = rw (trim_start-digits s h) (signed-digits true s h e)

pub parse_int-show_nat : (n : ℕ) → parse_int (show_nat n) ≡ int (pos n)
parse_int-show_nat n =
    parse_int-digits (show_nat n) (show_nat-IsDigit n) (show_nat-ne-nil n)
    ∙ ap (λ v. int (pos v)) (scan-show_nat n)

minus_show_nat : (n : ℕ) → parse_int (b'-' ∷ show_nat (suc n)) ≡ int (negsuc n)
unfolding parse_int
minus_show_nat n =
    rw
      (unsigned-digits true (show_nat (suc n)) (show_nat-IsDigit (suc n)) (show_nat-ne-nil (suc n)))
      (ap negative (ap some (scan-show_nat (suc n))))

nan_text : parse_int (text "NaN") ≡ nan
unfolding parse_int text
nan_text = refl

-- A printed number is read back, NaN and negative numbers included.
pub parse_int-show_number : (n : Number) → parse_int (show_number n) ≡ n
unfolding show_number
parse_int-show_number nan = nan_text
parse_int-show_number (int (pos n)) = parse_int-show_nat n
parse_int-show_number (int (negsuc n)) = minus_show_nat n

parse_int_10-digits : (s : Str) → All IsDigit s → s ≢ [] → parse_int_10 s ≡ int (pos (scan 10 0 s))
unfolding parse_int_10
parse_int_10-digits s h e = rw (trim_start-digits s h) (signed-digits false s h e)

pub parse_int_10-show_nat : (n : ℕ) → parse_int_10 (show_nat n) ≡ int (pos n)
parse_int_10-show_nat n =
    parse_int_10-digits (show_nat n) (show_nat-IsDigit n) (show_nat-ne-nil n)
    ∙ ap (λ v. int (pos v)) (scan-show_nat n)
