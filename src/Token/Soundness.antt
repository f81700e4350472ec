-- ===== src/Token/Soundness.antt =====
-- Which tokens are accepted.
use siwa.Base.{
  true, false, ◌||◌, none, some, [], ◌∷◌, ◌++◌, ◌==◌, if◌then◌else◌, length, ok, throws, ◌≡◌, ◌≢◌,
  refl, ap, sym, ◌∙◌, arith, All-split, inl, inr, Bool-cases, Option-cases, Returns,
}
use siwa.Base.Json.{Json}
use siwa.Base.Str.{Str, str_eq, text}
use siwa.Base.Str.Laws.{eq_of_str_eq, str_eq_refl}
use siwa.Base.Str.Splitting.{Lacks}
use siwa.Runtime.{Runtime, Laws}
use siwa.Token.Bytes.{utf8, utf8-ascii, utf8-IsAscii_inv, timing_safe_equal, IsAscii}
use siwa.Token.{cut, is_empty, sign, compare_signatures, check_parts, checked_data}

pub cut-append : (d t : Str) → Lacks b'.' d → cut (d ++ (b'.' ∷ t)) ≡ some (d, t)
unfolding cut
cut-append [] t h = refl
cut-append (c ∷ d) t h = ground (arith, cut-append d t h.1)

pub cut-eq-some : (s d t : Str) → cut s ≡ some (d, t) → s ≡ d ++ (b'.' ∷ t)
unfolding cut
cut-eq-some [] d t e = cc
cut-eq-some (c ∷ s) d t e = elim (Bool-cases (c == b'.')) [
  | inl dot ↦ ground arith
  | inr other ↦ elim (Option-cases (cut s)) [
    | inl missing ↦ absurd (ground arith)
    | inr ((a, b), found) ↦ ground (arith, cut-eq-some s a b found)
  ]
]

is_empty-ne : (s : Str) → s ≢ [] → is_empty s ≡ false
is_empty-ne [] h = absurd (h refl)
is_empty-ne (c ∷ s) h = refl

timing_safe_equal_self : (a : Str) → timing_safe_equal a a ≡ ok true
unfolding timing_safe_equal
timing_safe_equal_self a = ground (arith, str_eq_refl a)

module _ (r : Runtime) (laws : Laws r) (secret : Str) where
  compare_signatures_self :
      (encoded expected : Str) → compare_signatures r encoded expected expected ≡ ok (some encoded)
  unfolding compare_signatures
  compare_signatures_self encoded expected = ground (arith, timing_safe_equal_self (utf8 expected))

  -- A signed token is accepted under its secret.
  pub checked_data-sign :
      (v : Json) → checked_data r (sign r v secret) secret ≡ ok (some (r.encode v))
  unfolding checked_data sign check_parts
  checked_data-sign v =
      rw (cut-append (r.encode v) (r.hmac secret (r.encode v)) (laws.encode_no_dot v)) (
        rw
          (
            is_empty-ne (r.encode v) (laws.encode_given v),
            is_empty-ne (r.hmac secret (r.encode v)) (laws.hmac_given secret (r.encode v)),
          )
          (compare_signatures_self (r.encode v) (r.hmac secret (r.encode v))))

  compare_signatures_inv :
      (encoded sig expected d : Str)
      → IsAscii expected
      → compare_signatures r encoded sig expected ≡ ok (some d)
      → (sig ≡ expected) × (encoded ≡ d)
  unfolding compare_signatures timing_safe_equal
  compare_signatures_inv encoded sig expected d ascii e =
      let (same, equal_d) = same_bytes in
      let bytes : utf8 sig ≡ expected = eq_of_str_eq _ _ same ∙ utf8-ascii expected ascii in
      (sym (utf8-ascii sig (utf8-IsAscii_inv sig (rw bytes ascii))) ∙ bytes, equal_d)
    where
      same_bytes : (str_eq (utf8 sig) (utf8 expected) ≡ true) × (encoded ≡ d)
      same_bytes = ground arith

  -- What is accepted is signed: the part behind the dot is the HMAC of the part before it.
  pub checked_data-eq-some :
      (token encoded : Str)
      → checked_data r token secret ≡ ok (some encoded)
      → token ≡ encoded ++ (b'.' ∷ r.hmac secret encoded)
  unfolding checked_data check_parts
  checked_data-eq-some token encoded e = elim (Option-cases (cut token)) [
    | inl missing ↦ absurd (ground arith)
    | inr ((d, sig), found) ↦
        let (same, equal_d) =
          compare_signatures_inv d sig (r.hmac secret d) encoded (laws.hmac_ascii secret d)
            (ground arith) in
        cut-eq-some token d sig found
        ∙ ap (λ t. d ++ (b'.' ∷ t)) same
        ∙ ap (λ x. x ++ (b'.' ∷ r.hmac secret x)) equal_d
  ]

  compare_signatures-ascii :
      (encoded sig expected : Str)
      → IsAscii sig
      → IsAscii expected
      → Returns (compare_signatures r encoded sig expected)
  unfolding compare_signatures timing_safe_equal
  compare_signatures-ascii encoded sig expected s e =
      rw (utf8-ascii sig s, utf8-ascii expected e)
        (elim (Bool-cases (length sig == length expected)) [
          | inl same ↦ (if str_eq sig expected then some encoded else none, rw same refl)
          | inr other ↦ (none, rw other refl)
        ])

  -- On an ASCII token the check never throws.
  pub checked_data-ascii : (token : Str) → IsAscii token → Returns (checked_data r token secret)
  unfolding checked_data check_parts
  checked_data-ascii token a = elim (Option-cases (cut token)) [
    | inl missing ↦ (none, rw missing refl)
    | inr ((d, sig), found) ↦ elim (Bool-cases (is_empty d || is_empty sig)) [
      | inl empty ↦ (none, rw (found, empty) refl)
      | inr filled ↦
          rw (found, filled)
            (compare_signatures-ascii d sig (r.hmac secret d)
              (All-split _ d _ (rw (cut-eq-some token d sig found) at a)).1.1
              (laws.hmac_ascii secret d))
    ]
  ]

  -- A signature of the digest's length that is longer in UTF-8 makes the check throw.
  pub checked_data-throws :
      (encoded sig : Str)
      → Lacks b'.' encoded
      → encoded ≢ []
      → length sig ≡ length (r.hmac secret encoded)
      → length (utf8 sig) ≢ length sig
      → sig ≢ []
      → checked_data r (encoded ++ (b'.' ∷ sig)) secret
        ≡ throws (text "Input buffers must have the same byte length")
  unfolding checked_data check_parts compare_signatures timing_safe_equal
  checked_data-throws encoded sig lacks filled same longer given =
      rw
        (
          cut-append encoded sig lacks,
          is_empty-ne encoded filled,
          is_empty-ne sig given,
          utf8-ascii (r.hmac secret encoded) (laws.hmac_ascii secret encoded),
        )
        (ground arith)
