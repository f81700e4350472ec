-- ===== src/Approvals/Messages/Escaped.antt =====
-- What of a message reaches Telegram as markup.
use siwa.Base.{ℕ, ◌≢◌, ◌==◌, arith, [], ◌∷◌, All-append, Bool-cases, inl, inr}
use siwa.Base.Str.{Str, text}
use siwa.Base.Str.Splitting.{Lacks}
use siwa.Approvals.Messages.{replace_all, escape_html}

replace_all-Lacks : (c d : ℕ) (t s : Str) → Lacks d t → Lacks d s → Lacks d (replace_all c t s)
unfolding replace_all
replace_all-Lacks c d t [] ht hs = tt
replace_all-Lacks c d t (x ∷ s) ht hs = elim (Bool-cases (x == c)) [
  | inl e ↦
      rw e (All-append (λ y. y ≢ d) t (replace_all c t s) ht (replace_all-Lacks c d t s ht hs.1))
  | inr e ↦ rw e (hs.0, replace_all-Lacks c d t s ht hs.1)
]

-- The unit that is replaced is gone, where its replacement does not have it.
replace_all-replaced : (c : ℕ) (t s : Str) → Lacks c t → Lacks c (replace_all c t s)
unfolding replace_all
replace_all-replaced c t [] ht = tt
replace_all-replaced c t (x ∷ s) ht = elim (Bool-cases (x == c)) [
  | inl e ↦ rw e (All-append (λ y. y ≢ c) t (replace_all c t s) ht (replace_all-replaced c t s ht))
  | inr e ↦ rw e (ground arith, replace_all-replaced c t s ht)
]

-- An escaped text has no tag.
pub escape_html-Lacks : (s : Str) → Lacks b'<' (escape_html s) × Lacks b'>' (escape_html s)
unfolding escape_html text
escape_html-Lacks s =
    let ampersands = replace_all b'&' (text "&amp;") s in
    let opened = replace_all b'<' (text "&lt;") ampersands in
    (
      replace_all-Lacks b'>' b'<' (text "&gt;") opened (omega arith)
          (replace_all-replaced b'<' (text "&lt;") ampersands (omega arith)),
      replace_all-replaced b'>' (text "&gt;") opened (omega arith),
    )
