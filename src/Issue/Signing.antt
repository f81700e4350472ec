-- ===== src/Issue/Signing.antt =====
-- packages/siwa/src/siwa.ts: `signSIWAMessage`. The signer is a parameter.
use siwa.Base.{
  Bool, false, not, Option, none, some, [], or_else, ◌++◌, if◌then◌else◌, Result, ok, throws, ◌>>=◌,
  >>=-ok_inv, ◌≡◌, refl, arith, ap, sym, ◌∙◌, subst, Bool-cases, inl, inr,
}
use siwa.Base.Str.{Str, text, str_eq}
use siwa.Message.{SiwaMessageFields, given, build_siwa_message, parse_siwa_message}
use siwa.Message.RoundTrip.{IsWellFormed, normal, parse-build}
use siwa.Runtime.{Runtime}

pub record Signer : Type 0 where
  pub get_address : Result Str
  pub sign_message : Str → Result Str

pub record Signed : Type 0 where
  pub message : Str
  pub signature : Str
  pub address : Str

-- The claimed address, if one is given, is another one.
pub claims_other : Runtime → Option Str → Str → Bool
unfolding str_eq
claims_other r none signer_address = false
claims_other r (some claimed) signer_address =
    not (str_eq (r.to_lower signer_address) (r.to_lower claimed))

ok-injective : (a b : Signed) → ◌≡◌ {A = Result Signed} (ok a) (ok b) → a ≡ b
ok-injective a b e = cc

module _ (r : Runtime) (signer : Signer) where
  sign_resolved : SiwaMessageFields → Str → Result Signed
  sign_resolved fields address = do
    let message = build_siwa_message (record fields { address = address })
    signature ← signer.sign_message message
    ok (record { message = message; signature = signature; address = address })

  sign_for : SiwaMessageFields → Option Str → Str → Result Signed
  unfolding claims_other sign_resolved text
  sign_for fields claimed address =
      if claims_other r (given claimed) address
      then throws (
          text "Address mismatch: signer has "
          ++ (address ++ (text ", message claims " ++ or_else (given claimed) [])))
      else sign_resolved fields address

  -- The address of `fields` is not read: it is the signer's, and `claimed` is the caller's.
  unfoldable pub sign_siwa_message : SiwaMessageFields → Option Str → Result Signed
  unfolding sign_for
  sign_siwa_message fields claimed = do
    address ← signer.get_address
    sign_for fields claimed address

  sign_for-ok :
      (fields : SiwaMessageFields) (claimed : Option Str) (address : Str) (signed : Signed)
      → sign_for fields claimed address ≡ ok signed
      → (claims_other r (given claimed) address ≡ false)
        × (signed.address ≡ address)
        × (signed.message ≡ build_siwa_message (record fields { address = address }))
        × (signer.sign_message signed.message ≡ ok signed.signature)
  unfolding sign_for sign_resolved
  sign_for-ok fields claimed address signed e =
      elim (Bool-cases (claims_other r (given claimed) address)) [
        | inl other ↦ absurd (ground arith)
        | inr same ↦
            let (signature, made, last) =
              >>=-ok_inv
                (signer.sign_message (build_siwa_message (record fields { address = address }))) _
                (rw same at e) in
            subst
              (λ x.
                (claims_other r (given claimed) address ≡ false)
                × (x.address ≡ address)
                × (x.message ≡ build_siwa_message (record fields { address = address }))
                × (signer.sign_message x.message ≡ ok x.signature))
              (ok-injective _ signed last) (same, refl, refl, made)
      ]

  -- What is signed is the message of the given fields with the signer's own address, which is the
  -- claimed one up to case, and, where these fields are well formed, the message parses back to them.
  pub sign_siwa_message-parses :
      (fields : SiwaMessageFields) (claimed : Option Str) (signed : Signed)
      → sign_siwa_message fields claimed ≡ ok signed
      → (signer.get_address ≡ ok signed.address)
        × (signer.sign_message signed.message ≡ ok signed.signature)
        × (claims_other r (given claimed) signed.address ≡ false)
        × (IsWellFormed (record fields { address = signed.address })
            → parse_siwa_message signed.message
              ≡ ok (normal (record fields { address = signed.address })))
  unfolding sign_siwa_message
  sign_siwa_message-parses fields claimed signed e =
      let (address, known, e₁) = >>=-ok_inv signer.get_address (sign_for fields claimed) e in
      let (same, own, built, made) = sign_for-ok fields claimed address signed e₁ in
      let own_message : signed.message
          ≡ build_siwa_message (record fields { address = signed.address }) =
        built ∙ ap (λ a. build_siwa_message (record fields { address = a })) (sym own) in
      (
        known ∙ ap ok (sym own),
        made,
        ap (λ a. claims_other r (given claimed) a) own ∙ same,
        λ w.
            ap parse_siwa_message own_message
            ∙ parse-build (record fields { address = signed.address }) w,
      )
