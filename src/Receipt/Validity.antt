-- ===== src/Receipt/Validity.antt =====
-- Which receipts are valid, and until when.
use siwa.Base.{
  ℕ, ◌+◌, ◌≤◌, false, Option, none, some, ◌∷◌, ◌++◌, [], if◌then◌else◌, ltb, or_else, Result, ok,
  throws, ◌≡◌, ◌≢◌, refl, ◌∙◌, arith, inl, inr, Bool-cases, >>=-ok_inv, length,
}
use siwa.Base.Int.{pos}
use siwa.Base.Json.{end, field, Json, null, num, obj, get, get_field, Fields}
use siwa.Base.Str.{Str, text}
use siwa.Base.Str.Splitting.{Lacks}
use siwa.Runtime.{Runtime, Laws}
use siwa.Token.{sign, checked_data, sign_nonce_token}
use siwa.Token.Bytes.{utf8}
use siwa.Token.Soundness.{checked_data-sign, checked_data-eq-some, checked_data-throws}
use siwa.Receipt.{
  SignerType, ReceiptPayload, ReceiptOptions, default_receipt_ttl, receipt_json, signer_field,
  before, create_receipt, check_expiry, decode_receipt, verify_receipt,
}

module _ (r : Runtime) (laws : Laws r) where
  -- A token signed under the secret, whatever its purpose, is read as a receipt by its `exp` alone.
  pub verify_receipt-sign :
      (now : ℕ) (v : Json) (secret : Str)
      → r.decode (r.encode v) ≡ ok v
      → verify_receipt r now (sign r v secret) secret ≡ check_expiry r now v
  unfolding verify_receipt
  verify_receipt-sign now v secret read = rw (checked_data-sign r laws secret v, read) refl

  receipt-exp :
      (p : ReceiptPayload) (iat exp : ℕ) → get (receipt_json p iat exp) "exp" ≡ some (num (pos exp))
  unfolding receipt_json get
  receipt-exp p iat exp = signed_exp p.signer_type
    where
      signed_exp :
          (s : Option SignerType)
          → get_field "exp"
              (signer_field s (field "iat" (num (pos iat)) (field "exp" (num (pos exp)) end)))
            ≡ some (num (pos exp))
      signed_exp none = refl
      signed_exp (some t) = refl

  check_expiry-exp :
      (now exp : ℕ) (fs : Fields)
      → get (obj fs) "exp" ≡ some (num (pos exp))
      → check_expiry r now (obj fs) ≡ (if ltb exp now then ok none else ok (some (obj fs)))
  unfolding check_expiry
  check_expiry-exp now exp fs e = rw (e, laws.to_number_num (pos exp)) (ground arith)

  check_expiry-receipt :
      (now iat exp : ℕ) (p : ReceiptPayload)
      → check_expiry r now (receipt_json p iat exp)
        ≡ (if ltb exp now then ok none else ok (some (receipt_json p iat exp)))
  unfolding receipt_json
  check_expiry-receipt now iat exp p = check_expiry-exp now exp _ (receipt-exp p iat exp)

  -- A receipt made at `now`, of a payload that JSON reads back, is verified at every time up to `now`
  -- plus the time to live, with that payload, and is refused as null at every later time.
  pub verify_receipt-create_receipt :
      (now later : ℕ) (p : ReceiptPayload) (o : ReceiptOptions)
      → let exp = now + or_else o.ttl default_receipt_ttl in
        r.decode (r.encode (receipt_json p now exp)) ≡ ok (receipt_json p now exp)
        → verify_receipt r later (create_receipt r now p o).receipt o.secret
          ≡ (if ltb exp later then ok none else ok (some (receipt_json p now exp)))
  unfolding create_receipt
  verify_receipt-create_receipt now later p o read =
      verify_receipt-sign later _ o.secret read ∙ check_expiry-receipt later now _ p

  fresh_value :
      (now : ℕ) (w v : Json)
      → (if before r (get w "exp") now then ok none else ok (some w)) ≡ ok (some v)
      → (w ≡ v) × (before r (get v "exp") now ≡ false)
  fresh_value now w v h = elim (Bool-cases (before r (get w "exp") now)) [
    | inl old ↦ absurd (rejected (rw old at h))
    | inr fresh ↦ let same : w ≡ v = kept (rw fresh at h) in (same, rw same at fresh)
  ]
    where
      rejected : ◌≡◌ {A = Result (Option Json)} (ok none) (ok (some v)) → ⊥
      rejected h = cc

      kept : ◌≡◌ {A = Result (Option Json)} (ok (some w)) (ok (some v)) → w ≡ v
      kept h = cc

  check_expiry-eq-some :
      (now : ℕ) (w v : Json)
      → check_expiry r now w ≡ ok (some v)
      → (w ≡ v) × (before r (get v "exp") now ≡ false)
  unfolding check_expiry
  check_expiry-eq-some now null v h = absurd (cc)
  check_expiry-eq-some now w v h = fresh_value now w v h

  -- With a runtime as documented, an accepted receipt is a text, a dot and that text's HMAC under the secret; the text decodes to
  -- the payload that is returned, and the payload's `exp` is not in the past.
  pub verify_receipt_sound :
      (now : ℕ) (receipt secret : Str) (v : Json)
      → verify_receipt r now receipt secret ≡ ok (some v)
      → (encoded : Str) × (receipt ≡ encoded ++ (b'.' ∷ r.hmac secret encoded))
        × (r.decode encoded ≡ ok v)
        × (before r (get v "exp") now ≡ false)
  unfolding verify_receipt
  verify_receipt_sound now receipt secret v e =
      let (o, checked, later) = >>=-ok_inv (checked_data r receipt secret) _ e in
      from_data o checked later
    where
      from_data :
          (o : Option Str)
          → checked_data r receipt secret ≡ ok o
          → decode_receipt r now o ≡ ok (some v)
          → (encoded : Str) × (receipt ≡ encoded ++ (b'.' ∷ r.hmac secret encoded))
            × (r.decode encoded ≡ ok v)
            × (before r (get v "exp") now ≡ false)
      from_data none checked h = absurd (cc)
      from_data (some d) checked h =
          let (w, decodes, h') = >>=-ok_inv (r.decode d) (check_expiry r now) h in
          let (same, fresh) = check_expiry-eq-some now w v h' in
          (d, checked_data-eq-some r laws secret receipt d checked, rw (← same) decodes, fresh)

  -- A nonce token, whose payload JSON reads back, is accepted as a receipt under the same secret until
  -- its own expiry.
  pub nonce_token_as_receipt :
      (now exp : ℕ) (fs : Fields) (secret : Str)
      → r.decode (r.encode (obj fs)) ≡ ok (obj fs)
      → get (obj fs) "exp" ≡ some (num (pos exp))
      → now ≤ exp
      → verify_receipt r now (sign_nonce_token r (obj fs) secret) secret ≡ ok (some (obj fs))
  unfolding sign_nonce_token
  nonce_token_as_receipt now exp fs secret read e h =
      verify_receipt-sign now (obj fs) secret read ∙ check_expiry-exp now exp fs e ∙ ground arith

  -- A receipt with a non-empty text without a dot and a signature of the digest's length that has more
  -- bytes than code units makes the check throw instead of returning null.
  pub verify_receipt-throws :
      (now : ℕ) (encoded sig secret : Str)
      → Lacks b'.' encoded
      → encoded ≢ []
      → sig ≢ []
      → length sig ≡ length (r.hmac secret encoded)
      → length (utf8 sig) ≢ length sig
      → verify_receipt r now (encoded ++ (b'.' ∷ sig)) secret
        ≡ throws (text "Input buffers must have the same byte length")
  unfolding verify_receipt
  verify_receipt-throws now encoded sig secret lacks filled given same longer =
      rw (checked_data-throws r laws secret encoded sig lacks filled same longer given) refl
