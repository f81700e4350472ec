-- ===== src/Payments/Settled.antt =====
-- What a paid request has been through.
use siwa.Base.{true, false, Option, List, or_else, ◌++◌, Result, ok, throws, ◌≡◌, refl, arith, ap}
use siwa.Base.Str.{Str, text}
use siwa.Payments.{
  Payment, PaymentPayload, PaymentRequirements, VerifyResponse, SettleResponse, FacilitatorClient,
  paid, unpaid, settle_outcome, verify_outcome, process_x402_payment,
}

module _ {S : Type 0} (payload : PaymentPayload) (accepts : List PaymentRequirements)
    (facilitator : FacilitatorClient S) where
  -- The facilitator has verified the payment in the state `s` and settled it behind that.
  pub record IsSettled (s s' : S) (payment : Payment) (tx_hash : Option Str) : Type 0 where
    pub verified_state : S
    pub verification : VerifyResponse
    pub settlement : SettleResponse
    pub verified : facilitator.verify payload accepts s ≡ (verified_state, ok verification)
    pub valid : verification.valid ≡ true
    pub settled : facilitator.settle payload accepts verified_state ≡ (s', ok settlement)
    pub success : settlement.success ≡ true
    pub hash : settlement.tx_hash ≡ tx_hash
    pub same_payment : payload.payment ≡ payment

  settle_outcome-paid :
      (o : S × Result SettleResponse) (s' : S) (payment : Payment) (tx_hash : Option Str)
      → settle_outcome payload accepts facilitator o ≡ (s', ok (paid payment tx_hash))
      → (r : SettleResponse) × (o ≡ (s', ok r))
        × (r.success ≡ true)
        × (r.tx_hash ≡ tx_hash)
        × (payload.payment ≡ payment)
  unfolding settle_outcome
  settle_outcome-paid (t, throws m) s' payment tx_hash e = absurd (cc)
  settle_outcome-paid (t, ok r) s' payment tx_hash e =
      let same : t ≡ s' = ground arith in
      (r, ap (λ x. (x, ok r)) same, ground arith, ground arith, ground arith)

  verify_outcome-paid :
      (o : S × Result VerifyResponse) (s' : S) (payment : Payment) (tx_hash : Option Str)
      → verify_outcome payload accepts facilitator o ≡ (s', ok (paid payment tx_hash))
      → (t : S) × (v : VerifyResponse) × (o ≡ (t, ok v))
        × (v.valid ≡ true)
        × (settle_outcome payload accepts facilitator (facilitator.settle payload accepts t)
            ≡ (s', ok (paid payment tx_hash)))
  unfolding verify_outcome
  verify_outcome-paid (t, throws m) s' payment tx_hash e = absurd (cc)
  verify_outcome-paid (t, ok v) s' payment tx_hash e = (t, v, refl, ground arith, ground arith)

  -- A payment is reported as paid only if the facilitator verified it and, in the state behind that,
  -- settled it; the transaction is the settlement's and the payment is the payload's.
  pub process_x402_payment_sound :
      (s s' : S) (payment : Payment) (tx_hash : Option Str)
      → process_x402_payment payload accepts facilitator s ≡ (s', ok (paid payment tx_hash))
      → IsSettled s s' payment tx_hash
  unfolding process_x402_payment
  process_x402_payment_sound s s' payment tx_hash e =
      let (t, v, verified, valid, e₁) =
        verify_outcome-paid (facilitator.verify payload accepts s) s' payment tx_hash e in
      let (r, settled, success, hash, same) =
        settle_outcome-paid (facilitator.settle payload accepts t) s' payment tx_hash e₁ in
      record {
        verified_state = t;
        verification = v;
        settlement = r;
        verified = verified;
        valid = valid;
        settled = settled;
        success = success;
        hash = hash;
        same_payment = same;
      }

  refused_outcome :
      (o : S × Result VerifyResponse) (t : S) (v : VerifyResponse)
      → o ≡ (t, ok v)
      → v.valid ≡ false
      → verify_outcome payload accepts facilitator o ≡ (
        t,
        ok (unpaid (text "Payment verification failed: " ++ or_else v.reason (text "unknown"))),
      )
  unfolding verify_outcome
  refused_outcome o t v e invalid = rw (e, invalid) refl

  -- A payment that the facilitator refuses is not settled: its reason is returned in the state that
  -- the verification left.
  pub process_x402_payment-refused :
      (s t : S) (v : VerifyResponse)
      → facilitator.verify payload accepts s ≡ (t, ok v)
      → v.valid ≡ false
      → process_x402_payment payload accepts facilitator s ≡ (
        t,
        ok (unpaid (text "Payment verification failed: " ++ or_else v.reason (text "unknown"))),
      )
  unfolding process_x402_payment
  process_x402_payment-refused s t v e invalid =
      refused_outcome (facilitator.verify payload accepts s) t v e invalid
