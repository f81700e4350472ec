-- ===== src/Wrappers/Gate.antt =====
-- What the payment gate of the wrappers has done: packages/siwa/src/server-side-wrappers.
use siwa.Base.{
  ℕ, Bool, Option, none, some, ok, ◌≡◌, refl, arith, ap, sym, subst, ◌∙◌, inl, inr, Bool-cases,
}
use siwa.Base.Str.{Str}
use siwa.Runtime.{Runtime}
use siwa.Payments.{X402Session, Payment, X402Result, paid, unpaid, process_x402_payment}
use siwa.Payments.Settled.{process_x402_payment_sound}
use siwa.Erc8128.{SiwaAgent, given_header}
use siwa.Erc8128.Steps.{goes, lift, >>=-goes}
use siwa.Wrappers.{
  WebRequest, Exchange, X402Config, X402SessionConfig, Headers, on_world, set_header, payment_gate,
  charge, with_session, existing_session, take_payment, process_payment, accept_payment,
  store_session, early_header,
}
use siwa.Wrappers.Charged.{
  LooksUp, Stores, HasPaid, IsCharged, on_world-goes, try_catch-goes, lift-goes,
}

module _ (r : Runtime) (codec : Headers) {S : Type 0} (now : ℕ) where
  module _ (x402 : X402Config S) (header_first : Bool) where
    early-goes :
        (payment : Payment) (tx_hash : Option Str) (x y : Exchange S) (u : Unit {0})
        → early_header r codec now x402 header_first payment tx_hash x ≡ (y, goes u)
        → x.world ≡ y.world
    unfolding early_header set_header
    early-goes payment tx_hash x y u h = elim (Bool-cases header_first) [
      | inl first ↦ ground arith
      | inr last ↦ ground arith
    ]

    store-goes :
        (session : Option (X402SessionConfig S)) (address : Str) (tx_hash : Option Str)
        (x y : Exchange S) (u : Unit {0})
        → x402.session ≡ session
        → store_session r codec now x402 header_first session address tx_hash x ≡ (y, goes u)
        → Stores r codec now x402 address tx_hash x.world y.world
    unfolding store_session
    store-goes none address tx_hash x y u e h = inl (e, ground arith)
    store-goes (some config) address tx_hash x y u e h = inr (config, e, on_world-goes _ x y u h)

    accept-goes :
        (address : Str) (result : X402Result) (x y : Exchange S) (o : Option (Payment × Option Str))
        → accept_payment r codec now x402 header_first address result x ≡ (y, goes o)
        → (payment : Payment) × (tx_hash : Option Str) × (result ≡ paid payment tx_hash)
          × (o ≡ some (payment, tx_hash))
          × Stores r codec now x402 address tx_hash x.world y.world
    unfolding accept_payment
    accept-goes address (unpaid m) x y o h = absurd (cc)
    accept-goes address (paid payment tx_hash) x y o h =
        let (u, x₁, set, h₁) =
          >>=-goes (early_header r codec now x402 header_first payment tx_hash) _ x h in
        let (v, x₂, kept, h₂) =
          >>=-goes (store_session r codec now x402 header_first x402.session address tx_hash) _ x₁
            h₁ in
        let stored = store-goes x402.session address tx_hash x₁ x₂ v refl kept in
        let same : x₂ ≡ y = ground arith in
        (
          payment,
          tx_hash,
          refl,
          ground arith,
          subst (λ w. Stores r codec now x402 address tx_hash w y.world)
              (sym (early-goes payment tx_hash x x₁ u set))
              (subst (λ z. Stores r codec now x402 address tx_hash x₁.world z.world) same stored),
        )

    process-goes :
        (req : WebRequest) (address header : Str) (before : S) (x y : Exchange S)
        (o : Option (Payment × Option Str))
        → given_header req.payment_signature ≡ some header
        → LooksUp r codec now x402 address none before x.world
        → process_payment r codec now x402 header_first address header x ≡ (y, goes o)
        → (payment : Payment) × (tx_hash : Option Str) × HasPaid r codec now x402 address req
            payment tx_hash before y.world
          × (o ≡ some (payment, tx_hash))
    unfolding process_payment
    process-goes req address header before x y o sent looked h =
        let (payload, x₁, decoding, h₁) = >>=-goes (lift (codec.decode_payload header)) _ x h in
        let (result, x₂, processed, h₂) =
          >>=-goes (on_world (process_x402_payment payload x402.accepts x402.facilitator)) _ x₁
            h₁ in
        let (decoded, same) = lift-goes (codec.decode_payload header) x x₁ payload decoding in
        let outcome = on_world-goes _ x₁ x₂ result processed in
        let (payment, tx_hash, is_paid, last, stored) = accept-goes address result x₂ y o h₂ in
        (
          payment,
          tx_hash,
          record {
            looked_state = x₁.world;
            settled_state = x₂.world;
            header = header;
            payload = payload;
            no_session =
                subst (λ z. LooksUp r codec now x402 address none before z.world) (sym same) looked;
            sent = sent;
            decoded = decoded;
            settled =
                process_x402_payment_sound payload x402.accepts x402.facilitator x₁.world x₂.world
                  payment tx_hash (outcome ∙ ap (λ a. (x₂.world, ok a)) is_paid);
            stored = stored;
          },
          last,
        )

    take-goes :
        (req : WebRequest) (address : Str) (header : Option Str) (before : S) (x y : Exchange S)
        (o : Option (Payment × Option Str))
        → given_header req.payment_signature ≡ header
        → LooksUp r codec now x402 address none before x.world
        → take_payment r codec now x402 header_first address header x ≡ (y, goes o)
        → (payment : Payment) × (tx_hash : Option Str) × HasPaid r codec now x402 address req
            payment tx_hash before y.world
          × (o ≡ some (payment, tx_hash))
    unfolding take_payment set_header
    take-goes req address none before x y o sent looked h = absurd (cc)
    take-goes req address (some header) before x y o sent looked h =
        process-goes req address header before x y o sent looked (try_catch-goes _ _ x y o h)

    found-goes :
        (session : Option (X402SessionConfig S)) (address : Str) (x y : Exchange S)
        (existing : Option X402Session)
        → x402.session ≡ session
        → existing_session r codec now x402 header_first session address x ≡ (y, goes existing)
        → LooksUp r codec now x402 address existing x.world y.world
    unfolding existing_session
    found-goes none address x y existing e h = inl (e, ground arith, ground arith)
    found-goes (some config) address x y existing e h =
        inr (config, e, on_world-goes _ x y existing h)

    session-goes :
        (req : WebRequest) (agent : SiwaAgent) (existing : Option X402Session) (before : S)
        (x y : Exchange S) (o : Option (Payment × Option Str))
        → LooksUp r codec now x402 (r.to_lower agent.address) existing before x.world
        → with_session r codec now x402 header_first req (r.to_lower agent.address) existing x
          ≡ (y, goes o)
        → IsCharged r codec now (some x402) req agent o before y.world
    unfolding with_session
    session-goes req agent none before x y o looked h =
        let (payment, tx_hash, has_paid, last) =
          take-goes req (r.to_lower agent.address) (given_header req.payment_signature) before x y o
            refl looked h in
        rw last has_paid
    session-goes req agent (some existing) before x y o looked h =
        let nothing : o ≡ none = ground arith in
        let same : x ≡ y = ground arith in
        rw nothing (
          existing,
          subst
              (λ z.
                LooksUp r codec now x402 (r.to_lower agent.address) (some existing) before z.world)
              same looked,
        )

    charge-goes :
        (req : WebRequest) (agent : SiwaAgent) (x y : Exchange S)
        (o : Option (Payment × Option Str))
        → charge r codec now x402 header_first req agent x ≡ (y, goes o)
        → IsCharged r codec now (some x402) req agent o x.world y.world
    unfolding charge
    charge-goes req agent x y o h =
        let (existing, x₁, e, h₁) =
          >>=-goes
            (existing_session r codec now x402 header_first x402.session (r.to_lower agent.address))
            _ x h in
        session-goes req agent existing x.world x₁ y o
          (found-goes x402.session (r.to_lower agent.address) x x₁ existing refl e) h₁

  pub gate-goes :
      (header_first : Bool) (x402 : Option (X402Config S)) (req : WebRequest) (agent : SiwaAgent)
      (x y : Exchange S) (o : Option (Payment × Option Str))
      → payment_gate r codec now header_first x402 req agent x ≡ (y, goes o)
      → IsCharged r codec now x402 req agent o x.world y.world
  unfolding payment_gate
  gate-goes header_first none req agent x y o h = (ground arith, ground arith)
  gate-goes header_first (some x402) req agent x y o h =
      charge-goes x402 header_first req agent x y o h
