-- ===== src/Keyring/Endpoints/Entry.antt =====
-- Which requests reach an endpoint of the keyring proxy.
use siwa.Base.{
  ℕ, Bool, false, ◌&&◌, some, [], ◌∷◌, All, Result, ok, throws, ◌≡◌, ◌≢◌, refl, arith, ◌⊎◌, inl,
  inr, Bool-cases, Option-cases, ap, ◌∙◌,
}
use siwa.Base.Str.{Str, text, str_eq}
use siwa.Base.Str.Laws.{eq_of_str_eq}
use siwa.ProxyAuth.{Verdict, valid, invalid, verify_hmac}
use siwa.Keyring.Wallet.{Randomness}
use siwa.Keyring.Server.{Request, Proxy, health, Reply, Services, audit}
use siwa.Keyring.Endpoints.{
  judged, verified, gets, signed_headers, unauthorized, hmac_auth, route, routed, serve,
}

unmatched : (a b : Bool) → b ≡ false → (a && b) ≡ false
unmatched a b e = ground arith

module _ {W : Type 0} (v : Services W) where
  -- The state is as it was but for the audit log, and the answer is an error, the health report, or what
  -- Express answers by itself.
  abbrev pub IsHarmless : Request → Proxy W → Proxy W × Reply → Type 0
  IsHarmless req s (t, reply) =
      (t.file ≡ s.file)
      × (t.world ≡ s.world)
      × ((reply.status ≢ 200)
          ⊎ ((reply.body ≡ health v.config.inner_backend) ⊎ (reply ≡ v.unhandled req)))

  -- None of the paths that have a handler for POST matches "/health".
  abbrev pub SeparatesHealth : Type 0
  SeparatesHealth =
      All (λ p. v.matches p (text "/health") ≡ false)
        (text "/create-wallet"
          ∷ text "/has-wallet"
          ∷ text "/get-address"
          ∷ text "/sign-message"
          ∷ text "/sign-transaction"
          ∷ text "/sign-authorization"
          ∷ [])

  -- A request with a signature that the proxy accepts.
  abbrev pub IsSigned : ℕ → Request → Type 0
  IsSigned now req =
      (timestamp : Str) × (signature : Str) × (signed_headers v now req.timestamp req.signature
        ≡ some (timestamp, signature))
      × (verify_hmac v.hashing now v.config.secret req.method req.path req.raw_body timestamp
            signature
          ≡ ok valid)

  judged-entry :
      (now : ℕ) (random : Randomness) (req : Request) (s : Proxy W) (verdict : Result Verdict)
      → (verdict ≡ ok valid)
        ⊎ IsHarmless req s (routed v now random req (judged v now req verdict s))
  unfolding judged routed unauthorized audit
  judged-entry now random req s (throws e) = inr (refl, refl, inl (λ e. omega arith))
  judged-entry now random req s (ok valid) = inl refl
  judged-entry now random req s (ok (invalid m)) = inr (refl, refl, inl (λ e. omega arith))

  verified-entry :
      (now : ℕ) (random : Randomness) (req : Request) (s : Proxy W)
      → IsSigned now req
        ⊎ IsHarmless req s (
            routed v now random req
              (verified v now req (signed_headers v now req.timestamp req.signature) s))
  unfolding verified routed unauthorized audit
  verified-entry now random req s =
      elim (Option-cases (signed_headers v now req.timestamp req.signature)) [
        | inl e ↦ rw e (inr (refl, refl, inl (λ h. omega arith)))
        | inr ((timestamp, signature), e) ↦
            elim (judged-entry now random req s (
              verify_hmac v.hashing now v.config.secret req.method req.path req.raw_body timestamp
                signature)) [
                  | inl passed ↦ inl (timestamp, signature, e, passed)
                  | inr harmless ↦ inr (rw e harmless)
                ]
      ]

  health_route :
      (now : ℕ) (random : Randomness) (req : Request) (s : Proxy W)
      → req.path ≡ text "/health"
      → SeparatesHealth
      → IsHarmless req s (route v now random req s)
  unfolding route
  health_route now random req s at
        (create, (has, (address, (message, (transaction, (authorization, u)))))) =
      let other : (p : Str)
          → v.matches p (text "/health") ≡ false
          → (str_eq req.method (text "POST") && v.matches p req.path) ≡ false =
        λ p e. unmatched (str_eq req.method (text "POST")) _ (ap (v.matches p) at ∙ e) in
      elim (Bool-cases (gets v now req && v.matches (text "/health") req.path)) [
        | inl e ↦ rw e (refl, refl, inr (inl refl))
        | inr e ↦ rw e (
            rw (other (text "/create-wallet") create) (
              rw (other (text "/has-wallet") has) (
                rw (other (text "/get-address") address) (
                  rw (other (text "/sign-message") message) (
                    rw (other (text "/sign-transaction") transaction) (
                      rw (other (text "/sign-authorization") authorization)
                        (refl, refl, inr (inr refl))))))))
      ]

  -- A request without a valid signature reaches no endpoint: the keystore and the second factor are not
  -- touched, and the answer is an error, the health report or what Express answers by itself where no
  -- handler does. This is for a router on which none of the other registered paths matches "/health".
  pub serve-unsigned :
      (now : ℕ) (random : Randomness) (req : Request) (s : Proxy W)
      → SeparatesHealth
      → IsSigned now req ⊎ IsHarmless req s (serve v now random req s)
  unfolding serve hmac_auth routed
  serve-unsigned now random req s separate = elim (Bool-cases (str_eq req.path (text "/health"))) [
    | inl e ↦
        rw e
          (inr (health_route now random req s (eq_of_str_eq req.path (text "/health") e) separate))
    | inr e ↦ rw e (verified-entry now random req s)
  ]
