-- ===== src/Verify/Stateless.antt =====
-- How a nonce token is judged.
use siwa.Base.{ℕ, not, some, ltb, ok, ◌≡◌, arith, ap}
use siwa.Base.Int.{pos}
use siwa.Base.Json.{num, str, obj, Fields, get}
use siwa.Base.Str.{Str}
use siwa.Base.Str.Laws.{str_eq_refl}
use siwa.Message.{SiwaMessageFields}
use siwa.Runtime.{Runtime}
use siwa.Token.{verify_nonce_token}
use siwa.Verify.{
  stateless, nonce_ok, token_nonce, token_ok, token_expired, same_text, address_mismatch,
  truthy_payload, number_expired,
}
use siwa.Verify.Flow.{proceeds}

module _ (r : Runtime) where
  token_ok-fields :
      (now exp : ℕ) (f : SiwaMessageFields) (fs : Fields)
      → get (obj fs) "exp" ≡ some (num (pos exp))
      → get (obj fs) "nonce" ≡ some (str f.nonce)
      → get (obj fs) "address" ≡ some (str f.address)
      → token_ok r now f (obj fs) ≡ not (ltb exp now)
  unfolding token_ok token_expired number_expired same_text address_mismatch
  token_ok-fields now exp f fs e n a =
      rw (e, n, a) (ground (arith, str_eq_refl f.nonce, str_eq_refl (r.to_lower f.address)))

module _ (r : Runtime) {S : Type 0} where
  -- A token whose payload names the message's nonce and address is accepted exactly until its `exp`.
  pub nonce_ok-stateless :
      (token secret : Str) (now exp : ℕ) (f : SiwaMessageFields) (fs : Fields) (s : S)
      → verify_nonce_token r token secret ≡ ok (some (obj fs))
      → get (obj fs) "exp" ≡ some (num (pos exp))
      → get (obj fs) "nonce" ≡ some (str f.nonce)
      → get (obj fs) "address" ≡ some (str f.address)
      → nonce_ok r (stateless token secret) now f s ≡ (s, proceeds (not (ltb exp now)))
  unfolding nonce_ok token_nonce truthy_payload
  nonce_ok-stateless token secret now exp f fs s read e n a =
      rw read (ap (λ b. (s, proceeds b)) (token_ok-fields r now exp f fs e n a))
