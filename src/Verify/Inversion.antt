-- ===== src/Verify/Inversion.antt =====
-- What a step of `verifySIWA` that goes on has established.
use siwa.Base.{ℕ, true, false, Option, some, ok, ◌≡◌, arith, Result-cases, inl, inr, ap, ◌∙◌, subst}
use siwa.Base.Str.{Str, str_eq}
use siwa.Base.Str.Laws.{eq_of_str_eq}
use siwa.Message.{SiwaMessageFields, given}
use siwa.Receipt.{SignerType}
use siwa.Registry.{PublicClient, big_int}
use siwa.Runtime.{Runtime}
use siwa.Verify.Flow.{proceeds, bind_result}
use siwa.Verify.Keeps.{>>=-proceeds, pass-proceeds}
use siwa.Verify.{
  NonceValidator, is_after, is_before, check_signature, check_nonce, check_window, check_owner,
  known_registry, registry_address, nonce_ok, check_registration,
}

module _ (r : Runtime) {S : Type 0} (client : PublicClient) (f : SiwaMessageFields) where
  pub check_signature-proceeds :
      (message signature : Str) (s : S) {s' : S} {signer : SignerType}
      → check_signature r client message signature f s ≡ (s', proceeds signer)
      → (client.verify_message f.address message signature ≡ ok true) × (s ≡ s')
  unfolding check_signature
  check_signature-proceeds message signature s e = ground arith

  pub check_nonce-proceeds :
      (validator : NonceValidator S) (now : ℕ) (s : S) {s' : S} {u : Unit {0}}
      → check_nonce r validator now f s ≡ (s', proceeds u)
      → nonce_ok r validator now f s ≡ (s', proceeds true)
  unfolding check_nonce
  check_nonce-proceeds validator now s e = ground arith

  pub check_window-proceeds :
      (now : ℕ) (s : S) {s' : S} {u : Unit {0}}
      → check_window r now f s ≡ (s', proceeds u)
      → (is_after r (given f.expiration_time) now ≡ false)
        × (is_before r (given f.not_before) now ≡ false)
        × (s ≡ s')
  unfolding check_window
  check_window-proceeds now s e = ground arith

  pub check_owner-proceeds :
      (registry : Str) (s : S) {s' : S} {u : Unit {0}}
      → check_owner r client f registry s ≡ (s', proceeds u)
      → (owner : Str) × (bind_result (big_int f.agent_id) (client.owner_of registry) ≡ ok owner)
        × (r.to_lower owner ≡ r.to_lower f.address)
        × (s ≡ s')
  unfolding check_owner
  check_owner-proceeds registry s {s'} e =
      elim (Result-cases (bind_result (big_int f.agent_id) (client.owner_of registry))) [
        | inl (owner, found) ↦
            let (same, kept) = owner_test owner found in
            (owner, found, eq_of_str_eq (r.to_lower owner) (r.to_lower f.address) same, kept)
        | inr (m, thrown) ↦ absurd (ground arith)
      ]
    where
      owner_test :
          (owner : Str)
          → bind_result (big_int f.agent_id) (client.owner_of registry) ≡ ok owner
          → (str_eq (r.to_lower owner) (r.to_lower f.address) ≡ true) × (s ≡ s')
      owner_test owner found = ground arith

  known_registry-proceeds :
      (o : Option Str) (s : S) {s' : S} {registry : Str}
      → known_registry r f o s ≡ (s', proceeds registry)
      → (o ≡ some registry) × (s ≡ s')
  unfolding known_registry
  known_registry-proceeds o s e = ground arith

-- What `check_registration` has established of the fields at the time `now`.
pub record IsRegistered (r : Runtime) (client : PublicClient) (now : ℕ) (f : SiwaMessageFields)
    (registry : Str) : Type 0 where
  pub not_expired : is_after r (given f.expiration_time) now ≡ false
  pub not_early : is_before r (given f.not_before) now ≡ false
  pub known : registry_address f.agent_registry ≡ some registry
  pub owner : Str
  pub owned : bind_result (big_int f.agent_id) (client.owner_of registry) ≡ ok owner
  pub same_owner : r.to_lower owner ≡ r.to_lower f.address

module _ (r : Runtime) {S : Type 0} (client : PublicClient) where
  pub check_registration-proceeds :
      (now : ℕ) (f : SiwaMessageFields) (s : S) {s' : S} {registry : Str}
      → check_registration r client now f s ≡ (s', proceeds registry)
      → IsRegistered r client now f registry × (s ≡ s')
  unfolding check_registration
  check_registration-proceeds now f s e =
      let (u, t, window, e₁) = >>=-proceeds (check_window r now f) _ s e in
      let (a, t₁, known, e₂) =
        >>=-proceeds (known_registry r f (registry_address f.agent_registry)) _ t e₁ in
      let (v, t₂, owned, e₃) = >>=-proceeds (check_owner r client f a) _ t₁ e₂ in
      let (late, early, same_s) = check_window-proceeds r client f now s window in
      let (listed, same_t) =
        known_registry-proceeds r client f (registry_address f.agent_registry) t known in
      let (owner, found, same, same_t₁) = check_owner-proceeds r client f a t₁ owned in
      let (same_a, same_t₂) = pass-proceeds a t₂ e₃ in
      (
        record {
          not_expired = late;
          not_early = early;
          known = listed ∙ ap some same_a;
          owner = owner;
          owned =
              subst (λ a. bind_result (big_int f.agent_id) (client.owner_of a) ≡ ok owner) same_a
                found;
          same_owner = same;
        },
        same_s ∙ same_t ∙ same_t₁ ∙ same_t₂,
      )
