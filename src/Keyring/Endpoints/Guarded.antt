-- ===== src/Keyring/Endpoints/Guarded.antt =====
-- What a signature of the keyring proxy presupposes.
use siwa.Base.{
  ℕ, String, Bool, true, false, ◌&&◌, not, Option, none, some, List, [], ◌∷◌, ◌++◌, Result, ok,
  throws, ◌≡◌, ◌≢◌, refl, arith, ◌⊎◌, inl, inr, if◌then◌else◌, Bool-cases, Option-cases,
  Result-cases, >>=-ok_inv, ap, sym, subst, ◌∙◌,
}
use siwa.Base.Int.{Number}
use siwa.Base.Json.{Json, get}
use siwa.Base.Str.{Str, text}
use siwa.Approvals.{Operation, sign_transaction}
use siwa.Erc8128.Steps.{Exit, goes, returns, raises, lift, pass, >>=-goes}
use siwa.Keyring.Approval.{
  TfaResponse, tfa_request, read_response, is_tfa_required, require_tfa_approval, approval_exit,
  refusal_status, request_tfa_approval,
}
use siwa.Keyring.Transactions.{
  SignResult, ViemTx, transaction_payload, shown_chain, viem_tx, sign_transaction_internal,
}
use siwa.Keyring.Values.{object_value}
use siwa.Keyring.Wallet.{KeystoreFile, get_private_key, get_address_internal}
use siwa.Keyring.Server.{
  Request, Proxy, Body, signed, Halt, bad_request, failed, Services, finish, required,
  approved_exit, read_file,
}
use siwa.Keyring.Endpoints.{
  approve, transaction_steps, sign_transaction_endpoint, body_member, member_of, wallet_address,
}

refusal_status-goes : (reason : Option Json) (u : Unit {0}) → refusal_status reason ≢ goes u
unfolding refusal_status
refusal_status-goes none u = cc
refusal_status-goes (some (siwa.Base.Json.str [])) u = cc
refusal_status-goes (some (siwa.Base.Json.str (c ∷ s))) u = cc
refusal_status-goes (some v) u = ground arith

module _ {W : Type 0} (v : Services W) where
  -- The operation needs no approval, or the server has approved a request for it with this wallet, this
  -- payload and this chain.
  abbrev pub IsApproved : Operation → Str → Json → Option Number → W → Type 0
  IsApproved operation address payload chain_id w =
      (is_tfa_required v.tfa operation ≡ false)
      ⊎ ((response : TfaResponse) × (let (w', id) = v.tfa_server.request_id w in
            read_response v.tfa_server
              (v.tfa_server.post (tfa_request operation address payload chain_id id) w').1
            ≡ ok response)
          × (response.approved ≡ true))

  approval_exit-goes :
      (w : W) (read : Result TfaResponse) (u : Unit {0})
      → (approval_exit v.tfa_server (w, read)).1 ≡ goes u
      → (response : TfaResponse) × (read ≡ ok response) × (response.approved ≡ true)
  unfolding approval_exit
  approval_exit-goes w (throws e) u h = absurd (cc)
  approval_exit-goes w (ok response) u h =
      (response, refl, ground (arith, refusal_status-goes response.reason u))

  approved_exit-goes :
      (s t : Proxy W) (o : W × Exit (Str × ℕ) (Unit {0})) (u : Unit {0})
      → approved_exit s o ≡ (t, goes u)
      → (o.1 ≡ goes u) × (t.file ≡ s.file)
  unfolding approved_exit
  approved_exit-goes s t (w, goes x) u h = (refl, ground arith)
  approved_exit-goes s t (w, returns x) u h = absurd (cc)
  approved_exit-goes s t (w, raises x) u h = absurd (cc)

  approval-goes :
      (operation : Operation) (address : Str) (payload : Json) (chain_id : Option Number) (w : W)
      (u : Unit {0})
      → (require_tfa_approval v.tfa_server v.tfa operation address payload chain_id w).1 ≡ goes u
      → IsApproved operation address payload chain_id w
  unfolding require_tfa_approval request_tfa_approval
  approval-goes operation address payload chain_id w u h =
      let call : W × Result TfaResponse =
        request_tfa_approval v.tfa_server operation address payload chain_id w in
      let went : Bool → Type 0 =
        λ b. (if not b then (w, goes tt) else approval_exit v.tfa_server call).1 ≡ goes u in
      elim (Bool-cases (is_tfa_required v.tfa operation)) [
        | inl needed ↦
            inr (approval_exit-goes _ (read_response v.tfa_server _) u (subst went needed h))
        | inr free ↦ inl free
      ]

  approve-goes :
      (now : ℕ) (operation : Operation) (address : Str) (payload : Json) (chain_id : Option Number)
      (s t : Proxy W) (u : Unit {0})
      → approve v now operation address payload chain_id s ≡ (t, goes u)
      → IsApproved operation address payload chain_id s.world × (t.file ≡ s.file)
  unfolding approve
  approve-goes now operation address payload chain_id s t u h =
      let (went, file) = approved_exit-goes s t _ u h in
      (approval-goes operation address payload chain_id s.world u went, file)

module _ {W A : Type 0} where
  lift-goes :
      (r : Result A) (s t : Proxy W) (a : A)
      → lift {E = Halt} r s ≡ (t, goes a)
      → (r ≡ ok a) × (t ≡ s)
  lift-goes (throws e) s t a h = absurd (cc)
  lift-goes (ok b) s t a h = (ground arith, ground arith)

  read_file-goes :
      (call : KeystoreFile → Result A) (s t : Proxy W) (a : A)
      → read_file call s ≡ (t, goes a)
      → (call s.file ≡ ok a) × (t ≡ s)
  unfolding read_file
  read_file-goes call s t a h = lift-goes (call s.file) s t a h

  required-goes :
      (now : ℕ) (req : Request) (o : Option A) (logged sent : Str) (s t : Proxy W) (a : A)
      → required now req o logged sent s ≡ (t, goes a)
      → (o ≡ some a) × (t ≡ s)
  unfolding required
  required-goes now req none logged sent s t a h = absurd (cc)
  required-goes now req (some b) logged sent s t a h = (ground arith, ground arith)

module _ {W : Type 0} where
  member_of-goes :
      (sent : Option Json) (key : String) (s t : Proxy W) (found : Option Json)
      → member_of sent key s ≡ (t, goes found)
      → (body : Json) × (sent ≡ some body) × (get body key ≡ found) × (t ≡ s)
  unfolding member_of
  member_of-goes none key s t found h = absurd (cc)
  member_of-goes (some body) key s t found h = (body, refl, ground arith, ground arith)

  finish-signed :
      (now : ℕ) (req : Request) (o : Proxy W × Exit Halt Body) (s : Proxy W) (r : SignResult)
      → finish now req o ≡ (s, record { status = 200; body = signed r })
      → o ≡ (o.0, goes (signed r))
  unfolding finish
  finish-signed now req (t, goes b) s r h = ground arith
  finish-signed now req (t, returns (bad_request m)) s r h = absurd (cc)
  finish-signed now req (t, returns (failed m n)) s r h = absurd (cc)
  finish-signed now req (t, raises m) s r h = absurd (cc)

module _ {W : Type 0} (v : Services W) where
  -- What stands behind the signature of a transaction.
  pub record IsSignedTransaction (req : Request) (s : Proxy W) (r : SignResult) : Type 0 where
    pub body : Json
    pub tx : Json
    pub wallet : Str
    pub private_key : Str
    pub transaction : ViemTx
    pub sent : req.body ≡ some body
    pub member : object_value (get body "tx") ≡ some tx
    pub address : get_address_internal v.crypto v.json v.config s.file ≡ ok wallet
    pub approval :
        IsApproved v sign_transaction wallet
          (transaction_payload tx)
          (shown_chain v.coerce (get tx "chainId"))
          s.world
    pub key : get_private_key v.crypto v.json v.config s.file ≡ ok private_key
    pub converted : viem_tx v.coerce tx ≡ ok transaction
    pub signature : v.signing.sign_transaction transaction private_key ≡ ok r.signature

  same_result :
      (a b : SignResult) (s t : Proxy W)
      → pass {E = Halt} (signed a) s ≡ (t, goes (signed b))
      → a ≡ b
  same_result a b s t h = ground arith

  transaction_internal-ok :
      (tx : Json) (file : KeystoreFile) (r : SignResult)
      → sign_transaction_internal v.crypto v.json v.config v.signing v.coerce tx file ≡ ok r
      → (key : Str) × (transaction : ViemTx) × (get_private_key v.crypto v.json v.config file
          ≡ ok key)
        × (viem_tx v.coerce tx ≡ ok transaction)
        × (v.signing.sign_transaction transaction key ≡ ok r.signature)
  unfolding sign_transaction_internal
  transaction_internal-ok tx file r h =
      let (key, ek, h₁) = >>=-ok_inv (get_private_key v.crypto v.json v.config file) _ h in
      let (address, ea, h₂) = >>=-ok_inv (v.crypto.address_of key) _ h₁ in
      let (transaction, et, h₃) = >>=-ok_inv (viem_tx v.coerce tx) _ h₂ in
      let (signature, es, h₄) = >>=-ok_inv (v.signing.sign_transaction transaction key) _ h₃ in
      (key, transaction, ek, et, es ∙ ap ok (ground arith))

  transaction_steps-goes :
      (now : ℕ) (req : Request) (s t : Proxy W) (r : SignResult)
      → transaction_steps v now req s ≡ (t, goes (signed r))
      → IsSignedTransaction req s r
  unfolding transaction_steps body_member wallet_address
  transaction_steps-goes now req s t r h =
      let (found, s₁, read, h₁) = >>=-goes (body_member req "tx") _ s h in
      let (tx, s₂, present, h₂) =
        >>=-goes
          (required now req (object_value found) (text "Missing tx field")
            (text "Missing \"tx\" field"))
          _ s₁ h₁ in
      let (address, s₃, located, h₃) = >>=-goes (read_file (wallet_address v now)) _ s₂ h₂ in
      let (u, s₄, agreed, h₄) =
        >>=-goes
          (approve v now sign_transaction address (transaction_payload tx)
            (shown_chain v.coerce (get tx "chainId")))
          _ s₃ h₃ in
      let (result, s₅, made, h₅) =
        >>=-goes
          (read_file (sign_transaction_internal v.crypto v.json v.config v.signing v.coerce tx)) _
          s₄ h₄ in
      let (body, sent, member, same₁) = member_of-goes req.body "tx" s s₁ found read in
      let (is_object, same₂) = required-goes now req _ _ _ s₁ s₂ tx present in
      let (located', same₃) = read_file-goes (wallet_address v now) s₂ s₃ address located in
      let (approval, file) =
        approve-goes v now sign_transaction address (transaction_payload tx)
          (shown_chain v.coerce (get tx "chainId")) s₃ s₄ u agreed in
      let (made', same₅) = read_file-goes _ s₄ s₅ result made in
      let back : s₃ ≡ s = same₃ ∙ same₂ ∙ same₁ in
      let (key, transaction, ek, et, es) = transaction_internal-ok tx s₄.file result made' in
      record {
        body = body;
        tx = tx;
        wallet = address;
        private_key = key;
        transaction = transaction;
        sent = sent;
        member = ap object_value member ∙ is_object;
        address =
            ap (λ p. get_address_internal v.crypto v.json v.config p.file) (sym (same₂ ∙ same₁))
            ∙ located';
        approval =
            subst
              (λ p.
                IsApproved v sign_transaction address (transaction_payload tx)
                  (shown_chain v.coerce (get tx "chainId")) p.world)
              back approval;
        key =
            ap (get_private_key v.crypto v.json v.config) (sym (file ∙ ap (λ p. p.file) back)) ∙ ek;
        converted = et;
        signature = es ∙ ap (λ q. ok q.signature) (same_result result r s₅ t h₅);
      }

  -- The proxy answers with a signed transaction only if the user approved it, where the operation needs
  -- approval: the request that was approved names this wallet and the fields of this transaction; and
  -- what is signed, with the key of the keystore, is the conversion of the same transaction.
  pub sign_transaction_endpoint_sound :
      (now : ℕ) (req : Request) (s t : Proxy W) (r : SignResult)
      → sign_transaction_endpoint v now req s ≡ (t, record { status = 200; body = signed r })
      → IsSignedTransaction req s r
  unfolding sign_transaction_endpoint
  sign_transaction_endpoint_sound now req s t r h =
      transaction_steps-goes now req s _ r
        (finish-signed now req (transaction_steps v now req s) t r h)
