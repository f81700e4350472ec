-- ===== src/Keyring/Endpoints.antt =====
-- packages/keyring-proxy/src/index.ts: what each endpoint does, and which requests reach one.
pub mod Guarded
pub mod Entry
pub mod Shown
use siwa.Base.{
  ℕ, Bool, true, false, ◌&&◌, ◌||◌, not, Option, none, some, List, [], ◌∷◌, ◌++◌, Result, ok,
  throws, String, if◌then◌else◌, or_else,
}
use siwa.Base.Int.{Number}
use siwa.Base.Json.{Json, null, str, obj, get}
use siwa.Base.Str.{Str, text, str_eq, contains}
use siwa.Approvals.{Operation, sign_message, sign_transaction, sign_authorization}
use siwa.Erc8128.Steps.{
  Exit, goes, returns, raises, Step, ◌>>=◌, ◌>>◌, lift, pass, stop, require, stateful,
  stateful_exit,
}
use siwa.ProxyAuth.{Hashing, Verdict, valid, invalid, verify_hmac}
use siwa.Keyring.Approval.{TfaConfig, TfaServer, require_tfa_approval}
use siwa.Keyring.Serialize.{Value, serialize_big_int}
use siwa.Keyring.Transactions.{
  Signing, SignResult, message_payload, transaction_payload, authorization_payload, shown_chain,
  sign_message_internal, sign_transaction_internal, sign_authorization_internal,
}
use siwa.Keyring.Values.{Coercions, truthy, object_value}
use siwa.Keyring.Wallet.{
  KeystoreFile, Randomness, WalletInfo, create_wallet_internal, has_wallet_internal,
  get_address_internal,
}
use siwa.Keyring.Server.{
  Request, AuditEntry, Proxy, Body, health, created_wallet, exists, address_of_wallet, signed,
  authorization, error, Reply, Halt, failed, Services, audit, finish, finish_wallet, required,
  approved_exit, read_file,
}

-- typeof message === "string"
abbrev pub text_value : Option Json → Option Str
text_value (some (str s)) = some s
text_value v = none

-- Taking a member of `req.body` apart; a body that is undefined throws.
unfoldable pub member_of : {W : Type 0} → Option Json → String → Step (Proxy W) Halt (Option Json)
unfolding text get
member_of none key s =
    (s, raises (text "Cannot destructure property of 'req.body' as it is undefined."))
member_of (some body) key s = (s, goes (get body key))

unfoldable pub body_member : {W : Type 0} → Request → String → Step (Proxy W) Halt (Option Json)
unfolding member_of
body_member req key s = member_of req.body key s

-- req.body ?? {}
abbrev pub optional_member : Request → String → Option Json
unfolding get
optional_member req key = elim req.body [ none ↦ none | some body ↦ get body key ]

abbrev pub answer : {A : Type 0} → (A → Body) → Result A → Result Body
answer body (ok a) = ok (body a)
answer body (throws e) = throws e

module _ {W : Type 0} (v : Services W) (now : ℕ) where
  -- await requireTFAApproval(…)
  unfoldable pub approve :
      Operation → (wallet : Str) → (payload : Json) → Option Number → Step (Proxy W) Halt (Unit {0})
  approve operation wallet payload chain_id s =
      approved_exit s
        (require_tfa_approval v.tfa_server v.tfa operation wallet payload chain_id s.world)

  unfoldable pub wallet_address : KeystoreFile → Result Str
  wallet_address = get_address_internal v.crypto v.json v.config

  unfoldable pub message_steps : Request → Step (Proxy W) Halt Body
  unfolding text wallet_address optional_member
  message_steps req = do
    message ←
        required now req (text_value (optional_member req "message")) (text "Missing message field")
          (text "Missing \"message\" field (string)")
    address ← read_file wallet_address
    approve sign_message address (message_payload message) none
    result ← read_file (
        sign_message_internal v.crypto v.json v.config v.signing message
          (truthy (optional_member req "raw")))
    pass (signed result)

  unfoldable pub transaction_steps : Request → Step (Proxy W) Halt Body
  unfolding text wallet_address get
  transaction_steps req = do
    found ← body_member req "tx"
    tx ←
        required now req (object_value found) (text "Missing tx field")
          (text "Missing \"tx\" field")
    address ← read_file wallet_address
    approve sign_transaction address (transaction_payload tx)
        (shown_chain v.coerce (get tx "chainId"))
    result ← read_file (sign_transaction_internal v.crypto v.json v.config v.signing v.coerce tx)
    pass (signed result)

  unfoldable pub authorization_steps : Request → Step (Proxy W) Halt Body
  unfolding text wallet_address get
  authorization_steps req = do
    found ← body_member req "auth"
    auth ←
        required now req (object_value found) (text "Missing auth field")
          (text "Missing \"auth\" field")
    address ← read_file wallet_address
    approve sign_authorization address (authorization_payload auth)
        (shown_chain v.coerce (get auth "chainId"))
    result ← read_file (sign_authorization_internal v.crypto v.json v.config v.signing auth)
    pass (authorization (serialize_big_int result))

  abbrev pub kept_file : Proxy W → KeystoreFile × Result WalletInfo → Proxy W × Result Body
  kept_file s (file, result) = (record s { file = file }, answer created_wallet result)

  unfoldable pub create_wallet_endpoint : Randomness → Request → Proxy W → Proxy W × Reply
  create_wallet_endpoint random req s =
      finish_wallet now req
        (kept_file s (create_wallet_internal v.crypto v.json v.config random s.file))

  unfoldable pub has_wallet_endpoint : Request → Proxy W → Proxy W × Reply
  has_wallet_endpoint req s =
      finish_wallet now req (s, answer exists (has_wallet_internal v.crypto v.json v.config s.file))

  unfoldable pub get_address_endpoint : Request → Proxy W → Proxy W × Reply
  unfolding wallet_address
  get_address_endpoint req s =
      finish_wallet now req (s, answer address_of_wallet (wallet_address s.file))

  unfoldable pub sign_message_endpoint : Request → Proxy W → Proxy W × Reply
  sign_message_endpoint req s = finish now req (message_steps req s)

  unfoldable pub sign_transaction_endpoint : Request → Proxy W → Proxy W × Reply
  sign_transaction_endpoint req s = finish now req (transaction_steps req s)

  unfoldable pub sign_authorization_endpoint : Request → Proxy W → Proxy W × Reply
  sign_authorization_endpoint req s = finish now req (authorization_steps req s)

  unauthorized : Request → Str → Proxy W → Proxy W × Option Reply
  unauthorized req message s =
      (audit now req false (some message) s, some (record { status = 401; body = error message }))

  unfoldable pub judged : Request → Result Verdict → Proxy W → Proxy W × Option Reply
  unfolding text unauthorized
  judged req (throws e) s = (s, some (record { status = 500; body = error e }))
  judged req (ok valid) s = (s, none)
  judged req (ok (invalid message)) s = unauthorized req message s

  unfoldable pub signed_headers : Option Str → Option Str → Option (Str × Str)
  signed_headers (some (t ∷ ts)) (some (g ∷ gs)) = some (t ∷ ts, g ∷ gs)
  signed_headers timestamp signature = none

  verified : Request → Option (Str × Str) → Proxy W → Proxy W × Option Reply
  unfolding text unauthorized judged
  verified req none s = unauthorized req (text "Missing HMAC headers") s
  verified req (some (timestamp, signature)) s =
      judged req
        (verify_hmac v.hashing now v.config.secret req.method req.path req.raw_body timestamp
          signature)
        s

  -- The middleware; no reply stands for `next()`.
  unfoldable pub hmac_auth : Request → Proxy W → Proxy W × Option Reply
  unfolding text str_eq verified signed_headers
  hmac_auth req s =
      if str_eq req.path (text "/health")
      then (s, none)
      else verified req (signed_headers req.timestamp req.signature) s

  -- Express runs the handler of a GET for HEAD, too.
  unfoldable pub gets : Request → Bool
  unfolding text str_eq
  gets req = str_eq req.method (text "GET") || str_eq req.method (text "HEAD")

  -- The first registered handler that matches.
  unfoldable pub route : Randomness → Request → Proxy W → Proxy W × Reply
  unfolding text str_eq gets
  route random req s =
      let posted : String → Bool =
        λ path. str_eq req.method (text "POST") && v.matches (text path) req.path in
      if gets req && v.matches (text "/health") req.path
      then (s, record { status = 200; body = health v.config.inner_backend })
      else if posted "/create-wallet"
      then create_wallet_endpoint random req s
      else if posted "/has-wallet"
      then has_wallet_endpoint req s
      else if posted "/get-address"
      then get_address_endpoint req s
      else if posted "/sign-message"
      then sign_message_endpoint req s
      else if posted "/sign-transaction"
      then sign_transaction_endpoint req s
      else if posted "/sign-authorization"
      then sign_authorization_endpoint req s
      else (s, v.unhandled req)

  unfoldable pub routed : Randomness → Request → Proxy W × Option Reply → Proxy W × Reply
  routed random req (s, some reply) = (s, reply)
  routed random req (s, none) = route random req s

  unfoldable pub serve : Randomness → Request → Proxy W → Proxy W × Reply
  serve random req s = routed random req (hmac_auth req s)
