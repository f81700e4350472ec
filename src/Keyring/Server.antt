-- ===== src/Keyring/Server.antt =====
-- packages/keyring-proxy/src/index.ts: the endpoints, and the middleware in front of them. How Express
-- matches a path and what it answers by itself are parameters, and so is what the wallet and the second factor call.
use siwa.Base.{
  ℕ, Bool, true, false, Option, none, some, List, [], ◌∷◌, ◌++◌, Result, ok, throws, if◌then◌else◌,
}
use siwa.Base.Json.{Json}
use siwa.Base.Str.{Str, text, contains}
use siwa.Erc8128.Steps.{Exit, goes, returns, raises, Step, lift}
use siwa.ProxyAuth.{Hashing}
use siwa.Keyring.{Crypto}
use siwa.Keyring.Approval.{TfaConfig, TfaServer}
use siwa.Keyring.Serialize.{Value}
use siwa.Keyring.Transactions.{Signing, SignResult}
use siwa.Keyring.Values.{Coercions}
use siwa.Keyring.Wallet.{KeystoreJson, KeyringConfig, KeystoreFile, KeystoreBackend, WalletInfo}

-- The body is what express.json leaves in `req.body`, and `raw_body` its text.
pub record Request : Type 0 where
  pub method : Str
  pub path : Str
  pub source_ip : Str
  pub timestamp : Option Str
  pub signature : Option Str
  pub raw_body : Str
  pub body : Option Json

pub record AuditEntry : Type 0 where
  pub timestamp : ℕ
  pub method : Str
  pub path : Str
  pub source_ip : Str
  pub success : Bool
  pub error : Option Str

pub record Proxy (W : Type 0) : Type 0 where
  pub file : KeystoreFile
  pub audit_log : List AuditEntry
  pub world : W

pub data Body : Type 0 where
  health : KeystoreBackend → Body
  created_wallet : WalletInfo → Body
  exists : Bool → Body
  address_of_wallet : Str → Body
  signed : SignResult → Body
  authorization : Value → Body
  error : Str → Body
  automatic : Str → Body

pub record Reply : Type 0 where
  pub status : ℕ
  pub body : Body

-- How a handler ends early: with a response of 400 that it has sent, or an error with a status hint.
pub data Halt : Type 0 where
  bad_request : (sent : Str) → Halt
  failed : (message : Str) → (status : ℕ) → Halt

pub record Services (W : Type 0) : Type 0 where
  pub crypto : Crypto
  pub json : KeystoreJson
  pub config : KeyringConfig
  pub signing : Signing
  pub coerce : Coercions
  pub tfa : TfaConfig
  pub tfa_server : TfaServer W
  pub hashing : Hashing
  -- whether Express runs the handlers of a registered path for the path of a request
  pub matches : (registered path : Str) → Bool
  -- what Express answers by itself where no handler answers: to OPTIONS the methods of the path's
  -- handlers, to the rest that the path is not found
  pub unhandled : Request → Reply

module _ {W : Type 0} (now : ℕ) (req : Request) where
  unfoldable pub audit : Bool → Option Str → Proxy W → Proxy W
  audit success message s = record s {
    audit_log =
        s.audit_log
        ++ (record {
          timestamp = now;
          method = req.method;
          path = req.path;
          source_ip = req.source_ip;
          success = success;
          error = message;
        }
            ∷ []);
  }

  -- The catch of the signing endpoints
  unfoldable pub finish : Proxy W × Exit Halt Body → Proxy W × Reply
  unfolding text contains
  finish (s, goes body) = (audit true none s, record { status = 200; body = body })
  finish (s, returns (bad_request sent)) = (s, record { status = 400; body = error sent })
  finish (s, returns (failed message status)) =
      (audit false (some message) s, record { status = status; body = error message })
  finish (s, raises message) = (
    audit false (some message) s,
    record { status = if contains message (text "2FA") then 503 else 500; body = error message },
  )

  -- The catch of the wallet endpoints
  unfoldable pub finish_wallet : Proxy W × Result Body → Proxy W × Reply
  finish_wallet (s, ok body) = (audit true none s, record { status = 200; body = body })
  finish_wallet (s, throws message) =
      (audit false (some message) s, record { status = 500; body = error message })

module _ {W A : Type 0} (now : ℕ) (req : Request) where
  -- A required field that is missing
  unfoldable pub required : Option A → (logged sent : Str) → Step (Proxy W) Halt A
  required none logged sent s = (audit now req false (some logged) s, returns (bad_request sent))
  required (some a) logged sent s = (s, goes a)

module _ {W : Type 0} where
  -- A step on the second factor's state
  unfoldable pub approved_exit :
      Proxy W → W × Exit (Str × ℕ) (Unit {0}) → Proxy W × Exit Halt (Unit {0})
  approved_exit s (w, goes u) = (record s { world = w }, goes u)
  approved_exit s (w, returns (message, status)) =
      (record s { world = w }, returns (failed message status))
  approved_exit s (w, raises message) = (record s { world = w }, raises message)

  unfoldable pub read_file : {A : Type 0} → (KeystoreFile → Result A) → Step (Proxy W) Halt A
  read_file call s = lift (call s.file) s
