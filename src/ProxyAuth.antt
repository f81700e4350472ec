-- ===== src/ProxyAuth.antt =====
-- packages/siwa/src/proxy-auth.ts. The hexadecimal HMAC and `toUpperCase` are a parameter; the clock is
-- an argument. The text of a drift error leaves out the numbers.
pub mod Window
use siwa.Base.{
  ℕ, ◌+◌, ◌-◌, Bool, true, false, ◌||◌, not, Option, none, some, [], ◌∷◌, ◌++◌, ◌==◌, if◌then◌else◌,
  ltb, leb, length, Result, ok, throws, String,
}
use siwa.Base.Int.{ℤ, pos, negsuc, Number, nan, int}
use siwa.Base.Numbers.{show_nat, parse_int_10}
use siwa.Base.Str.{Str, text, str_eq}
use siwa.Token.Bytes.{utf8, timing_safe_equal}

pub record Hashing : Type 0 where
  -- crypto.createHmac('sha256', secret).update(data).digest('hex')
  pub hmac_hex : Str → Str → Str
  pub to_upper : Str → Str

abbrev pub max_drift_ms : ℕ
max_drift_ms = 30000

pub record HmacHeaders : Type 0 where
  pub timestamp : Str
  pub signature : Str

pub data Verdict : Type 0 where
  valid : Verdict
  invalid : Str → Verdict

-- Math.abs(now - ts)
unfoldable pub drift : ℕ → ℤ → ℕ
drift now (pos ts) = if leb ts now then now - ts else ts - now
drift now (negsuc n) = now + n + 1

module _ (h : Hashing) where
  unfoldable pub signed_payload : (method path timestamp body : Str) → Str
  signed_payload method path timestamp body =
      h.to_upper method ++ (b'\n' ∷ path ++ (b'\n' ∷ timestamp ++ (b'\n' ∷ body)))

  unfoldable pub compute_hmac : ℕ → (secret method path body : Str) → HmacHeaders
  unfolding signed_payload show_nat
  compute_hmac now secret method path body = record {
    timestamp = show_nat now;
    signature = h.hmac_hex secret (signed_payload method path (show_nat now) body);
  }

  verdict : Result Bool → Result Verdict
  unfolding text
  verdict (throws e) = throws e
  verdict (ok true) = ok valid
  verdict (ok false) = ok (invalid (text "Signature mismatch"))

  unfoldable pub compare_bytes : Str → Str → Result Verdict
  unfolding text verdict
  compare_bytes signature expected =
      if not (length (utf8 signature) == length (utf8 expected))
      then ok (invalid (text "Signature mismatch"))
      else verdict (timing_safe_equal (utf8 signature) (utf8 expected))

  unfoldable pub in_window : ℕ → Number → Result Verdict → Result Verdict
  unfolding text drift
  in_window now nan later = ok (invalid (text "Invalid timestamp"))
  in_window now (int ts) later =
      if ltb max_drift_ms (drift now ts)
      then ok (invalid (text "Timestamp drift exceeds limit"))
      else later

  unfoldable pub verify_hmac :
      ℕ → (secret method path body timestamp signature : Str) → Result Verdict
  verify_hmac now secret method path body timestamp signature =
      in_window now (parse_int_10 timestamp)
        (compare_bytes signature (h.hmac_hex secret (signed_payload method path timestamp body)))
