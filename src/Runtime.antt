-- ===== src/Runtime.antt =====
-- What the sources call and do not implement: Node's crypto and text codecs, and ECMAScript's
-- `toLowerCase`, `Date` and number coercion. A parameter of the definitions; the laws that a theorem
-- needs stand in `Laws`.
use siwa.Base.{ℕ, Option, ◌≡◌, ◌≢◌, ◌<◌, Result, All, []}
use siwa.Base.Int.{ℤ, Number, int}
use siwa.Base.Doubles.{Doubles}
use siwa.Base.Json.{Json, num}
use siwa.Base.Str.{Str}
use siwa.Base.Str.Splitting.{Lacks}

pub record Runtime : Type 0 where
  -- crypto.createHmac('sha256', secret).update(data).digest('base64url')
  pub hmac : Str → Str → Str
  -- Buffer.from(JSON.stringify(value)).toString('base64url')
  pub encode : Json → Str
  -- JSON.parse(Buffer.from(data, 'base64url').toString()), which may throw a SyntaxError
  pub decode : Str → Result Json
  -- Number(value)
  pub to_number : Json → Number
  pub doubles : Doubles
  -- s.toLowerCase()
  pub to_lower : Str → Str
  -- new Date(s).getTime(), with no value where the date is invalid
  pub date_parse : Str → Option ℤ
  -- new Date(ms).toISOString()
  pub to_iso_string : ℕ → Str

-- What is documented of them: base64url is ASCII without a dot, neither a digest nor a JSON text
-- is empty, and a number is its own coercion. That a value is read back, `r.decode (r.encode v) ≡ ok v`,
-- is a hypothesis on the value where it is needed.
pub record Laws (r : Runtime) : Type 0 where
  pub hmac_ascii : (secret t : Str) → All (λ c. c < 128) (r.hmac secret t)
  pub hmac_given : (secret t : Str) → r.hmac secret t ≢ []
  pub encode_no_dot : (v : Json) → Lacks b'.' (r.encode v)
  pub encode_given : (v : Json) → r.encode v ≢ []
  pub to_number_num : (z : ℤ) → r.to_number (num z) ≡ int z
