-- ===== src/Wrappers/Cors.antt =====
-- packages/siwa/src/server-side-wrappers: the CORS headers of express.ts and hono.ts `siwaCors`, next.ts
-- `corsHeaders`, and the answer to a preflight.
use siwa.Base.{ℕ, Bool, Option, none, some, List, [], ◌∷◌, ◌++◌, if◌then◌else◌, or_else}
use siwa.Base.Str.{Str, text, join, str_eq}

pub record SiwaCorsOptions : Type 0 where
  pub origin : Option Str
  pub methods : Option (List Str)
  pub headers : Option (List Str)
  pub x402 : Bool

abbrev pub Header : Type 0
Header = Str × Str

unfoldable pub default_siwa_headers : List Str
unfolding text
default_siwa_headers =
    text "Content-Type"
    ∷ text "X-SIWA-Receipt"
    ∷ text "X-SIWA-Challenge-Response"
    ∷ text "Signature"
    ∷ text "Signature-Input"
    ∷ text "Content-Digest"
    ∷ []

-- Hono's list has no X-SIWA-Challenge-Response.
unfoldable pub hono_siwa_headers : List Str
unfolding text
hono_siwa_headers =
    text "Content-Type"
    ∷ text "X-SIWA-Receipt"
    ∷ text "Signature"
    ∷ text "Signature-Input"
    ∷ text "Content-Digest"
    ∷ []

unfoldable pub x402_cors_headers : List Str
unfolding text
x402_cors_headers = text "Payment-Signature" ∷ text "Payment-Required" ∷ []

unfoldable pub x402_expose_headers : List Str
unfolding text
x402_expose_headers = text "Payment-Required" ∷ text "Payment-Response" ∷ []

-- A comma and a space between the names of a list that the options give as one text or as a list.
unfoldable pub listed : List Str → Str
unfolding text join
listed names = join (text ", ") names

abbrev pub default_methods : List Str
unfolding text
default_methods = text "GET" ∷ text "POST" ∷ text "OPTIONS" ∷ []

unfoldable pub allowed_headers : List Str → SiwaCorsOptions → List Str
unfolding x402_cors_headers
allowed_headers defaults options =
    let headers = or_else options.headers defaults in
    if options.x402 then headers ++ x402_cors_headers else headers

-- The headers, and the status of the answer where the request is a preflight.
pub record Preflight : Type 0 where
  pub headers : List Header
  pub status : Option ℕ

unfoldable pub preflight_status : Str → Option ℕ
unfolding text str_eq
preflight_status method = if str_eq method (text "OPTIONS") then some 204 else none

unfoldable pub express_cors : SiwaCorsOptions → (method : Str) → Preflight
unfolding text listed allowed_headers default_siwa_headers x402_expose_headers preflight_status
express_cors options method = record {
  headers =
      (text "Access-Control-Allow-Origin", or_else options.origin (text "*"))
      ∷ (text "Access-Control-Allow-Methods", listed (or_else options.methods default_methods))
      ∷ (text "Access-Control-Allow-Headers", listed (allowed_headers default_siwa_headers options))
      ∷ (
        text "Access-Control-Expose-Headers",
        listed (text "X-SIWA-Challenge" ∷ (if options.x402 then x402_expose_headers else [])),
      )
      ∷ [];
  status = preflight_status method;
}

unfoldable pub hono_cors : SiwaCorsOptions → (method : Str) → Preflight
unfolding text listed allowed_headers hono_siwa_headers x402_expose_headers preflight_status
hono_cors options method = record {
  headers =
      (text "Access-Control-Allow-Origin", or_else options.origin (text "*"))
      ∷ (text "Access-Control-Allow-Methods", listed (or_else options.methods default_methods))
      ∷ (text "Access-Control-Allow-Headers", listed (allowed_headers hono_siwa_headers options))
      ∷ (if options.x402
          then (text "Access-Control-Expose-Headers", listed x402_expose_headers) ∷ []
          else []);
  status = preflight_status method;
}

unfoldable pub cors_headers : (x402 : Bool) → List Header
unfolding text listed default_siwa_headers x402_cors_headers x402_expose_headers default_methods
cors_headers x402 =
    (text "Access-Control-Allow-Origin", text "*")
    ∷ (text "Access-Control-Allow-Methods", listed default_methods)
    ∷ (
      text "Access-Control-Allow-Headers",
      listed (default_siwa_headers ++ (if x402 then x402_cors_headers else [])),
    )
    ∷ (if x402 then (text "Access-Control-Expose-Headers", listed x402_expose_headers) ∷ [] else [])
