-- ===== src/Gateway.antt =====
-- packages/2fa-gateway/src/index.ts: the rate limit and the public webhook. The call of the internal
-- server is a step on a state `W`. Logging is left out.
pub mod Limit
use siwa.Base.{
  ℕ, ◌+◌, ◌-◌, Bool, true, false, not, Option, none, some, List, [], ◌∷◌, ◌++◌, if◌then◌else◌, ltb,
  leb, length, or_else, Result, ok, throws, String,
}
use siwa.Base.Json.{Json, num, get}
use siwa.Base.JsMap.{JsMap, set}
use siwa.Base.Str.{Str, text}

abbrev pub rate_limit_window_ms : ℕ
rate_limit_window_ms = 60000

abbrev pub rate_limit_max_requests : ℕ
rate_limit_max_requests = 60

-- A clock that went back makes a difference below the window, as the subtraction here does.
abbrev pub in_window : (now timestamp : ℕ) → Bool
in_window now timestamp = ltb (now - timestamp) rate_limit_window_ms

unfoldable pub recent : ℕ → List ℕ → List ℕ
recent now [] = []
recent now (t ∷ ts) = let rest = recent now ts in if in_window now t then t ∷ rest else rest

-- The requests of each address.
abbrev pub RateLimits : Type 0
RateLimits = JsMap (List ℕ)

unfoldable pub limited : ℕ → Str → List ℕ → RateLimits → RateLimits × Bool
limited now ip recent_requests m =
    if leb rate_limit_max_requests (length recent_requests)
    then (m, true)
    else (set ip (recent_requests ++ (now ∷ [])) m, false)

unfoldable pub is_rate_limited : ℕ → Str → RateLimits → RateLimits × Bool
is_rate_limited now ip m = limited now ip (recent now (or_else (siwa.Base.JsMap.get ip m) [])) m

pub record Reply : Type 0 where
  pub status : ℕ
  pub body : Result Json

-- POST /internal-webhook with its status and its JSON; fetch and response.json() may throw
pub record Internal (W : Type 0) : Type 0 where
  pub forward : Json → W → W × Result (ℕ × Json)

pub record Gateway (W : Type 0) : Type 0 where
  pub rate_limits : RateLimits
  pub world : W

unfoldable pub is_update : Option Json → Bool
is_update (some (num z)) = true
is_update v = false

module _ {W : Type 0} (internal : Internal W) where
  unfoldable pub forwarded : RateLimits → W × Result (ℕ × Json) → Gateway W × Reply
  unfolding text
  forwarded limits (w, ok (status, answer)) =
      (record { rate_limits = limits; world = w }, record { status = status; body = ok answer })
  forwarded limits (w, throws e) = (
    record { rate_limits = limits; world = w },
    record { status = 502; body = throws (text "Failed to forward to internal server") },
  )

  unfoldable pub admitted : Json → W → RateLimits × Bool → Gateway W × Reply
  unfolding text get is_update forwarded
  admitted body w (limits, true) = (
    record { rate_limits = limits; world = w },
    record { status = 429; body = throws (text "Too many requests") },
  )
  admitted body w (limits, false) =
      if not (is_update (get body "update_id"))
      then (
        record { rate_limits = limits; world = w },
        record { status = 400; body = throws (text "Invalid Telegram update") },
      )
      else forwarded limits (internal.forward body w)

  unfoldable pub webhook : ℕ → (ip : Str) → (body : Json) → Gateway W → Gateway W × Reply
  unfolding is_rate_limited admitted
  webhook now ip body s = admitted body s.world (is_rate_limited now ip s.rate_limits)
