-- ===== src/Keyring/Values.antt =====
-- JavaScript's readings of JSON values that packages/keyring-proxy/src/index.ts relies on.
use siwa.Base.{Bool, true, false, not, Option, none, some, [], ◌∷◌, Result, ok, throws, ◌==◌}
use siwa.Base.Int.{ℤ, pos, negsuc, Number}
use siwa.Base.Json.{Json, null, bool, num, str, arr, obj}
use siwa.Base.Str.{Str}

-- BigInt(text) and Number(value)
pub record Coercions : Type 0 where
  pub big_int : Str → Result ℤ
  pub to_number : Json → Number

unfoldable pub truthy_json : Json → Bool
truthy_json null = false
truthy_json (bool b) = b
truthy_json (num (pos n)) = not (n == 0)
truthy_json (num (negsuc n)) = true
truthy_json (str []) = false
truthy_json (str (c ∷ s)) = true
truthy_json (arr items) = true
truthy_json (obj fields) = true

abbrev pub truthy : Option Json → Bool
truthy none = false
truthy (some v) = truthy_json v

-- a ?? b
abbrev pub nullish : Option Json → Option Json → Option Json
nullish none b = b
nullish (some null) b = b
nullish (some v) b = some v

-- value && typeof value === "object"
abbrev pub object_value : Option Json → Option Json
object_value (some (arr items)) = some (arr items)
object_value (some (obj fields)) = some (obj fields)
object_value v = none

abbrev pub wrapped : Result ℤ → Result (Option ℤ)
wrapped (throws e) = throws e
wrapped (ok z) = ok (some z)

unfoldable pub parse_big_int : Coercions → Option Json → Result (Option ℤ)
parse_big_int coerce (some (num z)) = ok (some z)
parse_big_int coerce (some (str s)) = wrapped (coerce.big_int s)
parse_big_int coerce v = ok none

-- v != null ? Number(v) : undefined
unfoldable pub optional_number : Coercions → Option Json → Option Number
optional_number coerce none = none
optional_number coerce (some null) = none
optional_number coerce (some v) = some (coerce.to_number v)
