-- ===== src/Base/Json.antt =====
-- JSON values, as `JSON.parse` gives them.
use siwa.Base.Str.{Str}
use siwa.Base.Tests.{if◌then◌else◌}
use siwa.Base.Int.{ℤ, Number, nan, int}
use Prim.Native.String.{String}
use text.Mathlib.Text.{◌==◌}
use mathlib.Core.Bool.{Bool}
use mathlib.Core.Option.{Option, none, some}

mutual
  pub data Json : Type 0 where
    null : Json
    bool : Bool → Json
    num : ℤ → Json
    str : Str → Json
    arr : Items → Json
    obj : Fields → Json

  pub data Items : Type 0 where
    nil : Items
    cons : Json → Items → Items

  pub data Fields : Type 0 where
    end : Fields
    field : String → Json → Fields → Fields

unfoldable pub get_field : String → Fields → Option Json
get_field k end = none
get_field k (field j v fs) = let rest = get_field k fs in if j == k then some v else rest

-- `value.k`; a value that is no object has none of the fields that are read here.
unfoldable pub get : Json → String → Option Json
unfolding get_field
get (obj fs) k = get_field k fs
get v k = none

-- `JSON.stringify` writes NaN as null.
abbrev pub json_number : Number → Json
json_number nan = null
json_number (int z) = num z
