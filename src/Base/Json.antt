-- ===== src/Base/Json.antt =====
-- JSON values as Python's `json` decodes them, and the readers of a payload's fields.
use Prim.Native.Nat.{ℕ, suc, ◌-◌, ◌*◌, ◌^◌}
use Prim.Native.String.{String}
use text.Mathlib.Text.{◌==◌ as str_eq}
use mathlib.Core.Bool.{Bool, true, false}
use mathlib.Core.Option.{Option, none, some}
use rclone_kit.Base.Tests.{◌==◌, if◌then◌else◌}
use rclone_kit.Base.Int.{ℤ, pos, negsuc}

-- A float is counted in a unit so small that it is whole; a second is `second` of them.
mutual
  pub data Json : Type 0 where
    null : Json
    bool : Bool → Json
    int : ℤ → Json
    float : ℤ → Json
    str : String → Json
    arr : Items → Json
    obj : Fields → Json

  pub data Items : Type 0 where
    nil : Items
    cons : Json → Items → Items

  pub data Fields : Type 0 where
    end : Fields
    field : String → Json → Fields → Fields

abbrev pub second : ℕ
second = 10 ^ 9

-- `float(n)` for an int
abbrev pub float_of : ℤ → ℤ
float_of (pos n) = pos (n * second)
float_of (negsuc n) = negsuc (suc n * second - 1)

-- `payload.get(key)`; a key that is absent is `none`
abbrev pub get : Fields → String → Option Json
get end key = none
get (field k v rest) key = if str_eq k key then some v else get rest key

-- `key in payload`
abbrev pub has : Fields → String → Bool
has payload key = elim (get payload key) [ none ↦ false | some _ ↦ true ]

-- `payload.get(key)` where an absent key reads as `None`
abbrev pub get_or_null : Fields → String → Json
get_or_null payload key = elim (get payload key) [ none ↦ null | some v ↦ v ]

-- `not value`
abbrev pub is_falsy : Json → Bool
is_falsy null = true
is_falsy (bool b) = if b then false else true
is_falsy (int (pos n)) = n == 0
is_falsy (int (negsuc _)) = false
is_falsy (float (pos n)) = n == 0
is_falsy (float (negsuc _)) = false
is_falsy (str s) = str_eq s ""
is_falsy (arr nil) = true
is_falsy (arr (cons _ _)) = false
is_falsy (obj end) = true
is_falsy (obj (field _ _ _)) = false

-- `payload[key] = value`
abbrev pub put : Fields → String → Json → Fields
put end key value = field key value end
put (field k v rest) key value =
    let others = put rest key value in if str_eq k key then field k value rest else field k v others
