-- ===== src/Rc/Payload.antt =====
-- The field readers of rc/jobs.py: what is missing raises `KeyError`, what has another type
-- `ValueError`.
use rclone_kit.Base.{
  ℕ, String, Bool, Option, none, some, List, [], ◌∷◌, Result, ok, err, value_error, key_error,
  ◌>>=◌, str_eq, ◌==◌, if◌then◌else◌,
}
use rclone_kit.Base.Int.{ℤ}
use rclone_kit.Base.Json.{
  Json, null, bool, int, float, str, Items, nil, cons, Fields, get, get_or_null, float_of,
}

-- `payload[field]`
unfoldable pub require : Fields → String → Result Json
require payload field = elim (get payload field) [ none ↦ err key_error | some v ↦ ok v ]

abbrev pub as_str : Json → Result String
as_str (str s) = ok s
as_str _ = err value_error

-- `isinstance(value, bool)` comes first: a bool is an int to Python
abbrev pub as_int : Json → Result ℤ
as_int (int n) = ok n
as_int _ = err value_error

abbrev pub as_number : Json → Result ℤ
as_number (int n) = ok (float_of n)
as_number (float x) = ok x
as_number _ = err value_error

abbrev pub as_bool : Json → Result Bool
as_bool (bool b) = ok b
as_bool _ = err value_error

unfoldable pub require_str : Fields → String → Result String
unfolding require
require_str payload field = do v ← require payload field; as_str v

unfoldable pub require_int : Fields → String → Result ℤ
unfolding require
require_int payload field = do v ← require payload field; as_int v

unfoldable pub require_number : Fields → String → Result ℤ
unfolding require
require_number payload field = do v ← require payload field; as_number v

unfoldable pub require_bool : Fields → String → Result Bool
unfolding require
require_bool payload field = do v ← require payload field; as_bool v

abbrev opt_number : Json → Result (Option ℤ)
opt_number null = ok none
opt_number v = do x ← as_number v; ok (some x)

abbrev opt_int : Json → Result (Option ℤ)
opt_int null = ok none
opt_int v = do x ← as_int v; ok (some x)

unfoldable pub optional_number : Fields → String → Result (Option ℤ)
optional_number payload field = opt_number (get_or_null payload field)

unfoldable pub optional_percentage : Fields → String → Result (Option ℤ)
optional_percentage payload field = opt_int (get_or_null payload field)

-- `value or None` for a text: the empty one is `None`
abbrev pub text_or_none : String → Option String
text_or_none s = if str_eq s "" then none else some s

-- What `datetime.fromisoformat` makes of a text: its year, whether it names a timezone, and the
-- instant that it stands for if it does.
pub record GoTime : Type 0 where
  pub year : ℕ
  pub aware : Bool
  pub instant : ℕ

abbrev go_time : Option GoTime → Result (Option ℕ)
go_time none = err value_error
go_time (some t) =
    if t.year == 1 then ok none else if t.aware then ok (some t.instant) else err value_error

-- `_parse_go_time`: Go's zero time is `None`; `iso` is `none` where `fromisoformat` raises
unfoldable pub parse_go_time : (iso : String → Option GoTime) → Json → Result (Option ℕ)
parse_go_time iso (str s) = go_time (iso s)
parse_go_time iso _ = err value_error

-- A list of items, each read by `f`.
abbrev pub traverse_items {ℓ} : {A : Type ℓ} → (Json → Result A) → Items → Result (List A)
traverse_items f nil = ok []
traverse_items f (cons x xs) = do y ← f x; ys ← traverse_items f xs; ok (y ∷ ys)
