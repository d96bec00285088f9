-- ===== src/Base/Json/Access.antt =====
-- How the tools read JSON values: `dict.get`, `isinstance`, truth values and `str`.
use kris_ai.Base.Tests.{if◌then◌else◌}
use Prim.Native.String.{String}
use mathlib.Core.Bool.{Bool, true, false, not, ◌||◌}
use mathlib.Core.Option.{Option, none, some}
use mathlib.Core.List.{List, [], ◌∷◌}
use text.Mathlib.Text.{◌==◌}
use kris_ai.Base.Int.{ℤ, pos}
use kris_ai.Base.Outcome.{Outcome, ok, raise, ◌>>=◌}
use kris_ai.Base.Json.{
  Json, null, bool, int, real, str, arr, obj, Items, nil, item, Fields, end, field,
}
use kris_ai.Base.Json.Print.{decimal_ℤ}

-- `key in d`, with the value
unfoldable pub find : String → Fields → Option Json
find key end = none
find key (field other value rest) = if other == key then some value else find key rest

-- `d.get(key, default)`
unfoldable pub get_default : String → Json → Fields → Json
get_default key default end = default
get_default key default (field other value rest) =
    if other == key then value else get_default key default rest

-- `d.get(key)`
unfoldable pub get : String → Fields → Json
unfolding get_default
get key d = get_default key null d

-- `d.get(key)` at a key that is any JSON value: one that cannot be hashed raises `TypeError`, and
-- one that is no string is not found.
unfoldable pub get_at : Json → Fields → Outcome Json
unfolding get
get_at (str key) d = ok (get key d)
get_at (arr xs) d = raise "TypeError: unhashable type"
get_at (obj fs) d = raise "TypeError: unhashable type"
get_at _ d = ok null

-- The list of an array.
unfoldable pub to_list : Items → List Json
to_list nil = []
to_list (item v rest) = v ∷ to_list rest

-- `value is True`
abbrev pub is_true : Json → Bool
is_true (bool true) = true
is_true _ = false

-- `value is False`
abbrev pub is_false : Json → Bool
is_false (bool false) = true
is_false _ = false

-- `value == text`
abbrev pub is_text : String → Json → Bool
is_text text (str s) = s == text
is_text text _ = false

-- `isinstance(value, int)`, which a Boolean is too, with the value as a number
abbrev pub as_int : Json → Option ℤ
as_int (int n) = some n
as_int (bool true) = some (pos 1)
as_int (bool false) = some (pos 0)
as_int _ = none

-- `bool(value)`
unfoldable pub truthy : Json → Bool
truthy null = false
truthy (bool b) = b
truthy (int (pos Prim.Native.Nat.zero)) = false
truthy (int _) = true
truthy (real text) = not (text == "0.0" || text == "-0.0")
truthy (str text) = not (text == "")
truthy (arr nil) = false
truthy (arr (item v rest)) = true
truthy (obj end) = false
truthy (obj (field k v rest)) = true

-- `value or {}`
unfoldable pub or_empty : Json → Json
unfolding truthy
or_empty value = if truthy value then value else obj end

-- `str(value)`. The text of an array or an object is only known to begin with a bracket: the tools
-- compare such texts with names, which do not.
unfoldable pub py_str : Json → String
unfolding decimal_ℤ
py_str null = "None"
py_str (bool true) = "True"
py_str (bool false) = "False"
py_str (int n) = decimal_ℤ n
py_str (real text) = text
py_str (str text) = text
py_str (arr xs) = "["
py_str (obj fs) = "{"

module _ {ℓ κ} {A : Type ℓ} {B : Type κ} where
  -- `[f(x) for x in xs]` where `f` may raise
  unfoldable pub traverse : (A → Outcome B) → List A → Outcome (List B)
  traverse f [] = ok []
  traverse f (x ∷ xs) = do first ← f x; others ← traverse f xs; ok (first ∷ others)
