-- ===== src/Base/Json/Update.antt =====
-- Writing to a JSON object: `d[key] = value` and `d.pop(key, None)`.
use Prim.Native.String.{String}
use mathlib.Core.Path.{◌≡◌, refl, ap}
use mathlib.Core.Logic.{inl, inr}
use mathlib.Core.Option.{none, some}
use native.Mathlib.Omega.{arith}
use text.Mathlib.Text.{◌==◌}
use text.Mathlib.TextEquality.{eq_iff}
use kris_ai.Base.Tests.{if◌then◌else◌, Bool-cases}
use kris_ai.Base.Json.{Json, Fields, end, field}
use kris_ai.Base.Json.Access.{find, get_default}

-- `d[key] = value`: an old entry keeps its place
unfoldable pub set_key : String → Json → Fields → Fields
set_key key value end = field key value end
set_key key value (field other old rest) =
    let kept = field other old (set_key key value rest) in
    if other == key then field key value rest else kept

-- `d.pop(key, None)`, without the value
unfoldable pub remove_key : String → Fields → Fields
remove_key key end = end
remove_key key (field other value rest) =
    let kept = field other value (remove_key key rest) in if other == key then rest else kept

-- What is written at a new key is removed again.
pub remove_key-set_key :
    (key : String) (value : Json) (d : Fields)
    → find key d ≡ none
    → remove_key key (set_key key value d) ≡ d
unfolding remove_key set_key find
remove_key-set_key key value end h = ground (arith, eq_iff key key)
remove_key-set_key key value (field other old rest) h = elim (Bool-cases (other == key)) [
  | inl t ↦ ground arith
  | inr f ↦ rw (f, f) (ap (field other old) (remove_key-set_key key value rest (rw f at h)))
]

pub find-set_key :
    (key j : String) (value : Json) (d : Fields)
    → find j (set_key key value d) ≡ (if key == j then some value else find j d)
unfolding find set_key
find-set_key key j value end = refl
find-set_key key j value (field other old rest) =
    ground (arith, eq_iff key j, eq_iff other key, eq_iff other j, find-set_key key j value rest)

pub get_default-set_key :
    (key j : String) (value default : Json) (d : Fields)
    → get_default j default (set_key key value d)
      ≡ (if key == j then value else get_default j default d)
unfolding get_default set_key
get_default-set_key key j value default end = refl
get_default-set_key key j value default (field other old rest) = ground (
  arith,
  eq_iff key j,
  eq_iff other key,
  eq_iff other j,
  get_default-set_key key j value default rest,
)
