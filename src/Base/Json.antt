-- ===== src/Base/Json.antt =====
-- JSON values as Python holds them after `json.loads`. A number with a fraction or an exponent is
-- held by its text; no modelled file computes with one.
pub mod Access
pub mod Print
pub mod Update
use Prim.Native.String.{String}
use mathlib.Core.Bool.{Bool}
use mathlib.Core.List.{List, [], ◌∷◌}
use kris_ai.Base.Int.{ℤ}

mutual
  pub data Json : Type 0 where
    null : Json
    bool : Bool → Json
    int : ℤ → Json
    real : String → Json
    str : String → Json
    arr : Items → Json
    obj : Fields → Json

  pub data Items : Type 0 where
    nil : Items
    item : Json → Items → Items

  pub data Fields : Type 0 where
    end : Fields
    field : String → Json → Fields → Fields

-- A Python list of strings as a JSON array.
unfoldable pub strings : List String → Items
strings [] = nil
strings (s ∷ ss) = item (str s) (strings ss)
