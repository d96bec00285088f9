-- ===== src/Base/Json/Print.antt =====
-- `json.dumps(v, sort_keys=True, separators=(",", ":"), ensure_ascii=False)`, which the tools call
-- the canonical JSON of a value.
use Prim.Native.Nat.{ℕ, zero, suc, ◌/◌, ◌%◌, Ordering}
use Prim.Native.Char.{Char, code}
use Prim.Native.String.{String, char_at, compare, ◌++◌}
use mathlib.Core.Bool.{true, false}
use mathlib.Core.Path.{◌≡◌, refl}
use kris_ai.Base.Tests.{ltb, eqb, if◌then◌else◌}
use kris_ai.Base.Int.{ℤ, pos, negsuc}
use kris_ai.Base.Json.{Json, null, bool, int, real, str, arr, obj}
use kris_ai.Base.Json.{Items, nil, item, Fields, end, field}

abbrev singleton : Char → String
singleton c = String.◌∷◌ c String.[]

-- One hexadecimal or decimal digit.
digit : ℕ → String
digit n = singleton (char_at "0123456789abcdef" n)

-- Decimal digits on fuel; a number is below ten after as many rounds as its value.
decimal_from : ℕ → ℕ → String
unfolding digit
decimal_from zero n = ""
decimal_from (suc fuel) n =
    let front = decimal_from fuel (n / 10) in if ltb n 10 then digit n else front ++ digit (n % 10)

-- `str(n)` of a natural number
unfoldable pub decimal : ℕ → String
unfolding decimal_from
decimal n = decimal_from (suc n) n

-- `str(n)` of an integer
unfoldable pub decimal_ℤ : ℤ → String
unfolding decimal
decimal_ℤ (pos n) = decimal n
decimal_ℤ (negsuc n) = "-" ++ decimal (suc n)

escape_char : Char → String
unfolding digit
escape_char c =
    if eqb (code c) 34
    then "\\\""
    else if eqb (code c) 92
    then "\\\\"
    else if eqb (code c) 10
    then "\\n"
    else if eqb (code c) 13
    then "\\r"
    else if eqb (code c) 9
    then "\\t"
    else if eqb (code c) 8
    then "\\b"
    else if eqb (code c) 12
    then "\\f"
    else if ltb (code c) 32
    then "\\u00" ++ digit (code c / 16) ++ digit (code c % 16)
    else singleton c

escape : String → String
unfolding escape_char
escape String.[] = ""
escape (String.◌∷◌ c s) = escape_char c ++ escape s

quote : String → String
unfolding escape
quote s = "\"" ++ escape s ++ "\""

-- The fields of an object in the order of their keys.
insert_field : String → Json → Fields → Fields
insert_field k v end = field k v end
insert_field k v (field j w fs) = elim (compare k j) [
  | Ordering.gt ↦ field j w (insert_field k v fs)
  | _ ↦ field k v (field j w fs)
]

sort_fields : Fields → Fields
unfolding insert_field
sort_fields end = end
sort_fields (field k v fs) = insert_field k v (sort_fields fs)

-- The fields with every value in canonical order, at any depth.
mutual
  canonical : Json → Json
  canonical null = null
  canonical (bool b) = bool b
  canonical (int n) = int n
  canonical (real r) = real r
  canonical (str s) = str s
  canonical (arr xs) = arr (canonical_items xs)
  canonical (obj fs) = obj (sort_fields (canonical_fields fs))

  canonical_items : Items → Items
  canonical_items nil = nil
  canonical_items (item v xs) = item (canonical v) (canonical_items xs)

  canonical_fields : Fields → Fields
  canonical_fields end = end
  canonical_fields (field k v fs) = field k (canonical v) (canonical_fields fs)

mutual
  print : Json → String
  print null = "null"
  print (bool true) = "true"
  print (bool false) = "false"
  print (int n) = decimal_ℤ n
  print (real r) = r
  print (str s) = quote s
  print (arr xs) = "[" ++ print_items "" xs ++ "]"
  print (obj fs) = "{" ++ print_fields "" fs ++ "}"

  print_items : String → Items → String
  print_items sep nil = ""
  print_items sep (item v xs) = sep ++ print v ++ print_items "," xs

  print_fields : String → Fields → String
  print_fields sep end = ""
  print_fields sep (field k v fs) = sep ++ quote k ++ ":" ++ print v ++ print_fields "," fs

unfoldable pub dumps : Json → String
unfolding print canonical sort_fields quote decimal_ℤ
dumps v = print (canonical v)

dumps_example :
    dumps
      (obj (field "b" (int (negsuc 11)) (field "a" (arr (item (str "x\"") (item null nil))) end)))
    ≡ "{\"a\":[\"x\\\"\",null],\"b\":-12}"
unfolding dumps
dumps_example = refl
