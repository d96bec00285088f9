-- ===== src/Trust/Bytes.antt =====
-- Python's `bytes` as lists of numbers: `hex` and `bytes.fromhex`.
pub mod Laws
use Prim.Native.Char.{Char, code}
use Prim.Native.String.{char_at}
use kris_ai.Base.{
  ℕ, ◌+◌, ◌-◌, ◌*◌, ◌/◌, ◌%◌, leb, eqb, String, ◌<>◌, Bool, true, false, ◌&&◌, ◌||◌, Option, none,
  some, List, [], ◌∷◌, if◌then◌else◌,
}

hex_digit : ℕ → Char
hex_digit n = char_at "0123456789abcdef" n

-- `data.hex()`
unfoldable pub hex : List ℕ → String
unfolding hex_digit
hex [] = ""
hex (b ∷ bs) = String.◌∷◌ (hex_digit (b / 16)) (String.◌∷◌ (hex_digit (b % 16)) (hex bs))

-- The value of a hexadecimal digit of either case.
unfoldable pub digit_value : ℕ → Option ℕ
digit_value c =
    if leb 48 c && leb c 57
    then some (c - 48)
    else if leb 97 c && leb c 102
    then some (c - 87)
    else if leb 65 c && leb c 70
    then some (c - 55)
    else none

abbrev pub is_ascii_space : ℕ → Bool
is_ascii_space c = (leb 9 c && leb c 13) || eqb c 32

abbrev pub pair_byte : Option ℕ → Option ℕ → Option (List ℕ) → Option (List ℕ)
pair_byte (some a) (some b) (some rest) = some ((a * 16 + b) ∷ rest)
pair_byte _ _ _ = none

-- `bytes.fromhex(text)`, which skips white space between bytes; nothing where it raises `ValueError`
unfoldable pub from_hex : String → Option (List ℕ)
unfolding digit_value
from_hex String.[] = some []
from_hex (String.◌∷◌ c String.[]) = if is_ascii_space (code c) then some [] else none
from_hex (String.◌∷◌ c (String.◌∷◌ d s)) =
    let skipped = from_hex (String.◌∷◌ d s) in
    let paired = pair_byte (digit_value (code c)) (digit_value (code d)) (from_hex s) in
    if is_ascii_space (code c) then skipped else paired
