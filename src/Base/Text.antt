-- ===== src/Base/Text.antt =====
-- Python's `str` methods, by recursion on the characters. `lower` maps the ASCII letters; every
-- string that the modelled files lower-case is compared with ASCII names only.
pub mod Strip
use mathlib.Core.List.{List, [], ◌∷◌}
use mathlib.Core.Option.{Option, none, some}
use Prim.Native.Nat.{ℕ, suc, ◌-◌}
use Prim.Native.Char.{Char, code}
use Prim.Native.String.{String, char_at, ◌++◌}
use mathlib.Core.Bool.{Bool, true, false, ◌&&◌, ◌||◌}
use text.Mathlib.Text.{◌==◌}
use kris_ai.Base.Tests.{leb, eqb, if◌then◌else◌}

-- `str.isspace` of one character
is_space : ℕ → Bool
is_space c =
    (leb 9 c && leb c 13)
    || (leb 28 c && leb c 32)
    || eqb c 133
    || eqb c 160
    || eqb c 5760
    || (leb 8192 c && leb c 8202)
    || eqb c 8232
    || eqb c 8233
    || eqb c 8239
    || eqb c 8287
    || eqb c 12288

abbrev keep_after : Bool → Char → String → String
keep_after true c s = s
keep_after false c s = String.◌∷◌ c s

-- Drop the leading characters that pass the test.
pub drop_leading : (ℕ → Bool) → String → String
drop_leading p String.[] = String.[]
drop_leading p (String.◌∷◌ c s) =
    let rest = drop_leading p s in elim (p (code c)) [ true ↦ rest | false ↦ String.◌∷◌ c s ]

-- Drop the trailing characters that pass the test.
pub drop_trailing : (ℕ → Bool) → String → String
drop_trailing p String.[] = String.[]
drop_trailing p (String.◌∷◌ c s) =
    let rest = drop_trailing p s in keep_after (p (code c) && rest == "") c rest

-- `s.strip()`
unfoldable pub strip : String → String
unfolding is_space drop_leading drop_trailing
strip s = drop_trailing is_space (drop_leading is_space s)

-- `not s.strip()`
unfoldable pub is_blank : String → Bool
unfolding strip
is_blank s = strip s == ""

lower_char : Char → Char
lower_char c =
    if leb 65 (code c) && leb (code c) 90
    then char_at "abcdefghijklmnopqrstuvwxyz" (code c - 65)
    else c

map_chars : (Char → Char) → String → String
map_chars f String.[] = String.[]
map_chars f (String.◌∷◌ c s) = String.◌∷◌ (f c) (map_chars f s)

-- `s.lower()`
unfoldable pub lower : String → String
unfolding lower_char map_chars
lower s = map_chars lower_char s

-- `all(p(ch) for ch in s)`
unfoldable pub all_chars : (ℕ → Bool) → String → Bool
all_chars p String.[] = true
all_chars p (String.◌∷◌ c s) = p (code c) && all_chars p s

-- `s.replace(old, new)` where `old` is one character, given by its code
unfoldable pub replace_char : ℕ → String → String → String
replace_char old new String.[] = String.[]
replace_char old new (String.◌∷◌ c s) =
    let rest = replace_char old new s in if eqb (code c) old then new ++ rest else String.◌∷◌ c rest

-- What follows a prefix, if the text has it.
unfoldable pub after_prefix : String → String → Option String
after_prefix String.[] s = some s
after_prefix (String.◌∷◌ c p) String.[] = none
after_prefix (String.◌∷◌ c p) (String.◌∷◌ d s) =
    let rest = after_prefix p s in if eqb (code c) (code d) then rest else none

-- `s.startswith(p)`
unfoldable pub starts_with : String → String → Bool
unfolding after_prefix
starts_with s p = elim (after_prefix p s) [ none ↦ false | some _ ↦ true ]

-- `len(s)`
unfoldable pub char_count : String → ℕ
char_count String.[] = 0
char_count (String.◌∷◌ c s) = suc (char_count s)

-- `s[:-1]`
unfoldable pub without_last : String → String
without_last String.[] = String.[]
without_last (String.◌∷◌ c String.[]) = String.[]
without_last (String.◌∷◌ c (String.◌∷◌ d s)) = String.◌∷◌ c (without_last (String.◌∷◌ d s))

-- `p in s`
unfoldable pub has_substring : String → String → Bool
unfolding starts_with
has_substring p String.[] = starts_with String.[] p
has_substring p (String.◌∷◌ c s) = starts_with (String.◌∷◌ c s) p || has_substring p s

-- `s.endswith(p)`
unfoldable pub ends_with : String → String → Bool
ends_with String.[] p = String.[] == p
ends_with (String.◌∷◌ c s) p = String.◌∷◌ c s == p || ends_with s p

-- `s[1:]`
unfoldable pub rest_of : String → String
rest_of String.[] = String.[]
rest_of (String.◌∷◌ c s) = s

-- `s.split(c)` at one character, given by its code
add_first : Char → List String → List String
add_first c [] = String.◌∷◌ c String.[] ∷ []
add_first c (w ∷ ws) = String.◌∷◌ c w ∷ ws

unfoldable pub split_at : ℕ → String → List String
unfolding add_first
split_at sep String.[] = String.[] ∷ []
split_at sep (String.◌∷◌ c s) =
    let words = split_at sep s in if eqb (code c) sep then String.[] ∷ words else add_first c words

-- `sep.join(words)`
unfoldable pub join : String → List String → String
join sep [] = String.[]
join sep (w ∷ []) = w
join sep (w ∷ v ∷ ws) = w ++ (sep ++ join sep (v ∷ ws))

-- `s.rstrip(c)` of one character, given by its code
unfoldable pub rstrip_char : ℕ → String → String
unfolding drop_trailing
rstrip_char c s = drop_trailing (eqb c) s
