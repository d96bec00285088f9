-- ===== src/Release/Version.antt =====
-- `parse_version` and `version_ge`. The digits are ASCII.
pub mod Laws
use Prim.Native.Char.{Char, code}
use kris_ai.Base.{
  ℕ, ◌+◌, ◌-◌, ◌*◌, leb, ltb, eqb, String, ◌==◌, Bool, true, false, not, ◌&&◌, ◌||◌, List, [], ◌∷◌,
  all_chars, split_at, if◌then◌else◌,
}
use kris_ai.Base.Outcome.{Outcome, ok, raise, ◌>>=◌, ◌>>◌, refuse_if}

pub record Version : Type 0 where
  pub major : ℕ
  pub minor : ℕ
  pub patch : ℕ
  pub build : ℕ

abbrev pub is_digit : ℕ → Bool
is_digit c = leb 48 c && leb c 57

-- `text.isdigit()`
unfoldable pub all_digits : String → Bool
unfolding all_chars
all_digits text = not (text == "") && all_chars is_digit text

-- `int(text)` for a text of digits, from the number read so far
unfoldable pub number_from : ℕ → String → ℕ
number_from n String.[] = n
number_from n (String.◌∷◌ c s) = number_from (n * 10 + (code c - 48)) s

-- `text.partition("+")`: the part before, and the part after, if there is a plus
abbrev cut_first : Bool → Char → String × String → String → String × String
cut_first true c parts rest = ("", rest)
cut_first false c (before, after) rest = (String.◌∷◌ c before, after)

unfoldable pub partition_plus : String → String × String
partition_plus String.[] = ("", "")
partition_plus (String.◌∷◌ c s) =
    let parts = partition_plus s in cut_first (eqb (code c) b'+') c parts s

unfoldable pub build_number : String → ℕ
unfolding all_digits number_from
build_number build = if all_digits build then number_from 0 build else 0

unfoldable pub version_of : List String → ℕ → Outcome Version
unfolding all_digits number_from
version_of (a ∷ b ∷ c ∷ []) build =
    if all_digits a && (all_digits b && all_digits c)
    then ok (record {
      major = number_from 0 a;
      minor = number_from 0 b;
      patch = number_from 0 c;
      build = build;
    })
    else raise "version_invalid"
version_of _ build = raise "version_invalid"

unfoldable pub parse_version : String → Outcome Version
unfolding partition_plus version_of split_at build_number
parse_version text =
    let (version, build) = partition_plus text in
    version_of (split_at b'.' version) (build_number build)

-- `a >= b` for the tuples
unfoldable pub at_least : Version → Version → Bool
at_least a b =
    ltb b.major a.major
    || (eqb a.major b.major
        && (ltb b.minor a.minor
            || (eqb a.minor b.minor
                && (ltb b.patch a.patch || (eqb a.patch b.patch && leb b.build a.build)))))

unfoldable pub version_ge : String → String → Outcome Bool
unfolding parse_version at_least
version_ge left right = do a ← parse_version left; b ← parse_version right; ok (at_least a b)
