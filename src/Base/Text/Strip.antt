-- ===== src/Base/Text/Strip.antt =====
-- `str.strip` changes a text once.
use Prim.Native.Nat.{ℕ}
use Prim.Native.Char.{Char, code}
use Prim.Native.String.{String}
use mathlib.Core.Path.{◌≡◌, refl, ap, ◌∙◌}
use mathlib.Core.Bool.{Bool, true, false, ◌&&◌}
use native.Mathlib.Omega.{arith}
use text.Mathlib.Text.{◌==◌}
use kris_ai.Base.Text.{keep_after, drop_leading, drop_trailing, strip, is_space}

module _ (p : ℕ → Bool) where
  kept_twice :
      (b : Bool) (c : Char) (rest : String)
      → drop_trailing p rest ≡ rest
      → (p (code c) && rest == "") ≡ b
      → drop_trailing p (keep_after b c rest) ≡ keep_after b c rest
  unfolding drop_trailing
  kept_twice true c rest same e = same
  kept_twice false c rest same e = rw (same, e) refl

  trailing_twice : (s : String) → drop_trailing p (drop_trailing p s) ≡ drop_trailing p s
  unfolding drop_trailing
  trailing_twice String.[] = refl
  trailing_twice (String.◌∷◌ c s) =
      kept_twice (p (code c) && drop_trailing p s == "") c (drop_trailing p s) (trailing_twice s)
        refl

  -- A text that does not begin with a dropped character.
  starts : String → Bool
  starts String.[] = false
  starts (String.◌∷◌ c s) = p (code c)

  leading_starts : (s : String) → starts (drop_leading p s) ≡ false
  unfolding drop_leading starts
  leading_starts String.[] = refl
  leading_starts (String.◌∷◌ c s) = ground (arith, leading_starts s)

  leading_kept : (s : String) → starts s ≡ false → drop_leading p s ≡ s
  unfolding drop_leading starts
  leading_kept String.[] h = refl
  leading_kept (String.◌∷◌ c s) h = rw (h, drop_leading) refl

  trailing_starts : (s : String) → starts s ≡ false → starts (drop_trailing p s) ≡ false
  unfolding drop_trailing starts
  trailing_starts String.[] h = refl
  trailing_starts (String.◌∷◌ c s) h = rw h h

pub strip-strip : (s : String) → strip (strip s) ≡ strip s
unfolding strip
strip-strip s =
    ap (drop_trailing is_space) (
      leading_kept is_space (drop_trailing is_space (drop_leading is_space s))
        (trailing_starts is_space (drop_leading is_space s) (leading_starts is_space s)))
    ∙ trailing_twice is_space (drop_leading is_space s)
