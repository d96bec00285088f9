-- ===== src/Trust/Bytes/Laws.antt =====
-- `bytes.fromhex` reads what `hex` writes.
use Prim.Native.Char.{code}
use Prim.Native.Nat.{zero, suc}
use kris_ai.Base.{
  ℕ, ◌/◌, ◌%◌, ◌<◌, ◌≡◌, refl, ap, Bool, true, false, ◌&&◌, not, eqb, Option, none, some, List, [],
  ◌∷◌, arith, &&-true, if◌then◌else◌,
}
use kris_ai.Trust.Bytes.{hex, hex_digit, digit_value, is_ascii_space, from_hex}

-- Every number is a byte.
abbrev pub AllBytes : List ℕ → Type 0
AllBytes [] = Unit
AllBytes (b ∷ bs) = (b < 256) × AllBytes bs

abbrev equals : Option ℕ → ℕ → Bool
equals none n = false
equals (some m) n = eqb m n

digit_reads : ℕ → Bool
unfolding hex_digit digit_value
digit_reads n =
    not (is_ascii_space (code (hex_digit n))) && equals (digit_value (code (hex_digit n))) n

-- Whether every digit under a limit passes a test.
every_under : (ℕ → Bool) → ℕ → Bool
every_under test zero = true
every_under test (suc limit) =
    let smaller = every_under test limit in if test limit then smaller else false

every_under-holds :
    (test : ℕ → Bool) (limit digit : ℕ)
    → digit < limit
    → every_under test limit ≡ true
    → test digit ≡ true
unfolding every_under
every_under-holds test zero digit bound passed = absurd (omega arith)
every_under-holds test (suc limit) digit bound passed =
    ground (arith, every_under-holds test limit digit)

digit_table : every_under digit_reads 16 ≡ true
unfolding every_under digit_reads
digit_table = refl

not-true : (b : Bool) → not b ≡ true → b ≡ false
not-true true h = cc
not-true false h = refl

equals-some : (o : Option ℕ) (n : ℕ) → equals o n ≡ true → o ≡ some n
equals-some none n h = cc
equals-some (some m) n h = ground arith

digit_value-hex_digit :
    (n : ℕ)
    → n < 16
    → (digit_value (code (hex_digit n)) ≡ some n) × (is_ascii_space (code (hex_digit n)) ≡ false)
unfolding digit_reads
digit_value-hex_digit n h =
    let reads = every_under-holds digit_reads 16 n h digit_table in
    let (spaceless, value) =
      &&-true (not (is_ascii_space (code (hex_digit n))))
        (equals (digit_value (code (hex_digit n))) n) reads in
    (
      equals-some (digit_value (code (hex_digit n))) n value,
      not-true (is_ascii_space (code (hex_digit n))) spaceless,
    )

-- Reading what was written gives the same bytes.
pub from_hex-hex : (bs : List ℕ) → AllBytes bs → from_hex (hex bs) ≡ some bs
unfolding from_hex hex
from_hex-hex [] a = refl
from_hex-hex (b ∷ bs) (h, a) =
    let (high, spaceless) = digit_value-hex_digit (b / 16) (omega arith) in
    let (low, _) = digit_value-hex_digit (b % 16) (omega arith) in
    rw (spaceless, high, low, from_hex-hex bs a) (ap (λ (x : ℕ). some (x ∷ bs)) (omega arith))
