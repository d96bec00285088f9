-- ===== src/Base/Sets.antt =====
-- Python's sets of strings, as lists that are read by membership, and `sorted(set(xs))`.
use Prim.Native.Nat.{Ordering}
use Prim.Native.String.{String, compare}
use mathlib.Core.Path.{◌≡◌, refl}
use mathlib.Core.Bool.{Bool, true, false, not, ◌&&◌, ◌||◌}
use mathlib.Core.List.{List, [], ◌∷◌, ◌++◌}
use mathlib.Core.Logic.{◌↔◌}
use kris_ai.Base.Tests.{&&-true}
use native.Mathlib.Omega.{arith}
use text.Mathlib.Text.{◌==◌}
use text.Mathlib.TextEquality.{path_by_compare, eq_iff}
use kris_ai.Base.Lists.{filter, all}

-- `x in xs`
unfoldable pub elem : String → List String → Bool
elem x [] = false
elem x (y ∷ ys) = x == y || elem x ys

-- A sorted list without duplicates, with one more element.
pub insert_sorted : String → List String → List String
insert_sorted x [] = x ∷ []
insert_sorted x (y ∷ ys) = elim (compare x y) [
  | Ordering.lt ↦ x ∷ y ∷ ys
  | Ordering.eq ↦ y ∷ ys
  | Ordering.gt ↦ y ∷ insert_sorted x ys
]

-- `sorted(set(xs))`
unfoldable pub sorted_set : List String → List String
unfolding insert_sorted
sorted_set [] = []
sorted_set (x ∷ xs) = insert_sorted x (sorted_set xs)

-- `xs - ys`
unfoldable pub difference : List String → List String → List String
unfolding filter elem
difference xs ys = filter (λ x. not (elem x ys)) xs

-- `xs & ys`
unfoldable pub intersection : List String → List String → List String
unfolding filter elem
intersection xs ys = filter (λ x. elem x ys) xs

-- `xs.issubset(ys)`
unfoldable pub is_subset : List String → List String → Bool
unfolding all elem
is_subset xs ys = all (λ x. elem x ys) xs

pub elem-insert_sorted :
    (z x : String) (xs : List String) → elem z (insert_sorted x xs) ≡ (z == x || elem z xs)
unfolding elem insert_sorted
elem-insert_sorted z x [] = refl
elem-insert_sorted z x (y ∷ ys) =
    ground (arith, path_by_compare x y, elem-insert_sorted z x ys, eq_iff z x, eq_iff z y)

-- Sorting and removing duplicates keeps membership.
pub elem-sorted_set : (z : String) (xs : List String) → elem z (sorted_set xs) ≡ elem z xs
unfolding sorted_set elem
elem-sorted_set z [] = refl
elem-sorted_set z (x ∷ xs) =
    ground (arith, elem-insert_sorted z x (sorted_set xs), elem-sorted_set z xs)

pub elem-append : (z : String) (xs ys : List String) → elem z (xs ++ ys) ≡ (elem z xs || elem z ys)
unfolding elem
elem-append z [] ys = refl
elem-append z (x ∷ xs) ys = ground (arith, elem-append z xs ys)

-- A filter keeps what passes a test; equal strings pass alike.
pub elem-filter :
    (p : String → Bool) (z : String) (xs : List String) → elem z (filter p xs) ≡ (elem z xs && p z)
unfolding elem filter
elem-filter p z [] = refl
elem-filter p z (x ∷ xs) = ground (arith, eq_iff z x, elem-filter p z xs)

pub elem-difference :
    (z : String) (xs ys : List String) → elem z (difference xs ys) ≡ (elem z xs && not (elem z ys))
unfolding difference
elem-difference z xs ys = elem-filter (λ x. not (elem x ys)) z xs

pub elem-intersection :
    (z : String) (xs ys : List String) → elem z (intersection xs ys) ≡ (elem z xs && elem z ys)
unfolding intersection
elem-intersection z xs ys = elem-filter (λ x. elem x ys) z xs

-- A subset's elements are elements of the larger set.
pub is_subset-elem :
    (z : String) (xs ys : List String)
    → is_subset xs ys ≡ true
    → elem z xs ≡ true
    → elem z ys ≡ true
unfolding is_subset elem all
is_subset-elem z [] ys h m = cc
is_subset-elem z (x ∷ xs) ys h m = ground (arith, eq_iff z x, is_subset-elem z xs ys)

-- A test that all elements pass, read by membership.
pub all-elem :
    (p : String → Bool) (xs : List String)
    → (all p xs ≡ true) ↔ ((x : String) → elem x xs ≡ true → p x ≡ true)
unfolding all elem
all-elem p [] = (λ h x m. cc, λ h. refl)
all-elem p (y ∷ ys) = (
  λ h x m. ground (arith, eq_iff x y, (all-elem p ys).0 (&&-true (p y) (all p ys) h).1 x),
  λ h.
      rw (h y (ground (arith, eq_iff y y)))
        ((all-elem p ys).1 (λ x m. h x (ground (arith, eq_iff x y)))),
)

pub ruleset set_laws =
    (elem-sorted_set, elem-append, elem-filter, elem-difference, elem-intersection)
