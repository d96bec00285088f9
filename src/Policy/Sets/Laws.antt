-- ===== src/Policy/Sets/Laws.antt =====
-- Narrowing a list of the scope, and the stricter of two approval policies.
use kris_ai.Base.{
  ℕ, max, String, ◌≡◌, refl, Bool, true, false, ◌||◌, ◌&&◌, not, Option, none, some, List, [], ◌∷◌,
  elem, is_empty, elem-sorted_set, elem-intersection, intersection, sorted_set, arith,
  if◌then◌else◌,
}
use kris_ai.Base.Outcome.{ok}
use kris_ai.Base.Dict.{lookup}
use kris_ai.Policy.Sets.{narrow, approval_rank, approval_policy_stricter, stricter_of}

-- What a list of the scope allows: "*" stands for every name.
abbrev pub covers : List String → String → Bool
covers names name = elem "*" names || elem name names

pub is_empty-elem : (z : String) (xs : List String) → is_empty xs ≡ true → elem z xs ≡ false
unfolding elem
is_empty-elem z [] h = refl
is_empty-elem z (x ∷ xs) h = cc

elem-if_chain :
    (z : String) (a b c : Bool) (xs ys zs : List String)
    → elem z (if a then [] else if b then xs else if c then ys else zs)
      ≡ (not a && (if b then elem z xs else if c then elem z ys else elem z zs))
unfolding elem
elem-if_chain z true b c xs ys zs = refl
elem-if_chain z false true c xs ys zs = refl
elem-if_chain z false false true xs ys zs = refl
elem-if_chain z false false false xs ys zs = refl

-- The members after a narrowing.
pub elem-narrow :
    (z : String) (current constraint : List String)
    → elem z (narrow current constraint) ≡ (
        if elem "*" current
        then elem z constraint
        else elem z current && (elem "*" constraint || elem z constraint))
unfolding narrow
elem-narrow z current constraint = ground (
  arith,
  elem-if_chain z (is_empty constraint) (elem "*" current) (elem "*" constraint)
      (sorted_set constraint) (sorted_set current) (sorted_set (intersection current constraint)),
  elem-sorted_set z constraint,
  elem-sorted_set z current,
  elem-sorted_set z (intersection current constraint),
  elem-intersection z current constraint,
  is_empty-elem z constraint,
  is_empty-elem "*" constraint,
)

-- After a narrowing, a list allows exactly the names that both lists allow, where "*" stands for
-- every name.
pub covers-narrow :
    (z : String) (current constraint : List String)
    → covers (narrow current constraint) z ≡ (covers current z && covers constraint z)
covers-narrow z current constraint =
    ground (arith, elem-narrow z current constraint, elem-narrow "*" current constraint)

-- The rank of the policy that is kept.
stricter_of-rank :
    (left right : String) (a b : ℕ) (policy : String)
    → lookup left approval_rank ≡ some a
    → lookup right approval_rank ≡ some b
    → stricter_of (some a) (some b) left right ≡ ok policy
    → lookup policy approval_rank ≡ some (max a b)
unfolding stricter_of
stricter_of-rank left right a b policy p q h = ground arith

stricter_of-known :
    (l r : Option ℕ) (left right : String) {policy : String}
    → stricter_of l r left right ≡ ok policy
    → (a : ℕ) × (b : ℕ) × (l ≡ some a) × (r ≡ some b)
unfolding stricter_of
stricter_of-known (some a) (some b) left right h = (a, b, refl, refl)
stricter_of-known none r left right h = cc
stricter_of-known (some a) none left right h = cc

-- What a policy that is the stricter one is known to be.
pub record IsStricter (left right policy : String) : Type 0 where
  pub left_rank : ℕ
  pub right_rank : ℕ
  pub left_known : lookup left approval_rank ≡ some left_rank
  pub right_known : lookup right approval_rank ≡ some right_rank
  pub policy_known : lookup policy approval_rank ≡ some (max left_rank right_rank)

-- If `_approval_policy_stricter` returns, both policies are known, and the rank of the result is the
-- greater of the ranks of both.
pub approval_policy_stricter-IsStricter :
    (left right policy : String)
    → approval_policy_stricter left right ≡ ok policy
    → IsStricter left right policy
unfolding approval_policy_stricter
approval_policy_stricter-IsStricter left right policy h =
    let (a, b, p, q) =
      stricter_of-known (lookup left approval_rank) (lookup right approval_rank) left right h in
    record {
      left_rank = a;
      right_rank = b;
      left_known = p;
      right_known = q;
      policy_known = stricter_of-rank left right a b policy p q (rw (p, q) at h);
    }
