-- ===== src/Policy/Sets.antt =====
-- `_destination_allowed`, `_intersection` and `_approval_policy_stricter`.
pub mod Laws
use kris_ai.Base.{
  ℕ, String, ◌==◌, Bool, true, false, not, ◌&&◌, ◌||◌, Option, none, some, List, [], ◌∷◌, any, elem,
  is_empty, strip, lower, starts_with, ends_with, rest_of, rstrip_char, sorted_set, intersection,
  leb, if◌then◌else◌,
}
use kris_ai.Base.Outcome.{Outcome, ok, raise}
use kris_ai.Base.Dict.{Dict, lookup}

-- `host.strip().lower().rstrip(".")`
unfoldable pub normal_host : String → String
unfolding strip lower rstrip_char
normal_host host = rstrip_char b'.' (lower (strip host))

unfoldable pub host_matches : String → String → Bool
unfolding starts_with ends_with rest_of
host_matches value pattern =
    pattern == "*"
    || ((starts_with pattern "*."
          && (value == rest_of (rest_of pattern) || ends_with value (rest_of pattern)))
        || value == pattern)

unfoldable pub destination_allowed : String → List String → Bool
unfolding normal_host host_matches any
destination_allowed host allowed =
    any (λ item. host_matches (normal_host host) (normal_host item)) allowed

unfoldable pub narrow : List String → List String → List String
unfolding elem sorted_set intersection
narrow current constraint =
    if is_empty constraint
    then []
    else if elem "*" current
    then sorted_set constraint
    else if elem "*" constraint
    then sorted_set current
    else sorted_set (intersection current constraint)

abbrev pub approval_rank : Dict ℕ
approval_rank = ("never", 0) ∷ ("high_risk_only", 1) ∷ ("always", 2) ∷ []

unfoldable pub stricter_of : Option ℕ → Option ℕ → String → String → Outcome String
stricter_of (some a) (some b) left right = ok (if leb b a then left else right)
stricter_of _ _ left right = raise "unknown approval policy"

unfoldable pub approval_policy_stricter : String → String → Outcome String
unfolding lookup stricter_of
approval_policy_stricter left right =
    stricter_of (lookup left approval_rank) (lookup right approval_rank) left right
