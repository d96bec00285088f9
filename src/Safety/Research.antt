-- ===== src/Safety/Research.antt =====
-- `ResearchClaim` and `ResearchAnswerPolicy.verify`. An instant is a number of microseconds in UTC.
-- The parameter reads an ISO 8601 text as `datetime.fromisoformat` and `astimezone(utc)` do
-- together; nothing stands for their `ValueError`.
pub mod Laws
use kris_ai.Base.{
  ℕ, ◌+◌, ℤ, pos, ◌+ℤ◌, ◌*ℤ◌, ltb_ℤ, ltb, String, ◌<>◌, Bool, true, false, not, ◌&&◌, ◌||◌, ◌==◌,
  Option, none, some, List, [], ◌∷◌, ◌++◌, elem, sorted_set, is_empty, is_blank, replace_char,
  if◌then◌else◌,
}
use kris_ai.Base.Dict.{Dict, lookup, insert}

pub record ResearchClaim : Type 0 where
  pub claim_id : String
  pub fetched : Bool
  pub citation_locator : String
  pub source_type : String
  pub fetched_at : String
  pub freshness_seconds : ℤ
  pub snippet_only : Bool
  pub conflict_group : String

abbrev pub source_types : List String
source_types = "primary" ∷ "official" ∷ "independent" ∷ "repository" ∷ []

-- `if test: failures.append(text)`
abbrev pub when : Bool → String → List String
when test text = if test then text ∷ [] else []

-- The two variables that the loop changes.
pub record Findings : Type 0 where
  pub failures : List String
  pub conflicts : Dict ℕ

-- `conflicts.get(group, 0)`
abbrev pub get_or : Option ℕ → ℕ → ℕ
get_or none d = d
get_or (some n) d = n

unfoldable pub count_group : String → Dict ℕ → Dict ℕ
unfolding lookup insert
count_group group d = if group == "" then d else insert group (get_or (lookup group d) 0 + 1) d

-- Groups with several claims that the answer does not declare as disagreements.
unfoldable pub undeclared : List String → Dict ℕ → List String
unfolding elem
undeclared declared [] = []
undeclared declared ((group, count) ∷ d) =
    when (ltb 1 count && not (elem group declared)) (group <> ":disagreement_not_surfaced")
    ++ undeclared declared d

module _ (from_iso : String → Option ℤ) where
  unfoldable pub fetch_time : ResearchClaim → Option ℤ
  unfolding replace_char
  fetch_time claim = from_iso (replace_char b'Z' "+00:00" claim.fetched_at)

  -- Whether the source is older than the claim allows. The interval is compared in microseconds.
  unfoldable pub is_stale : ℤ → ResearchClaim → ℤ → Bool
  is_stale now claim t = ltb_ℤ (t +ℤ claim.freshness_seconds *ℤ pos 1000000) now

  -- The messages after the test of the date; a date that is not read ends the claim's checks.
  dated_failures : ℤ → ResearchClaim → Option ℤ → List String
  unfolding elem
  dated_failures now claim none = (claim.claim_id <> ":fetched_at_invalid") ∷ []
  dated_failures now claim (some t) =
      when (is_stale now claim t) (claim.claim_id <> ":source_stale")
      ++ when (not (elem claim.source_type source_types)) (claim.claim_id <> ":source_type_invalid")

  unfoldable pub claim_failures : ℤ → ResearchClaim → List String
  unfolding dated_failures
  claim_failures now claim =
      when (not claim.fetched || claim.snippet_only) (claim.claim_id <> ":source_not_fetched")
      ++ (when (is_blank claim.citation_locator) (claim.claim_id <> ":citation_missing")
          ++ dated_failures now claim (fetch_time claim))

  abbrev count_if_dated : Option ℤ → String → Dict ℕ → Dict ℕ
  count_if_dated none group d = d
  count_if_dated (some t) group d = count_group group d

  -- One round of the loop.
  unfoldable pub check_claim : ℤ → Findings → ResearchClaim → Findings
  unfolding claim_failures count_group
  check_claim now f claim = record {
    failures = f.failures ++ claim_failures now claim;
    conflicts = count_if_dated (fetch_time claim) claim.conflict_group f.conflicts;
  }

  unfoldable pub check_claims : ℤ → Findings → List ResearchClaim → Findings
  unfolding check_claim
  check_claims now f [] = f
  check_claims now f (claim ∷ claims) = check_claims now (check_claim now f claim) claims

  unfoldable pub verify : List ResearchClaim → ℤ → List String → Bool × List String
  unfolding check_claims undeclared sorted_set
  verify claims now declared =
      let f = check_claims now (record { failures = []; conflicts = [] }) claims in
      let failures = f.failures ++ undeclared declared f.conflicts in
      (is_empty failures, sorted_set failures)
