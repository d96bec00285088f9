-- ===== src/Release/Rollback.antt =====
-- `plan_rollback`
pub mod Sorting
pub mod Candidates
pub mod Laws
use kris_ai.Base.{String, ◌==◌, Bool, true, false, ◌&&◌, List, [], ◌∷◌, if◌then◌else◌}
use kris_ai.Base.Outcome.{Outcome, ok, raise, ◌>>=◌}
use kris_ai.Base.Json.Access.{traverse}
use kris_ai.Release.Version.{Version, parse_version, at_least, version_ge}
use kris_ai.Release.Update.{SupportLifecyclePolicy, allows_rollback_to}

pub data RollbackPlan : Type 0 where
  eligible : String → Bool → RollbackPlan
  ineligible : String → RollbackPlan

-- The test on an installed version.
unfoldable pub is_candidate : String → SupportLifecyclePolicy → String → Outcome Bool
unfolding version_ge allows_rollback_to
is_candidate current lifecycle version = version_ge current version >>= λ old.
    if old then allows_rollback_to lifecycle version else ok false

abbrev pub keep_if : Bool → String → List String → List String
keep_if test version rest = if test then version ∷ rest else rest

unfoldable pub candidates : String → SupportLifecyclePolicy → List String → Outcome (List String)
unfolding is_candidate
candidates current lifecycle [] = ok []
candidates current lifecycle (version ∷ versions) = do
  kept ← is_candidate current lifecycle version
  rest ← candidates current lifecycle versions
  ok (keep_if kept version rest)

unfoldable pub keyed : String → Outcome (Version × String)
unfolding parse_version
keyed version = parse_version version >>= λ key. ok (key, version)

-- `sorted(…, reverse=True)`, which keeps the order of equal keys
insert_newest : Version × String → List (Version × String) → List (Version × String)
unfolding at_least
insert_newest a [] = a ∷ []
insert_newest a (b ∷ rest) =
    let later = b ∷ insert_newest a rest in if at_least a.0 b.0 then a ∷ b ∷ rest else later

unfoldable pub newest_first : List (Version × String) → List (Version × String)
unfolding insert_newest
newest_first [] = []
newest_first (a ∷ rest) = insert_newest a (newest_first rest)

-- The version to go back to, from the sorted candidates.
unfoldable pub target_of : String → List (Version × String) → List String
target_of current [] = []
target_of current ((k, a) ∷ []) = a ∷ []
target_of current ((k, a) ∷ (l, b) ∷ rest) = if a == current then b ∷ [] else a ∷ []

unfoldable pub plan_of : String → SupportLifecyclePolicy → List String → Outcome RollbackPlan
unfolding allows_rollback_to
plan_of current lifecycle [] = ok (ineligible "no_supported_rollback_candidate")
plan_of current lifecycle (target ∷ _) =
    let plan =
      allows_rollback_to lifecycle target >>= λ supported. ok (eligible target supported) in
    if target == current then ok (ineligible "current_version_only") else plan

unfoldable pub plan_rollback : String → List String → SupportLifecyclePolicy → Outcome RollbackPlan
unfolding candidates keyed newest_first target_of plan_of
plan_rollback current installed lifecycle = do
  found ← candidates current lifecycle installed
  keys ← traverse keyed found
  plan_of current lifecycle (target_of current (newest_first keys))
