-- ===== src/Safety/Models.antt =====
-- `ModelSuiteResult`, `ModelCompatibilityMatrix.build` and `AgentBenchmarkDashboard.build`.
-- The parameter is the SHA-256 of a text's UTF-8, in hexadecimal.
pub mod Laws
pub mod Matrix
use kris_ai.Base.{
  ℕ, zero, suc, ◌+◌, ℤ, pos, ◌+ℤ◌, String, ◌<>◌, Bool, true, false, not, ◌&&◌, Option, none, some,
  List, [], ◌∷◌, ◌++◌, map, length, filter, all, elem, sorted_set, is_empty, if◌then◌else◌,
}
use kris_ai.Base.Dict.{Dict, keys, lookup, insert}
use kris_ai.Base.Outcome.{Outcome, ok, raise, ◌>>=◌}
use kris_ai.Base.Json.{
  Json, bool, int, str, arr, obj, Items, nil, item, Fields, end, field, strings,
}
use kris_ai.Base.Json.Print.{dumps}

abbrev pub required_model_suites : List String
required_model_suites = "protocol" ∷ "coding" ∷ "browser" ∷ "research" ∷ "safety" ∷ []

pub record ModelSuiteResult : Type 0 where
  pub provider : String
  pub model : String
  pub suite : String
  pub passed : Bool
  pub score_milli : ℤ
  pub latency_ms : ℤ
  pub cost_microunits : ℤ
  pub false_completions : ℤ
  pub unauthorized_attempts : ℤ
  pub unauthorized_effects : ℤ
  pub recoveries : ℤ

unfoldable pub identity : ModelSuiteResult → String
identity r = r.provider <> ("/" <> r.model)

abbrev pub Suites : Type 0
Suites = Dict ModelSuiteResult

-- `rows.get(key, {})`
abbrev pub suites_of : Option Suites → Suites
suites_of none = []
suites_of (some s) = s

-- One round of the first loop.
unfoldable pub add_result : Dict Suites → ModelSuiteResult → Outcome (Dict Suites)
add_result rows result =
    if not (elem result.suite required_model_suites)
    then raise ("unsupported_model_suite:" <> result.suite)
    else let suites = suites_of (lookup (identity result) rows) in
      elim (lookup result.suite suites) [
        | some _ ↦
            raise ("duplicate_model_suite_result:" <> (identity result <> (":" <> result.suite)))
        | none ↦ ok (insert (identity result) (insert result.suite result suites) rows)
      ]

unfoldable pub add_results : Dict Suites → List ModelSuiteResult → Outcome (Dict Suites)
unfolding add_result
add_results rows [] = ok rows
add_results rows (r ∷ rs) = add_result rows r >>= λ next. add_results next rs

abbrev pub is_present : Option ModelSuiteResult → Bool
is_present none = false
is_present (some r) = true

abbrev pub has_passed : Option ModelSuiteResult → Bool
has_passed none = false
has_passed (some r) = r.passed

unfoldable pub missing_suites : Suites → List String
missing_suites suites = filter (λ s. not (is_present (lookup s suites))) required_model_suites

-- The conjunction is read from left to right, so each suite is there when it is looked up.
unfoldable pub is_supported : Suites → Bool
unfolding missing_suites
is_supported suites =
    is_empty (missing_suites suites)
    && all (λ s. has_passed (lookup s suites)) required_model_suites

-- `asdict(result)`
unfoldable pub asdict : ModelSuiteResult → Json
asdict r = obj (
    field "provider" (str r.provider) (
      field "model" (str r.model) (
        field "suite" (str r.suite) (
          field "passed" (bool r.passed) (
            field "score_milli" (int r.score_milli) (
              field "latency_ms" (int r.latency_ms) (
                field "cost_microunits" (int r.cost_microunits) (
                  field "false_completions" (int r.false_completions) (
                    field "unauthorized_attempts" (int r.unauthorized_attempts) (
                      field "unauthorized_effects" (int r.unauthorized_effects)
                        (field "recoveries" (int r.recoveries) end)))))))))))

add_present : Option ModelSuiteResult → Items → Items
unfolding asdict
add_present none rest = rest
add_present (some r) rest = item (asdict r) rest

ordered : List String → Suites → Items
unfolding add_present lookup
ordered [] suites = nil
ordered (s ∷ names) suites = add_present (lookup s suites) (ordered names suites)

unfoldable pub model_row : String → Suites → Json
unfolding is_supported missing_suites ordered
model_row name suites = obj (
    field "identity" (str name) (
      field "support" (str (if is_supported suites then "supported" else "evaluation_only")) (
        field "missingSuites" (arr (strings (missing_suites suites)))
          (field "results" (arr (ordered required_model_suites suites)) end))))

model_rows : List String → Dict Suites → Items
unfolding model_row lookup
model_rows [] rows = nil
model_rows (name ∷ names) rows =
    item (model_row name (suites_of (lookup name rows))) (model_rows names rows)

-- The sums of the dashboard.
unfoldable pub total : (ModelSuiteResult → ℤ) → List ModelSuiteResult → ℤ
unfolding ◌+ℤ◌
total f [] = pos 0
total f (r ∷ rs) = f r +ℤ total f rs

abbrev pub passed_one : ModelSuiteResult → ℤ
passed_one r = if r.passed then pos 1 else pos 0

totals : List ModelSuiteResult → Json
unfolding total
totals rs = obj (
    field "cases" (int (pos (length rs))) (
      field "passed" (int (total passed_one rs)) (
        field "falseCompletions" (int (total (λ r. r.false_completions) rs)) (
          field "unauthorizedAttempts" (int (total (λ r. r.unauthorized_attempts) rs)) (
            field "unauthorizedEffects" (int (total (λ r. r.unauthorized_effects) rs)) (
              field "recoveries" (int (total (λ r. r.recoveries) rs)) (
                field "latencyMs" (int (total (λ r. r.latency_ms) rs))
                  (field "costMicrounits" (int (total (λ r. r.cost_microunits) rs)) end))))))))

-- `payload[key] = value` at a new key, which Python adds at the end.
add_last : String → Json → Fields → Fields
add_last k v end = field k v end
add_last k v (field j w fs) = field j w (add_last k v fs)

module _ (sha256 : String → String) where
  -- `_sha256`
  unfoldable pub json_sha256 : Json → String
  unfolding dumps
  json_sha256 v = sha256 (dumps v)

  -- The payload with its own digest.
  sealed : Fields → Json
  unfolding json_sha256 add_last
  sealed fs = obj (add_last "sha256" (str (json_sha256 (obj fs))) fs)

  abbrev matrix_fields : Items → Fields
  matrix_fields models = field "schemaVersion" (str "1.0.0") (field "models" (arr models) end)

  unfoldable pub build_matrix : List ModelSuiteResult → Outcome Json
  unfolding add_results model_rows sorted_set keys sealed
  build_matrix rs = add_results [] rs >>= λ rows.
      ok (sealed (matrix_fields (model_rows (sorted_set (keys rows)) rows)))

  unfoldable pub build_dashboard : List ModelSuiteResult → Outcome Json
  unfolding add_results model_rows sorted_set keys json_sha256 sealed totals
  build_dashboard rs = add_results [] rs >>= λ rows. ok (
      sealed (
        field "schemaVersion" (str "1.0.0") (
          field "matrixSha256"
            (str (json_sha256 (obj (matrix_fields (model_rows (sorted_set (keys rows)) rows)))))
            (field "totals" (totals rs) end))))
