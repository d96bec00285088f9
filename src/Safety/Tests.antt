-- ===== src/Safety/Tests.antt =====
-- Runs of the checks of tool/agent_safety_v2.py, and its theorems at concrete inputs.
use kris_ai.Base.{
  ℤ, pos, String, ◌≡◌, ◌↔◌, ◌≢◌, refl, true, false, Option, none, some, List, [], ◌∷◌, ◌++◌, ◌==◌,
  elem, filter, all, is_blank, if◌then◌else◌, ◌+ℤ◌, ◌*ℤ◌,
}
use kris_ai.Base.Dict.{Dict, lookup, insert}
use kris_ai.Base.Outcome.{Outcome, ok, raise}
use kris_ai.Base.Json.Access.{get, get_default}
use kris_ai.Base.Json.{Json, null, bool, str, arr, obj, nil, item, field, end}
use kris_ai.Safety.Context
use kris_ai.Safety.Context.{ContextSegment, web, user, mcp}
use kris_ai.Safety.Injection.{EffectIntent, authorize}
use kris_ai.Safety.Injection.Laws.{IsGranted, authorize-IsGranted, authorize_mono}
use kris_ai.Safety.Browser
use kris_ai.Safety.Browser.{BrowserPlanStep, BrowserPlanningPolicy}
use kris_ai.Safety.Browser.Protocol.{Phase, blind, acted, Session, validate-Session}
use kris_ai.Safety.Terminal
use kris_ai.Safety.Terminal.{TerminalPlan}
use kris_ai.Safety.Terminal.Laws.{IsBounded, validate-IsBounded}
use kris_ai.Safety.Research
use kris_ai.Safety.Research.{ResearchClaim}
use kris_ai.Safety.Research.Laws.{IsAnswerable, verify-IsAnswerable}
use kris_ai.Safety.Models.{
  ModelSuiteResult, identity, Suites, add_results, has_passed, is_supported, missing_suites,
  build_matrix, required_model_suites,
}
use kris_ai.Safety.Models.Laws.{find_result, IsConsistent, add_results_total}
use kris_ai.Safety.Models.Matrix.{row_of, support_of, build_matrix-find_result}

assemble_web :
    Context.assemble
      (λ text. text)
      (record { provenance = web; source_id = "w"; content = "c" } ∷ [])
    ≡ obj (
        field "schemaVersion" (str "2.0.0") (
          field "controlPlane"
            (obj (
              field "authoritySource"
                (str "policy_engine_only")
                (field "contentCannotGrantAuthority" (bool true) end)))
            (field "segments"
              (arr (
                item
                  (obj (
                    field "provenance" (str "web") (
                      field "sourceId" (str "w") (
                        field "contentSha256"
                          (str "c")
                          (field "untrusted" (bool true) (field "content" (str "c") end))))))
                  nil))
              end)))
unfolding Context.assemble
assemble_web = refl

abbrev intent : EffectIntent
intent = record {
  capability = "change_policy";
  destination = "local";
  provenance = mcp;
  derived_from_untrusted_content = true;
  contains_secret = false;
}

authorize_untrusted :
    authorize intent ("change_policy" ∷ []) ("local" ∷ []) []
    ≡ record { allowed = false; code = "untrusted_content_cannot_change_authority" }
unfolding authorize elem Context.untrusted
authorize_untrusted = refl

authorize-IsGranted_example :
    ((authorize intent ("change_policy" ∷ []) ("local" ∷ []) []).allowed ≡ true)
    ↔ IsGranted intent ("change_policy" ∷ []) ("local" ∷ []) []
authorize-IsGranted_example = authorize-IsGranted intent ("change_policy" ∷ []) ("local" ∷ []) []

abbrev plain_intent : EffectIntent
plain_intent = record intent { provenance = user; derived_from_untrusted_content = false }

plain_allowed : (authorize plain_intent ("change_policy" ∷ []) ("local" ∷ []) []).allowed ≡ true
unfolding authorize elem Context.untrusted
plain_allowed = refl

effect_stays_granted :
    (authorize plain_intent
      (("change_policy" ∷ []) ++ ("read" ∷ []))
      (("local" ∷ []) ++ [])
      ([] ++ [])).allowed
    ≡ true
effect_stays_granted =
    authorize_mono plain_intent ("change_policy" ∷ []) ("local" ∷ []) [] ("read" ∷ []) [] []
      plain_allowed

abbrev step : String → BrowserPlanStep
step kind = record {
  kind = kind;
  target = "";
  observation_age_ms = pos 10;
  retry = pos 0;
  destructive = false;
  requires_takeover = false;
}

abbrev browser_policy : BrowserPlanningPolicy
browser_policy = record { max_observation_age_ms = pos 15000; max_retries = pos 2 }

abbrev browser_plan : List BrowserPlanStep
browser_plan = step "observe" ∷ step "action" ∷ step "verify" ∷ []

browser_plan_accepted :
    Browser.validate browser_policy browser_plan ≡ (true, "observe_action_verify_satisfied")
unfolding Browser.validate
browser_plan_accepted = refl

browser_blind_action :
    Browser.validate browser_policy (step "action" ∷ [])
    ≡ (false, "browser_action_requires_fresh_observation")
unfolding Browser.validate
browser_blind_action = refl

-- An observation after an action stands in for its verification.
browser_unverified :
    Browser.validate browser_policy (step "observe" ∷ step "action" ∷ step "observe" ∷ [])
    ≡ (true, "observe_action_verify_satisfied")
unfolding Browser.validate
browser_unverified = refl

validate-Session_example :
    ((Browser.validate browser_policy browser_plan).0 ≡ true)
    ↔ ((q : Phase) × Session browser_policy blind browser_plan q × (q ≢ acted))
validate-Session_example = validate-Session browser_policy browser_plan

abbrev terminal_plan : TerminalPlan
terminal_plan = record {
  mode = "background";
  command = "serve";
  destructive = false;
  approval_granted = false;
  readiness_probe = "curl localhost";
  kill_strategy = " ";
  verification = "exit code";
}

terminal_no_kill : Terminal.validate terminal_plan ≡ (false, "terminal_kill_strategy_required")
unfolding Terminal.validate is_blank
terminal_no_kill = refl

validate-IsBounded_example : ((Terminal.validate terminal_plan).0 ≡ true) ↔ IsBounded terminal_plan
validate-IsBounded_example = validate-IsBounded terminal_plan

-- A clock text of one known instant.
abbrev from_iso : String → Option ℤ
from_iso text = if text == "2026-01-01T00:00:00+00:00" then some (pos 5000000) else none

abbrev claim : String → ResearchClaim
claim name = record {
  claim_id = name;
  fetched = true;
  citation_locator = "p. 1";
  source_type = "official";
  fetched_at = "2026-01-01T00:00:00Z";
  freshness_seconds = pos 60;
  snippet_only = false;
  conflict_group = "g";
}

abbrev claims : List ResearchClaim
claims = claim "c1" ∷ claim "c2" ∷ []

research_conflict :
    Research.verify from_iso claims (pos 6000000) [] ≡ (false, "g:disagreement_not_surfaced" ∷ [])
unfolding Research.verify Research.fetch_time Research.is_stale is_blank lookup insert elem ◌+ℤ◌
    ◌*ℤ◌
research_conflict = refl

verify-IsAnswerable_example :
    ((Research.verify from_iso claims (pos 6000000) ("g" ∷ [])).0 ≡ true)
    ↔ IsAnswerable from_iso (pos 6000000) claims ("g" ∷ [])
verify-IsAnswerable_example = verify-IsAnswerable from_iso (pos 6000000) claims ("g" ∷ [])

abbrev result_of : String → String → ModelSuiteResult
result_of model suite = record {
  provider = "p";
  model = model;
  suite = suite;
  passed = true;
  score_milli = pos 900;
  latency_ms = pos 20;
  cost_microunits = pos 0;
  false_completions = pos 0;
  unauthorized_attempts = pos 0;
  unauthorized_effects = pos 0;
  recoveries = pos 0;
}

abbrev result : String → ModelSuiteResult
result = result_of "m"

abbrev results : List ModelSuiteResult
results = result "coding" ∷ result "safety" ∷ []

abbrev rows : Dict Suites
rows = ("p/m", ("coding", result "coding") ∷ ("safety", result "safety") ∷ []) ∷ []

results_added : add_results [] results ≡ ok rows
unfolding add_results identity elem lookup insert
results_added = refl

duplicate_refused :
    add_results [] (result "coding" ∷ result "coding" ∷ [])
    ≡ raise "duplicate_model_suite_result:p/m:coding"
unfolding add_results identity elem lookup insert
duplicate_refused = refl

-- A model that passed all the suites, beside one that did not run them all.
abbrev all_results : List ModelSuiteResult
all_results =
    result "protocol"
    ∷ result "coding"
    ∷ result "browser"
    ∷ result "research"
    ∷ result "safety"
    ∷ result_of "other" "coding"
    ∷ []

abbrev or_null : Outcome Json → Json
or_null (ok v) = v
or_null (raise message) = null

abbrev matrix : Json
matrix = or_null (build_matrix (λ text. "digest") all_results)

matrix_built : build_matrix (λ text. "digest") all_results ≡ ok matrix
unfolding build_matrix elem insert identity
matrix_built = refl

model_supported : support_of "p/m" matrix ≡ str "supported"
unfolding build_matrix elem insert identity lookup row_of get get_default is_supported
    missing_suites filter all
model_supported = refl

other_evaluation_only : support_of "p/other" matrix ≡ str "evaluation_only"
unfolding build_matrix elem insert identity lookup row_of get get_default is_supported
    missing_suites filter all
other_evaluation_only = refl

build_matrix-find_result_example : (support_of "p/m" matrix ≡ str "supported") ↔ (
    (s : String)
    → elem s required_model_suites ≡ true
    → has_passed (find_result "p/m" s all_results) ≡ true)
build_matrix-find_result_example =
    build_matrix-find_result (λ text. "digest") all_results matrix "p/m" matrix_built

add_results_total_example :
    ((built : Dict Suites) × (add_results [] results ≡ ok built)) ↔ IsConsistent results
add_results_total_example = add_results_total results
