-- ===== src/Intelligence/Tests.antt =====
-- Runs of tool/execution_intelligence.py, and its theorems at concrete inputs.
use kris_ai.Intelligence.Progress.{change_at, revises, repeats}
use kris_ai.Base.{
  ℕ, ◌+◌, ◌≤◌, ℤ, pos, ◌+ℤ◌, String, ◌≡◌, ◌↔◌, ◌⊎◌, refl, true, false, Option, none, some, List, [],
  ◌∷◌, ◌==◌, sorted_set, difference, intersection, strip, lower, elem, if◌then◌else◌, arith,
}
use kris_ai.Base.Dict.{keys, lookup}
use kris_ai.Base.Outcome.{ok, raise}
use kris_ai.Intelligence.Circuit.{
  CircuitBreaker, ProviderHealth, opened, new_health, new_breaker, permits_request, parse_time,
  normal_class, record_failure, record_success,
}
use kris_ai.Intelligence.Circuit.Laws.{
  Event, success, failure, run, apply, trailing, timeouts, IsCooling, opened-run, timeouts-run,
  permits_request-IsCooling,
}
use kris_ai.Intelligence.Progress.{
  ProgressSnapshot, ProgressDelta, compare, facts, changed_hashes, changes, change_at, revises,
  repeats, added, reasons_of,
}
use kris_ai.Intelligence.Progress.Laws.{NoNewFacts, compare-NoNewFacts}
use kris_ai.Intelligence.Convergence.{
  Situation, decide, ask_user, offer_stronger_model, fail_convergence,
}
use kris_ai.Intelligence.Convergence.Laws.{stage_mono, decide-approval, decide-fail}
use kris_ai.Intelligence.Budget.{PhaseBudget, defaults}

abbrev outcomes : List Event
outcomes =
    failure "timeout" none "t1"
    ∷ success none "t2"
    ∷ failure " Timeout " none "t3"
    ∷ failure "malformed" none "t4"
    ∷ []

abbrev breaker : CircuitBreaker
breaker = record { failure_threshold = 2; cooldown_seconds = 60 }

last_health : ProviderHealth
unfolding run apply record_success record_failure normal_class strip lower elem
last_health = run breaker (new_health "p" "m") outcomes

circuit_opens :
    (last_health.state ≡ opened)
    × (last_health.timeout_failures ≡ 2)
    × (last_health.malformed_failures ≡ 1)
    × (last_health.opened_at ≡ some "t4")
unfolding last_health
circuit_opens = (refl, refl, refl, refl)

opened-run_example :
    ((run (new_breaker 2 60) (new_health "p" "m") outcomes).state ≡ opened)
    ↔ ((new_breaker 2 60).failure_threshold ≤ trailing 0 outcomes)
opened-run_example = opened-run "p" "m" 2 60 outcomes

timeouts-run_example :
    (run breaker (new_health "p" "m") outcomes).timeout_failures ≡ 0 + timeouts outcomes
timeouts-run_example = timeouts-run breaker (new_health "p" "m") outcomes

abbrev from_iso : String → Option ℤ
from_iso text = if text == "t4" then some (pos 0) else none

permits_request-IsCooling_example :
    (permits_request from_iso last_health (pos 59000000) ≡ false)
    ↔ ((last_health.state ≡ opened) × IsCooling from_iso last_health (pos 59000000))
permits_request-IsCooling_example = permits_request-IsCooling from_iso last_health (pos 59000000)

cooling_refused :
    (permits_request from_iso last_health (pos 59000000) ≡ false)
    × (permits_request from_iso last_health (pos 60000000) ≡ true)
unfolding permits_request parse_time last_health ◌+ℤ◌
cooling_refused = (refl, refl)

abbrev before : ProgressSnapshot
before = record {
  artifacts = ("a", "h1") ∷ [];
  evidence = "e1" ∷ [];
  active_errors = "x" ∷ [];
  satisfied_criteria = [];
  external_state = [];
  plan_revision_hash = "p";
  action_fingerprint = "f";
  result_fingerprint = "";
}

abbrev after : ProgressSnapshot
after = record before { artifacts = ("a", "h2") ∷ []; active_errors = [] }

delta : ProgressDelta
unfolding compare facts changed_hashes changes added keys lookup sorted_set difference intersection
    reasons_of change_at revises repeats
delta = compare (λ text. text) before after

progress_found :
    (delta.semantic_progress ≡ true)
    × (delta.reasons ≡ "artifact_hash_changed" ∷ "error_resolved" ∷ "action_repeated" ∷ [])
unfolding delta
progress_found = (refl, refl)

compare-NoNewFacts_example :
    ((compare (λ text. text) before after).semantic_progress ≡ false) ↔ NoNewFacts before after
compare-NoNewFacts_example = compare-NoNewFacts (λ text. text) before after

abbrev still : ProgressDelta
still = record {
  new_artifacts = [];
  changed_artifact_hashes = [];
  removed_artifacts = [];
  new_evidence = [];
  resolved_errors = [];
  new_errors = [];
  criteria_satisfied = [];
  criteria_regressed = [];
  new_external_state = [];
  plan_revised = false;
  repeated_action = true;
  repeated_result = true;
  semantic_progress = false;
  reasons = [];
  delta_hash = "d";
}

abbrev stalled : ℕ → ℕ → Situation
stalled rounds repairs = record {
  consecutive_no_progress = pos rounds;
  repeated_action_count = pos 0;
  repairs_remaining = pos repairs;
  verifier_available = true;
  task_can_split = true;
  ask_user_allowed = true;
  stronger_model_available = true;
  stronger_model_approved = true;
}

stages :
    ((decide (λ text. text) still (stalled 1 2)).stage ≡ 1)
    × ((decide (λ text. text) still (stalled 3 2)).stage ≡ 3)
    × ((decide (λ text. text) still (stalled 6 0)).stage ≡ 7)
unfolding decide
stages = (refl, refl, refl)

stage_mono_example :
    (decide (λ text. text) still (stalled 1 2)).stage
    ≤ (decide (λ text. text) still (stalled 4 1)).stage
stage_mono_example =
    stage_mono (λ text. text) still still (stalled 1 2) (stalled 4 1) refl refl (ground arith)

decide-approval_example :
    ((decide (λ text. text) still (stalled 5 0)).requires_user_approval ≡ true) ↔ (
      ((decide (λ text. text) still (stalled 5 0)).action ≡ ask_user)
      ⊎ ((decide (λ text. text) still (stalled 5 0)).action ≡ offer_stronger_model))
decide-approval_example = decide-approval (λ text. text) still (stalled 5 0)

decide-fail_example :
    ((decide (λ text. text) still (stalled 6 0)).action ≡ fail_convergence)
    ⊎ (((decide (λ text. text) still (stalled 6 0)).action ≡ offer_stronger_model)
        × ((stalled 6 0).stronger_model_available ≡ true)
        × ((stalled 6 0).stronger_model_approved ≡ false))
decide-fail_example = decide-fail (λ text. text) still (stalled 6 0) refl (omega arith) refl

abbrev research_budget : PhaseBudget
research_budget = record {
  phase = "research";
  max_model_requests = 4;
  max_tool_calls = 8;
  max_repairs = 2;
  max_output_tokens = 3072;
  max_context_characters = 40000;
  deadline_seconds = 600;
}

research_given : defaults " Research" ≡ ok research_budget
unfolding defaults strip lower
research_given = refl

no_phase : defaults "lunch" ≡ raise "unknown phase: lunch"
unfolding defaults strip lower
no_phase = refl
