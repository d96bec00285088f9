-- ===== src/Intelligence/Convergence.antt =====
-- `StrategyAction`, `ConvergenceDecision` and `ConvergenceController.decide`. The parameter is the
-- SHA-256 of a text, in hexadecimal.
pub mod Laws
use kris_ai.Base.{
  ℕ, ℤ, pos, clamp_ℕ, leb, ltb, String, Bool, true, false, not, ◌&&◌, List, [], ◌∷◌, if◌then◌else◌,
}
use kris_ai.Base.Json.{Json, bool, int, str, arr, obj, field, end, strings}
use kris_ai.Base.Json.Print.{dumps}
use kris_ai.Intelligence.Progress.{ProgressDelta}

pub data StrategyAction : Type 0 where
  continue compact_and_retry require_different_action route_to_verifier : StrategyAction
  split_task ask_user offer_stronger_model fail_convergence : StrategyAction

unfoldable pub value : StrategyAction → String
value continue = "continue"
value compact_and_retry = "compact_and_retry"
value require_different_action = "require_different_action"
value route_to_verifier = "route_to_verifier"
value split_task = "split_task"
value ask_user = "ask_user"
value offer_stronger_model = "offer_stronger_model"
value fail_convergence = "fail_convergence"

-- The keyword arguments of `decide`, but for the delta.
pub record Situation : Type 0 where
  pub consecutive_no_progress : ℤ
  pub repeated_action_count : ℤ
  pub repairs_remaining : ℤ
  pub verifier_available : Bool
  pub task_can_split : Bool
  pub ask_user_allowed : Bool
  pub stronger_model_available : Bool
  pub stronger_model_approved : Bool

-- The local variables that each branch sets.
pub record Strategy : Type 0 where
  pub action : StrategyAction
  pub stage : ℕ
  pub reason : String
  pub directives : List String
  pub approval : Bool

-- `max(0, int(n))` of the three counters
abbrev pub no_progress : Situation → ℕ
no_progress s = clamp_ℕ s.consecutive_no_progress

abbrev pub repeats : Situation → ℕ
repeats s = clamp_ℕ s.repeated_action_count

abbrev pub repairs : Situation → ℕ
repairs s = clamp_ℕ s.repairs_remaining

abbrev going_on : Strategy
going_on = record {
  action = continue;
  stage = 0;
  reason = "A durable fact changed; continue under the existing permissions and phase budget.";
  directives = "preserve_new_evidence" ∷ "continue_current_strategy" ∷ [];
  approval = false;
}

abbrev compacting : Strategy
compacting = record {
  action = compact_and_retry;
  stage = 1;
  reason =
      "No durable progress was observed once; compact duplicate context and request a materially different action.";
  directives =
      "remove_duplicate_history" ∷ "state_unresolved_criteria"
      ∷ "forbid_identical_action_fingerprint" ∷ [];
  approval = false;
}

abbrev differing : Strategy
differing = record {
  action = require_different_action;
  stage = 2;
  reason = "The same strategy failed to change state; require a different authorized action class.";
  directives =
      "summarize_current_state_deterministically" ∷ "exclude_prior_failed_action"
      ∷ "do_not_widen_permissions" ∷ [];
  approval = false;
}

abbrev verifying : Strategy
verifying = record {
  action = route_to_verifier;
  stage = 3;
  reason =
      "Execution is stalled; use an independent verifier to identify the exact unsupported criterion or stale assumption.";
  directives =
      "send_artifacts_and_evidence_only" ∷ "exclude_executor_narrative"
      ∷ "return_criterion_level_findings" ∷ [];
  approval = false;
}

abbrev splitting : Strategy
splitting = record {
  action = split_task;
  stage = 4;
  reason =
      "The bounded work item is too broad for the observed state; split it into independently verifiable sub-items.";
  directives =
      "preserve_existing_capabilities" ∷ "create_independent_acceptance_criteria"
      ∷ "retain_parent_budget_ceiling" ∷ [];
  approval = false;
}

abbrev asking : Strategy
asking = record {
  action = ask_user;
  stage = 5;
  reason =
      "Deterministic recovery cannot resolve the remaining ambiguity safely; request one precise user decision.";
  directives =
      "ask_one_material_question" ∷ "include_safe_default_and_consequences"
      ∷ "do_not_execute_while_waiting" ∷ [];
  approval = true;
}

abbrev offering : Strategy
offering = record {
  action = offer_stronger_model;
  stage = 6;
  reason =
      "A stronger model is available, but privacy, provider, and cost policy require explicit approval before fallback.";
  directives =
      "show_provider_and_data_boundary" ∷ "show_cost_and_reason" ∷ "retain_current_permissions"
      ∷ [];
  approval = true;
}

abbrev falling_back : Strategy
falling_back = record {
  action = require_different_action;
  stage = 6;
  reason =
      "Approved stronger-model fallback may be used once with compacted evidence and the same capability envelope.";
  directives =
      "route_to_approved_stronger_model" ∷ "reuse_compacted_evidence"
      ∷ "forbid_permission_expansion" ∷ [];
  approval = false;
}

abbrev failing : Strategy
failing = record {
  action = fail_convergence;
  stage = 7;
  reason =
      "Bounded strategies are exhausted or no safe repair capacity remains; stop with a precise convergence failure.";
  directives =
      "persist_final_progress_ledger" ∷ "identify_last_material_change"
      ∷ "report_safe_retry_preconditions" ∷ [];
  approval = false;
}

-- The ladder of tests.
unfoldable pub choose : ProgressDelta → Situation → Strategy
choose delta s =
    if delta.semantic_progress
    then going_on
    else if leb (no_progress s) 1 && (leb (repeats s) 1 && ltb 0 (repairs s))
    then compacting
    else if leb (no_progress s) 2 && ltb 0 (repairs s)
    then differing
    else if s.verifier_available && leb (no_progress s) 3
    then verifying
    else if s.task_can_split && leb (no_progress s) 4
    then splitting
    else if s.ask_user_allowed && leb (no_progress s) 5
    then asking
    else if s.stronger_model_available && not s.stronger_model_approved
    then offering
    else if s.stronger_model_available && (s.stronger_model_approved && ltb 0 (repairs s))
    then falling_back
    else failing

pub record ConvergenceDecision : Type 0 where
  pub action : StrategyAction
  pub stage : ℕ
  pub reason : String
  pub requires_user_approval : Bool
  pub permission_widening_allowed : Bool
  pub directives : List String
  pub decision_hash : String

unfoldable pub payload : ProgressDelta → Situation → Strategy → Json
unfolding value strings
payload delta s c = obj (
    field "action" (str (value c.action)) (
      field "stage" (int (pos c.stage)) (
        field "reason" (str c.reason) (
          field "approval" (bool c.approval) (
            field "directives" (arr (strings c.directives)) (
              field "deltaHash" (str delta.delta_hash) (
                field "noProgress" (int (pos (no_progress s))) (
                  field "repeats" (int (pos (repeats s)))
                    (field "repairs" (int (pos (repairs s))) end)))))))))

unfoldable pub decide : (String → String) → ProgressDelta → Situation → ConvergenceDecision
unfolding choose
decide sha256 delta s =
    let c = choose delta s in
    record {
      action = c.action;
      stage = c.stage;
      reason = c.reason;
      requires_user_approval = c.approval;
      permission_widening_allowed = false;
      directives = c.directives;
      decision_hash = sha256 (dumps (payload delta s c));
    }
