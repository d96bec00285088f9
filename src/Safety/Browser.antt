-- ===== src/Safety/Browser.antt =====
-- `BrowserPlanStep` and `BrowserPlanningPolicy.validate`. An early `return False, code` is `raise`.
pub mod Protocol
use kris_ai.Base.{
  ℤ, ltb_ℤ, String, Bool, true, false, not, ◌&&◌, ◌||◌, ◌==◌, List, [], ◌∷◌, if◌then◌else◌,
}
use kris_ai.Base.Outcome.{Outcome, ok, raise, ◌>>=◌}

pub record BrowserPlanStep : Type 0 where
  pub kind : String
  pub target : String
  pub observation_age_ms : ℤ
  pub retry : ℤ
  pub destructive : Bool
  pub requires_takeover : Bool

pub record BrowserPlanningPolicy : Type 0 where
  pub max_observation_age_ms : ℤ
  pub max_retries : ℤ

-- The three flags that the loop keeps.
pub record Flags : Type 0 where
  pub observed : Bool
  pub awaiting_verification : Bool
  pub takeover_ready : Bool

abbrev pub start : Flags
start = record { observed = false; awaiting_verification = false; takeover_ready = false }

act : BrowserPlanningPolicy → Flags → BrowserPlanStep → Outcome Flags
act policy flags step =
    if not flags.observed || flags.awaiting_verification
    then raise "browser_action_requires_fresh_observation"
    else if ltb_ℤ policy.max_observation_age_ms step.observation_age_ms
    then raise "browser_target_stale"
    else if (step.destructive || step.requires_takeover) && not flags.takeover_ready
    then raise "browser_takeover_required"
    else ok (record { observed = false; awaiting_verification = true; takeover_ready = false })

-- One round of the loop.
unfoldable pub check_step : BrowserPlanningPolicy → Flags → BrowserPlanStep → Outcome Flags
unfolding act
check_step policy flags step =
    if ltb_ℤ policy.max_retries step.retry
    then raise "browser_retry_budget_exceeded"
    else if step.kind == "observe"
    then ok (record { observed = true; awaiting_verification = false; takeover_ready = false })
    else if step.kind == "takeover"
    then (if not flags.observed
        then raise "browser_takeover_without_observation"
        else ok (record flags { takeover_ready = true }))
    else if step.kind == "verify"
    then (if not flags.awaiting_verification
        then raise "browser_verify_without_action"
        else ok (record flags { awaiting_verification = false; observed = true }))
    else if not (step.kind == "action")
    then raise "browser_step_kind_invalid"
    else act policy flags step

unfoldable pub check_steps : BrowserPlanningPolicy → Flags → List BrowserPlanStep → Outcome Flags
unfolding check_step
check_steps policy flags [] = ok flags
check_steps policy flags (step ∷ steps) =
    check_step policy flags step >>= λ next. check_steps policy next steps

-- The test after the loop, and the pair that the method returns.
unfoldable pub verdict : Outcome Flags → Bool × String
verdict (raise code) = (false, code)
verdict (ok flags) =
    if flags.awaiting_verification
    then (false, "browser_postcondition_missing")
    else (true, "observe_action_verify_satisfied")

unfoldable pub validate : BrowserPlanningPolicy → List BrowserPlanStep → Bool × String
unfolding check_steps verdict
validate policy steps = verdict (check_steps policy start steps)
