-- ===== src/Safety/Terminal.antt =====
-- `TerminalPlan` and `TerminalPlanningPolicy.validate`.
pub mod Laws
use kris_ai.Base.{
  String, Bool, true, false, not, ◌&&◌, ◌==◌, List, [], ◌∷◌, elem, is_blank, if◌then◌else◌,
}

pub record TerminalPlan : Type 0 where
  pub mode : String
  pub command : String
  pub destructive : Bool
  pub approval_granted : Bool
  pub readiness_probe : String
  pub kill_strategy : String
  pub verification : String

abbrev pub modes : List String
modes = "finite" ∷ "interactive" ∷ "background" ∷ []

unfoldable pub validate : TerminalPlan → Bool × String
unfolding elem
validate plan =
    if not (elem plan.mode modes)
    then (false, "terminal_mode_invalid")
    else if is_blank plan.command
    then (false, "terminal_command_missing")
    else if plan.destructive && not plan.approval_granted
    then (false, "terminal_destructive_scope_requires_approval")
    else if elem plan.mode ("interactive" ∷ "background" ∷ []) && is_blank plan.readiness_probe
    then (false, "terminal_readiness_probe_required")
    else if plan.mode == "background" && is_blank plan.kill_strategy
    then (false, "terminal_kill_strategy_required")
    else if is_blank plan.verification
    then (false, "terminal_verification_required")
    else (true, "terminal_plan_bounded")
