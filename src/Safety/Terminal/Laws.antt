-- ===== src/Safety/Terminal/Laws.antt =====
-- When a terminal plan is accepted.
use kris_ai.Base.{String, ◌≡◌, ◌↔◌, ◌⊎◌, inl, inr, refl, true, false, ◌==◌, is_blank, eq_iff, arith}
use kris_ai.Safety.Terminal.{TerminalPlan, validate}

pub record IsBounded (plan : TerminalPlan) : Type 0 where
  pub mode : (plan.mode ≡ "finite") ⊎ ((plan.mode ≡ "interactive") ⊎ (plan.mode ≡ "background"))
  pub command : is_blank plan.command ≡ false
  pub approved : plan.destructive ≡ true → plan.approval_granted ≡ true
  pub probe : (plan.mode ≡ "finite") ⊎ (is_blank plan.readiness_probe ≡ false)
  pub kill : plan.mode ≡ "background" → is_blank plan.kill_strategy ≡ false
  pub verified : is_blank plan.verification ≡ false

validate-IsBounded_of : (plan : TerminalPlan) → (validate plan).0 ≡ true → IsBounded plan
unfolding validate
validate-IsBounded_of plan h = ground (
  arith,
  eq_iff plan.mode "finite",
  eq_iff plan.mode "interactive",
  eq_iff plan.mode "background",
)

IsBounded-finite :
    (plan : TerminalPlan) → plan.mode ≡ "finite" → IsBounded plan → (validate plan).0 ≡ true
unfolding validate
IsBounded-finite plan k b = rw k (ground arith)

not_finite :
    (plan : TerminalPlan) (m : String)
    → plan.mode ≡ m
    → (m == "finite") ≡ false
    → IsBounded plan
    → is_blank plan.readiness_probe ≡ false
not_finite plan m k n b = ground (arith, eq_iff m "finite")

IsBounded-interactive :
    (plan : TerminalPlan) → plan.mode ≡ "interactive" → IsBounded plan → (validate plan).0 ≡ true
unfolding validate
IsBounded-interactive plan k b =
    let probe = not_finite plan "interactive" k refl b in rw k (ground arith)

IsBounded-background :
    (plan : TerminalPlan) → plan.mode ≡ "background" → IsBounded plan → (validate plan).0 ≡ true
unfolding validate
IsBounded-background plan k b =
    let probe = not_finite plan "background" k refl b in let kill = b.kill k in rw k (ground arith)

-- A terminal plan is accepted exactly when its mode is one of the three, it has a command and a
-- verification, a destructive one is approved, one that is not finite has a readiness probe, and
-- a background one has a kill strategy.
pub validate-IsBounded : (plan : TerminalPlan) → ((validate plan).0 ≡ true) ↔ IsBounded plan
validate-IsBounded plan = (
  validate-IsBounded_of plan,
  λ b. elim b.mode [
    | inl k ↦ IsBounded-finite plan k b
    | inr (inl k) ↦ IsBounded-interactive plan k b
    | inr (inr k) ↦ IsBounded-background plan k b
  ],
)
