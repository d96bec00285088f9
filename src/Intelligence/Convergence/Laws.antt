-- ===== src/Intelligence/Convergence/Laws.antt =====
-- The escalation of a stalled run is monotone, bounded, and asks for approval where it must.
use kris_ai.Base.{not, ◌&&◌, leb, ltb, if◌then◌else◌}
use kris_ai.Base.{ℕ, ◌≤◌, ◌<◌, String, ◌≡◌, ◌↔◌, ◌⊎◌, Bool, true, false, arith}
use kris_ai.Intelligence.Progress.{ProgressDelta}
use kris_ai.Intelligence.Convergence.{
  continue, ask_user, offer_stronger_model, fail_convergence, Situation, no_progress, repeats,
  repairs, choose, decide,
}

-- `t` is a situation in which the same run has stalled for longer: the same means, no fewer rounds
-- without progress, no fewer repeated actions, and no more repairs left.
pub record IsLater (s t : Situation) : Type 0 where
  pub rounds : no_progress s ≤ no_progress t
  pub repeated : repeats s ≤ repeats t
  pub spent : repairs t ≤ repairs s
  pub verifier : t.verifier_available ≡ s.verifier_available
  pub split : t.task_can_split ≡ s.task_can_split
  pub ask : t.ask_user_allowed ≡ s.ask_user_allowed
  pub available : t.stronger_model_available ≡ s.stronger_model_available
  pub approved : t.stronger_model_approved ≡ s.stronger_model_approved

-- The stages of the ladder alone: each rung is taken if its test passes.
abbrev rung : Bool → ℕ → ℕ → ℕ
rung test i rest = if test then i else rest

upper_rungs : Situation → ℕ
upper_rungs s = rung (s.ask_user_allowed && leb (no_progress s) 5) 5 (
    rung (s.stronger_model_available && not s.stronger_model_approved) 6
      (rung (s.stronger_model_available && (s.stronger_model_approved && ltb 0 (repairs s))) 6 7))

lower_rungs : Situation → ℕ
lower_rungs s = rung (leb (no_progress s) 1 && (leb (repeats s) 1 && ltb 0 (repairs s))) 1 (
    rung (leb (no_progress s) 2 && ltb 0 (repairs s)) 2 (
      rung (s.verifier_available && leb (no_progress s) 3) 3
        (rung (s.task_can_split && leb (no_progress s) 4) 4 (upper_rungs s))))

stage-rungs :
    (delta : ProgressDelta) (s : Situation)
    → delta.semantic_progress ≡ false
    → (choose delta s).stage ≡ lower_rungs s
unfolding choose lower_rungs upper_rungs
stage-rungs delta s p = ground arith

rung_mono :
    (t t' : Bool) (i rest rest' : ℕ)
    → (t' ≡ true → t ≡ true)
    → i ≤ rest'
    → rest ≤ rest'
    → rung t i rest ≤ rung t' i rest'
rung_mono t t' i rest rest' h a b = ground arith

module _ (s t : Situation) (later : IsLater s t) where
  upper_bound : 5 ≤ upper_rungs t
  unfolding upper_rungs
  upper_bound = ground arith

  upper_mono : upper_rungs s ≤ upper_rungs t
  unfolding upper_rungs
  upper_mono = ground arith

  lower_mono : lower_rungs s ≤ lower_rungs t
  unfolding lower_rungs
  lower_mono =
      rung_mono _ _ 1 _ _ (λ h. ground arith) (ground (arith, upper_bound))
        (rung_mono _ _ 2 _ _ (λ h. ground arith) (ground (arith, upper_bound))
          (rung_mono _ _ 3 _ _ (λ h. ground arith) (ground (arith, upper_bound))
            (rung_mono _ _ 4 _ _ (λ h. ground arith) (omega (arith, upper_bound)) upper_mono)))

module _ (sha256 : String → String) where
  -- Of two situations without a change of durable facts, take a later one: with the same verifier,
  -- split, question to the user, stronger model and its approval, with no fewer rounds without
  -- progress and no fewer repeated actions, and with no more repairs left. Its stage is no lower.
  pub stage_mono :
      (delta delta' : ProgressDelta) (s t : Situation)
      → delta.semantic_progress ≡ false
      → delta'.semantic_progress ≡ false
      → IsLater s t
      → (decide sha256 delta s).stage ≤ (decide sha256 delta' t).stage
  unfolding decide
  stage_mono delta delta' s t p q later =
      rw (stage-rungs delta s p, stage-rungs delta' t q) (lower_mono s t later)

  -- A run goes on unchanged exactly when a durable fact changed.
  pub decide-continue :
      (delta : ProgressDelta) (s : Situation)
      → ((decide sha256 delta s).action ≡ continue) ↔ (delta.semantic_progress ≡ true)
  unfolding decide
  decide-continue delta s = (λ h. ground arith, λ h. ground arith)

  -- The user's approval is required exactly for a question to the user and for the offer of a
  -- stronger model.
  pub decide-approval :
      (delta : ProgressDelta) (s : Situation)
      → ((decide sha256 delta s).requires_user_approval ≡ true) ↔ (
          ((decide sha256 delta s).action ≡ ask_user)
          ⊎ ((decide sha256 delta s).action ≡ offer_stronger_model))
  unfolding decide
  decide-approval delta s = (λ h. ground arith, λ h. ground arith)

  -- After more than five rounds without progress and with no repairs left, a run fails, unless a
  -- stronger model that is not yet approved can be offered.
  pub decide-fail :
      (delta : ProgressDelta) (s : Situation)
      → delta.semantic_progress ≡ false
      → 5 < no_progress s
      → repairs s ≡ 0
      → ((decide sha256 delta s).action ≡ fail_convergence)
        ⊎ (((decide sha256 delta s).action ≡ offer_stronger_model)
            × (s.stronger_model_available ≡ true)
            × (s.stronger_model_approved ≡ false))
  unfolding decide
  decide-fail delta s p n r = ground arith
