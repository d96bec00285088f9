-- ===== src/Policy/Evaluate/Decided.antt =====
-- The last stage of an evaluation: what stands behind a decision that allows a request.
use mathlib.Core.Path.{subst}
use kris_ai.Base.{
  ℤ, String, ◌≡◌, refl, ap, ◌∙◌, Bool, true, false, Option, none, some, List, [], ◌∷◌, ◌++◌, elem,
  eq_iff,
}
use kris_ai.Base.Dict.{Dict}
use kris_ai.Base.Outcome.{ok, >>=-elim, ok-injective}
use kris_ai.Base.Json.{Fields}
use kris_ai.Base.Json.Access.{get, or_empty}
use kris_ai.Policy.Values.{mapping}
use kris_ai.Policy.Scope.{Scope}
use kris_ai.Policy.Approval.{valid_approval}
use kris_ai.Policy.Overlays.{Overlaid}
use kris_ai.Policy.Effects.{reason_if, effect_reasons}
use kris_ai.Policy.Request.{Asked}
use kris_ai.Policy.Widening.{widen, error_reason}
use kris_ai.Policy.Widening.Laws.{IsCeiled, widen-IsCeiled}
use kris_ai.Policy.Evaluate.{
  PolicyDecision, denial_reasons, needs_approval, conclude, grant_draft_of, decision_from, decide,
}

append-eq-nil : (xs ys : List String) → (xs ++ ys) ≡ [] → (xs ≡ []) × (ys ≡ [])
append-eq-nil [] ys h = (refl, h)
append-eq-nil (x ∷ xs) ys h = cc

reason_if-eq-nil : (test : Bool) (code : String) → reason_if test code ≡ [] → test ≡ false
reason_if-eq-nil false code h = refl
reason_if-eq-nil true code h = cc

conclude-allow :
    (required approved : Bool) (reasons : List String)
    → (conclude required approved reasons).0 ≡ "allow"
    → (reasons ≡ [])
      × ((conclude required approved reasons).1 ≡ [])
      × (required ≡ true → approved ≡ true)
unfolding conclude
conclude-allow true true [] h = (refl, refl, λ e. refl)
conclude-allow true false [] h = let bad = (eq_iff "approval_required" "allow").1 h in cc
conclude-allow false approved [] h = (refl, refl, λ e. cc)
conclude-allow true true (x ∷ xs) h = let bad = (eq_iff "deny" "allow").1 h in cc
conclude-allow true false (x ∷ xs) h = let bad = (eq_iff "deny" "allow").1 h in cc
conclude-allow false approved (x ∷ xs) h = let bad = (eq_iff "deny" "allow").1 h in cc

-- What an allowed request has: no reason against it before the overlays or from them, no denial, no
-- error in its approval, no part of its widening refused, an effect that the widened scope covers,
-- and an approval if one is needed. The decision gives no reason.
pub record IsAllowed (asked : Asked) (base : Scope) (s : Overlaid) (request : Fields) (id : String)
    (d : PolicyDecision) : Type 0 where
  pub approval : Fields
  pub approved : Bool × Option String
  pub asked_approval : mapping (or_empty (get "approval" request)) "request.approval" ≡ ok approval
  pub judged : valid_approval approval ≡ ok approved
  pub enough :
      needs_approval s.approval_policy (get "risk" asked.capability) ≡ true → approved.0 ≡ true
  pub no_error : approved.1 ≡ none
  pub widening : Fields
  pub asked_widening :
      mapping (or_empty (get "explicitWidening" request)) "request.explicitWidening" ≡ ok widening
  pub widened : widen base s.scope widening ≡ ok (d.effective_scope, [])
  pub no_reasons : s.reasons ≡ []
  pub capability : elem asked.capability_id s.denied_capabilities ≡ false
  pub tool : elem asked.tool_id s.denied_tools ≡ false
  pub force : s.force_deny ≡ false
  pub covered :
      effect_reasons d.effective_scope asked.context asked.profile_id asked.profile asked.effect
      ≡ ok []
  pub reason_codes : d.reason_codes ≡ []
  pub budgets : d.effective_budgets ≡ s.budgets
  pub grant : d.grant_draft ≡ some (grant_draft_of asked d.effective_scope s.budgets id)

denial_reasons-nil :
    (asked : Asked) (s : Overlaid)
    → denial_reasons asked s ≡ []
    → (elem asked.capability_id s.denied_capabilities ≡ false)
      × (elem asked.tool_id s.denied_tools ≡ false)
      × (s.force_deny ≡ false)
unfolding denial_reasons
denial_reasons-nil asked s h =
    let (a, bc) =
      append-eq-nil
        (reason_if (elem asked.capability_id s.denied_capabilities) "capability_denied_by_overlay")
        _ h in
    let (b, c) =
      append-eq-nil (reason_if (elem asked.tool_id s.denied_tools) "tool_denied_by_overlay") _ bc in
    (
      reason_if-eq-nil (elem asked.capability_id s.denied_capabilities) _ a,
      reason_if-eq-nil (elem asked.tool_id s.denied_tools) _ b,
      reason_if-eq-nil s.force_deny _ c,
    )

-- The values between, in a decision that was made.
record Decided (asked : Asked) (base : Scope) (s : Overlaid) (request : Fields) (id : String)
    (d : PolicyDecision) : Type 0 where
  approval : Fields
  approved : Bool × Option String
  widening : Fields
  wider : Scope × List String
  against : List String
  is_approval : mapping (or_empty (get "approval" request)) "request.approval" ≡ ok approval
  is_approved : valid_approval approval ≡ ok approved
  is_widening :
      mapping (or_empty (get "explicitWidening" request)) "request.explicitWidening" ≡ ok widening
  is_wider : widen base s.scope widening ≡ ok wider
  is_against :
      effect_reasons wider.0 asked.context asked.profile_id asked.profile asked.effect ≡ ok against
  is_decision :
      decision_from asked wider.0 s.budgets id (
        conclude (needs_approval s.approval_policy (get "risk" asked.capability)) approved.0 (
          s.reasons
          ++ (denial_reasons asked s ++ (error_reason approved.1 ++ (wider.1 ++ against)))))
      ≡ d

decide-Decided :
    (asked : Asked) (base : Scope) (s : Overlaid) (request : Fields) (id : String)
    (d : PolicyDecision)
    → decide asked base s request id ≡ ok d
    → Decided asked base s request id d
unfolding decide
decide-Decided asked base s request id d h0 =
    >>=-elim (mapping (or_empty (get "approval" request)) "request.approval") _ h0
      (λ approval e1 h1. >>=-elim (valid_approval approval) _ h1 (λ approved e2 h2.
        >>=-elim (mapping (or_empty (get "explicitWidening" request)) "request.explicitWidening") _
          h2
          (λ widening e3 h3. >>=-elim (widen base s.scope widening) _ h3 (λ wider e4 h4.
            >>=-elim
              (effect_reasons wider.0 asked.context asked.profile_id asked.profile asked.effect) _
              h4
              (λ against e5 h5. record {
                approval = approval;
                approved = approved;
                widening = widening;
                wider = wider;
                against = against;
                is_approval = e1;
                is_approved = e2;
                is_widening = e3;
                is_wider = e4;
                is_against = e5;
                is_decision = ok-injective _ d h5;
              })))))

error_reason-nil : (o : Option String) → error_reason o ≡ [] → o ≡ none
error_reason-nil none h = refl
error_reason-nil (some code) h = cc

decision-IsAllowed :
    (asked : Asked) (base : Scope) (s : Overlaid) (request : Fields) (id : String)
    (approval : Fields) (approved : Bool × Option String) (widening : Fields)
    (wider : Scope × List String) (against : List String)
    → mapping (or_empty (get "approval" request)) "request.approval" ≡ ok approval
    → valid_approval approval ≡ ok approved
    → mapping (or_empty (get "explicitWidening" request)) "request.explicitWidening" ≡ ok widening
    → widen base s.scope widening ≡ ok wider
    → effect_reasons wider.0 asked.context asked.profile_id asked.profile asked.effect ≡ ok against
    → let d = decision_from asked wider.0 s.budgets id (
        conclude (needs_approval s.approval_policy (get "risk" asked.capability)) approved.0 (
          s.reasons
          ++ (denial_reasons asked s ++ (error_reason approved.1 ++ (wider.1 ++ against))))) in
      d.status ≡ "allow" → IsAllowed asked base s request id d
unfolding decision_from
decision-IsAllowed asked base s request id approval approved widening wider against ea ej em ew ee
      allowed =
    let (none_left, no_codes, enough) =
      conclude-allow (needs_approval s.approval_policy (get "risk" asked.capability)) approved.0
        (s.reasons ++ (denial_reasons asked s ++ (error_reason approved.1 ++ (wider.1 ++ against))))
        allowed in
    let (e1, r1) = append-eq-nil s.reasons _ none_left in
    let (e2, r2) = append-eq-nil (denial_reasons asked s) _ r1 in
    let (e3, r3) = append-eq-nil (error_reason approved.1) _ r2 in
    let (e4, e5) = append-eq-nil wider.1 against r3 in
    let (capability, tool, force) = denial_reasons-nil asked s e2 in
    record {
      approval = approval;
      approved = approved;
      asked_approval = ea;
      judged = ej;
      enough = enough;
      no_error = error_reason-nil approved.1 e3;
      widening = widening;
      asked_widening = em;
      widened = ew ∙ ap (λ reasons. ok (wider.0, reasons)) e4;
      no_reasons = e1;
      capability = capability;
      tool = tool;
      force = force;
      covered = ee ∙ ap ok e5;
      reason_codes = no_codes;
      budgets = refl;
      grant = rw ((eq_iff _ "allow").1 allowed) refl;
    }

pub decide-IsAllowed :
    (asked : Asked) (base : Scope) (s : Overlaid) (request : Fields) (id : String)
    (d : PolicyDecision)
    → decide asked base s request id ≡ ok d
    → d.status ≡ "allow"
    → IsAllowed asked base s request id d
decide-IsAllowed asked base s request id d h allowed =
    let c = decide-Decided asked base s request id d h in
    subst (λ e. e.status ≡ "allow" → IsAllowed asked base s request id e) c.is_decision
      (decision-IsAllowed asked base s request id c.approval c.approved c.widening c.wider c.against
        c.is_approval c.is_approved c.is_widening c.is_wider c.is_against)
      allowed

decision_from-IsCeiled :
    (asked : Asked) (base scope : Scope) (budgets : Dict ℤ) (id : String)
    (verdict : String × List String)
    → IsCeiled base scope
    → IsCeiled base (decision_from asked scope budgets id verdict).effective_scope
unfolding decision_from
decision_from-IsCeiled asked base scope budgets id verdict c = c

decision_from-decision_id :
    (asked : Asked) (scope : Scope) (budgets : Dict ℤ) (id : String)
    (verdict : String × List String)
    → (decision_from asked scope budgets id verdict).decision_id ≡ id
unfolding decision_from
decision_from-decision_id asked scope budgets id verdict = refl

pub decide-decision_id :
    (asked : Asked) (base : Scope) (s : Overlaid) (request : Fields) (id : String)
    (d : PolicyDecision)
    → decide asked base s request id ≡ ok d
    → d.decision_id ≡ id
decide-decision_id asked base s request id d h =
    let c = decide-Decided asked base s request id d h in
    subst (λ e. e.decision_id ≡ id) c.is_decision
      (decision_from-decision_id asked c.wider.0 s.budgets id _)

pub decide-IsCeiled :
    (asked : Asked) (base : Scope) (s : Overlaid) (request : Fields) (id : String)
    (d : PolicyDecision)
    → decide asked base s request id ≡ ok d
    → IsCeiled base s.scope
    → IsCeiled base d.effective_scope
decide-IsCeiled asked base s request id d h ceiled =
    let c = decide-Decided asked base s request id d h in
    subst (λ e. IsCeiled base e.effective_scope) c.is_decision
      (decision_from-IsCeiled asked base c.wider.0 s.budgets id _
        (widen-IsCeiled base s.scope c.wider.0 c.widening c.wider.1 c.is_wider ceiled))
