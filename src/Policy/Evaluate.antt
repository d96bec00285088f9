-- ===== src/Policy/Evaluate.antt =====
-- `evaluate_policy`: the decision, with the grant that an allowed request receives.
pub mod Decided
pub mod Laws
use kris_ai.Base.{
  ℕ, ℤ, String, ◌<>◌, ◌==◌, Bool, true, false, not, ◌&&◌, ◌||◌, Option, none, some, List, [], ◌∷◌,
  ◌++◌, elem, is_empty, sorted_set, if◌then◌else◌,
}
use kris_ai.Base.Outcome.{Outcome, ok, raise, ◌>>=◌}
use kris_ai.Base.Dict.{Dict}
use kris_ai.Base.Json.{
  Json, null, bool, int, str, arr, obj, Items, nil, item, Fields, end, field, strings,
}
use kris_ai.Base.Json.Access.{get, is_text, truthy, or_empty, py_str, to_list}
use kris_ai.Policy.Values.{mapping, text_of, text_list}
use kris_ai.Policy.Scope.{Scope, base_scope, profile_budgets}
use kris_ai.Policy.Approval.{valid_approval}
use kris_ai.Policy.Overlays.{Overlaid, sorted_overlays, apply_overlays}
use kris_ai.Policy.Effects.{reason_if, effect_reasons}
use kris_ai.Policy.Request.{Asked, identify, requested_budgets}
use kris_ai.Policy.Widening.{widen, error_reason}
use kris_ai.Policy.Identity.{decision_id}

pub record PolicyDecision : Type 0 where
  pub decision_id : String
  pub status : String
  pub reason_codes : List String
  pub effective_profile_id : String
  pub effective_scope : Scope
  pub effective_budgets : Dict ℤ
  pub grant_draft : Option Json

abbrev pub budgets_json : Dict ℤ → Fields
budgets_json [] = end
budgets_json ((name, value) ∷ rest) = field name (int value) (budgets_json rest)

abbrev or_null : Option Json → Json
or_null none = null
or_null (some v) = v

abbrev scope_json : Scope → Json
scope_json s = obj (
    field "pathPrefixes" (arr (strings s.path_prefixes)) (
      field "networkDestinations" (arr (strings s.network_destinations)) (
        field "browserProfiles" (arr (strings s.browser_profiles)) (
          field "secretLeaseIds" (arr (strings s.secret_lease_ids)) (
            field "filesystem" (obj s.filesystem) (
              field "process" (obj s.process) (
                field "network" (obj s.network) (
                  field "browser" (obj s.browser)
                    (field "credentials" (obj s.credentials) end)))))))))

unfoldable pub to_json : PolicyDecision → Json
to_json d = obj (
    field "schemaVersion" (str "2.0.0") (
      field "decisionId" (str d.decision_id) (
        field "status" (str d.status) (
          field "reasonCodes" (arr (strings d.reason_codes)) (
            field "effectiveProfileId" (str d.effective_profile_id) (
              field "effectiveScope" (scope_json d.effective_scope) (
                field "effectiveBudgets" (obj (budgets_json d.effective_budgets))
                  (field "grantDraft" (or_null d.grant_draft) end))))))))

-- `request.get("overlays") or []`
unfoldable pub overlay_items : Json → Outcome (List Json)
unfolding truthy to_list
overlay_items (arr xs) = ok (to_list xs)
overlay_items value = if truthy value then raise "request.overlays must be an array" else ok []

-- The variables before the loop over the overlays, and after it.
unfoldable pub before_overlays : Asked → Fields → Fields → Outcome Overlaid
unfolding base_scope profile_budgets mapping or_empty requested_budgets py_str get
before_overlays asked request config = do
  scope ← base_scope asked.profile asked.context
  ceilings ← profile_budgets asked.profile_id config
  wanted ← mapping (or_empty (get "requestedBudgets" request)) "request.requestedBudgets"
  let limited = requested_budgets wanted ceilings
  ok (record {
    scope = scope;
    budgets = limited.0;
    reasons = asked.reasons ++ limited.1;
    approval_policy = py_str (get "approvalPolicy" asked.profile);
    denied_capabilities = [];
    denied_tools = [];
    force_deny = false;
  })

unfoldable pub denial_reasons : Asked → Overlaid → List String
unfolding elem
denial_reasons asked s =
    reason_if (elem asked.capability_id s.denied_capabilities) "capability_denied_by_overlay"
    ++ (reason_if (elem asked.tool_id s.denied_tools) "tool_denied_by_overlay"
        ++ reason_if s.force_deny "force_deny")

unfoldable pub needs_approval : String → Json → Bool
needs_approval policy risk =
    policy == "always" || (policy == "high_risk_only" && is_text "high" risk)

-- The status and the reason codes, from whether an approval is required, whether there is one, and
-- the reasons against the request.
unfoldable pub conclude : Bool → Bool → List String → String × List String
unfolding sorted_set
conclude required approved reasons =
    if required && (not approved && is_empty reasons)
    then ("approval_required", "approval_required" ∷ [])
    else if not (is_empty reasons)
    then ("deny", sorted_set reasons)
    else ("allow", [])

unfoldable pub grant_draft_of : Asked → Scope → Dict ℤ → String → Json
unfolding get
grant_draft_of asked scope budgets id =
    let issuer = obj (
      field "actorId" (str "desktop_host")
        (field "authority" (str "desktop_host:deterministic_policy") end)) in
    let binding = obj (
      field "runId" (get "runId" asked.binding) (
        field "taskId" (get "taskId" asked.binding) (
          field "actorId" (str asked.actor_id) (
            field "toolId" (str asked.tool_id)
              (field "accessProfileId" (str asked.profile_id) end))))) in
    let limits = obj (
      field "paths" (arr (strings scope.path_prefixes)) (
        field "networkDestinations" (arr (strings scope.network_destinations)) (
          field "browserProfiles" (arr (strings scope.browser_profiles)) (
            field "secretLeaseIds" (arr (strings scope.secret_lease_ids))
              (field "effect" (obj asked.effect) end))))) in
    obj (
      field "issuer" issuer (
        field "binding" binding (
          field "capabilityId" (str asked.capability_id) (
            field "scope" limits (
              field "budgets" (obj (budgets_json budgets))
                (field "policyDecisionId" (str id) end))))))

-- The decision with a status and its reason codes. Only an allowed request receives a grant.
unfoldable pub decision_from :
    Asked → Scope → Dict ℤ → String → String × List String → PolicyDecision
unfolding grant_draft_of
decision_from asked scope budgets id verdict = record {
  decision_id = id;
  status = verdict.0;
  reason_codes = verdict.1;
  effective_profile_id = asked.profile_id;
  effective_scope = scope;
  effective_budgets = budgets;
  grant_draft = if verdict.0 == "allow" then some (grant_draft_of asked scope budgets id) else none;
}

-- The decision on a request whose overlays were applied, from the scope before and after them.
unfoldable pub decide : Asked → Scope → Overlaid → Fields → String → Outcome PolicyDecision
unfolding mapping or_empty valid_approval widen effect_reasons denial_reasons needs_approval
    conclude decision_from get
decide asked base s request id = do
  approval ← mapping (or_empty (get "approval" request)) "request.approval"
  approved ← valid_approval approval
  widening ← mapping (or_empty (get "explicitWidening" request)) "request.explicitWidening"
  wider ← widen base s.scope widening
  against ← effect_reasons wider.0 asked.context asked.profile_id asked.profile asked.effect
  let reasons =
      s.reasons ++ (denial_reasons asked s ++ (error_reason approved.1 ++ (wider.1 ++ against)))
  let verdict =
      conclude (needs_approval s.approval_policy (get "risk" asked.capability)) approved.0 reasons
  ok (decision_from asked wider.0 s.budgets id verdict)

module _ (sha256 : String → String) where
  unfoldable pub evaluate : Json → Fields → Fields → Outcome PolicyDecision
  unfolding mapping identify decision_id before_overlays overlay_items sorted_overlays
      apply_overlays decide get
  evaluate request_value catalog config = do
    request ← mapping request_value "request"
    version ←
        (if is_text "2.0.0" (get "schemaVersion" request)
          then ok (get "schemaVersion" request)
          else raise "request schemaVersion must be 2.0.0")
    asked ← identify request catalog config
    id ← decision_id sha256 request config
    start ← before_overlays asked request config
    items ← overlay_items (get "overlays" request)
    overlays ← sorted_overlays items
    final ← apply_overlays start overlays
    decide asked start.scope final request id

  unfoldable pub evaluate_policy : Json → Fields → Fields → Outcome Json
  unfolding evaluate to_json
  evaluate_policy request catalog config =
      evaluate request catalog config >>= λ decision. ok (to_json decision)
