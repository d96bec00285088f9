-- ===== src/Policy/Runs.antt =====
-- Whole runs of `evaluate_policy`, and its theorems at a concrete request.
use kris_ai.Base.{pos, String, ◌≡◌, refl, false, List, [], ◌∷◌, is_blank}
use kris_ai.Base.Outcome.{Outcome, ok, raise}
use kris_ai.Base.Json.{Json, null, int, str, arr, obj, nil, item, Fields, end, field, strings}
use kris_ai.Base.Json.Access
use kris_ai.Policy.Evaluate.{PolicyDecision, needs_approval, evaluate, decision_from}
use kris_ai.Policy.Evaluate.Laws.{Evaluated, IsBounded, evaluate-IsBounded}
use kris_ai.Policy.Tests.{approval}

-- A network request under a profile that asks for approval of high risks only.
abbrev catalog : Fields
catalog =
    field "profiles"
      (arr (
        item
          (obj (
            field "profileId" (str "workspace") (
              field "approvalPolicy" (str "high_risk_only") (
                field "filesystem" (obj (field "scope" (str "none") end)) (
                  field "process" (obj end) (
                    field "network" (obj (field "scope" (str "allowlist") end)) (
                      field "browser" (obj (field "scope" (str "none") end))
                        (field "credentials" (obj (field "mode" (str "none") end)) end))))))))
          nil))
      end

abbrev config : Fields
config = field "policyRevision" (str "r1") (
    field "capabilityRegistry"
      (obj (
        field "network.fetch"
          (obj (
            field "domain" (str "network")
              (field "risk" (str "high") (field "tools" (arr (strings ("http" ∷ []))) end))))
          end))
      (field "profileBudgets"
        (obj (
          field "workspace"
            (obj (
              field "wallClockMs" (int (pos 1000)) (
                field "maxOutputBytes" (int (pos 10)) (
                  field "maxNetworkBytes" (int (pos 10)) (
                    field "maxCostMicros" (int (pos 0))
                      (field "maxMutations" (int (pos 5)) end))))))
            end))
        end))

abbrev binding : Fields
binding = field "accessProfileId" (str "workspace") (
    field "capabilityId" (str "network.fetch") (
      field "toolId" (str "http") (
        field "actorId" (str "agent")
          (field "runId" (str "run-1") (field "taskId" (str "task-1") end)))))

abbrev effect : Fields
effect =
    field "domain" (str "network")
      (field "action" (str "connect") (field "target" (str "a.org") end))

abbrev context : Fields
context = field "projectDestinations" (arr (strings ("b.org" ∷ "a.org" ∷ []))) end

abbrev request_with : Json → Json
request_with approval_value = obj (
    field "schemaVersion" (str "2.0.0") (
      field "binding" (obj binding) (
        field "effect" (obj effect) (
          field "context" (obj context) (
            field "approval" approval_value
              (field "requestedBudgets" (obj (field "maxMutations" (int (pos 2)) end)) end))))))

-- A digest that is no digest.
abbrev sha256 : String → String
sha256 text = "d41d8"

abbrev status_of : Outcome PolicyDecision → String × List String
status_of (ok d) = (d.status, d.reason_codes)
status_of (raise message) = (message, [])

unapproved :
    status_of (evaluate sha256 (request_with null) catalog config)
    ≡ ("approval_required", "approval_required" ∷ [])
unfolding evaluate strings is_blank
unapproved = refl

abbrev decision : PolicyDecision
decision =
    decision_from
      (record {
        binding = binding;
        effect = effect;
        context = context;
        profile_id = "workspace";
        profile = end;
        capability_id = "network.fetch";
        tool_id = "http";
        actor_id = "agent";
        capability = end;
        reasons = [];
      })
      (record {
        path_prefixes = [];
        network_destinations = "a.org" ∷ "b.org" ∷ [];
        browser_profiles = [];
        secret_lease_ids = [];
        filesystem = field "scope" (str "none") end;
        process = end;
        network = field "scope" (str "allowlist") end;
        browser = field "scope" (str "none") end;
        credentials = field "mode" (str "none") end;
      })
      (("wallClockMs", pos 1000)
        ∷ ("maxOutputBytes", pos 10)
        ∷ ("maxNetworkBytes", pos 10)
        ∷ ("maxCostMicros", pos 0)
        ∷ ("maxMutations", pos 2)
        ∷ [])
      "policy-d41d8" ("allow", [])

approved : evaluate sha256 (request_with (obj approval)) catalog config ≡ ok decision
unfolding evaluate strings is_blank decision_from
approved = refl

evaluate-IsBounded_example :
    (e : Evaluated sha256 (request_with (obj approval)) catalog config decision) × IsBounded sha256
      (request_with (obj approval))
      catalog
      config
      decision
      e
evaluate-IsBounded_example =
    evaluate-IsBounded sha256 (request_with (obj approval)) catalog config decision approved

-- A profile without an approval policy has the text "None" for one.
no_policy : needs_approval (Access.py_str null) (str "high") ≡ false
unfolding needs_approval Access.py_str
no_policy = refl
