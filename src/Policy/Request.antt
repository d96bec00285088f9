-- ===== src/Policy/Request.antt =====
-- What `evaluate_policy` reads of the request: who asks, with which profile, for which capability.
use kris_ai.Base.{
  ℤ, pos, min_ℤ, String, ◌<>◌, ◌==◌, Bool, true, false, not, ◌&&◌, ◌||◌, Option, none, some, List,
  [], ◌∷◌, ◌++◌, if◌then◌else◌,
}
use kris_ai.Base.Outcome.{Outcome, ok, raise, ◌>>=◌}
use kris_ai.Base.Dict.{Dict}
use kris_ai.Base.Json.{
  Json, null, bool, int, real, str, arr, obj, Items, nil, item, Fields, end, field,
}
use kris_ai.Base.Json.Print.{dumps, decimal_ℤ}
use kris_ai.Base.Json.Access.{get, get_default, to_list, is_text, as_int, truthy}
use kris_ai.Policy.Values.{mapping, text_of}
use kris_ai.Policy.Scope.{natural}
use kris_ai.Policy.Effects.{reason_if}

-- Numbers in one form: Python's `==` has `1 == True` and `1 == 1.0`. A float of an integral value is
-- written with ".0".
mutual
  plain : Json → Json
  plain (bool true) = real "1.0"
  plain (bool false) = real "0.0"
  plain (int n) = real (decimal_ℤ n <> ".0")
  plain (real text) = real (if text == "-0.0" then "0.0" else text)
  plain (arr xs) = arr (plain_items xs)
  plain (obj fs) = obj (plain_fields fs)
  plain null = null
  plain (str s) = str s

  plain_items : Items → Items
  plain_items nil = nil
  plain_items (item v xs) = item (plain v) (plain_items xs)

  plain_fields : Fields → Fields
  plain_fields end = end
  plain_fields (field k v fs) = field k (plain v) (plain_fields fs)

-- `a == b`, by the canonical texts.
unfoldable pub equal_values : Json → Json → Bool
unfolding dumps plain decimal_ℤ
equal_values (str a) (str b) = a == b
equal_values a b = dumps (plain a) == dumps (plain b)

-- `for item in value`, as far as mappings among the items are looked for: those of a text or an
-- object are texts.
iterate : Json → Outcome (List Json)
unfolding to_list
iterate (arr xs) = ok (to_list xs)
iterate (str s) = ok []
iterate (obj fs) = ok []
iterate _ = raise "TypeError: not iterable"

hashable : Json → Bool
hashable (arr xs) = false
hashable (obj fs) = false
hashable _ = true

-- The later of two entries for a key stays.
later_of : Fields → Bool → Option Fields → Option Fields
later_of fs matches (some later) = some later
later_of fs matches none = if matches then some fs else none

profile_among : String → List Json → Outcome (Option Fields)
unfolding hashable later_of get
profile_among profile_id [] = ok none
profile_among profile_id (obj fs ∷ items) =
    let rest = profile_among profile_id items in
    if hashable (get "profileId" fs)
    then (rest >>= λ later. ok (later_of fs (is_text profile_id (get "profileId" fs)) later))
    else raise "TypeError: unhashable type"
profile_among profile_id (_ ∷ items) = profile_among profile_id items

known_profile : String → Option Fields → Outcome Fields
known_profile profile_id (some profile) = ok profile
known_profile profile_id none = raise ("unknown access profile: " <> profile_id)

unfoldable pub find_profile : String → Fields → Outcome Fields
unfolding iterate profile_among known_profile get_default
find_profile profile_id catalog = do
  items ← iterate (get_default "profiles" (arr nil) catalog)
  found ← profile_among profile_id items
  known_profile profile_id found

-- What stands in for a capability that the registry does not have.
abbrev pub unknown_capability : Fields
unknown_capability =
    field "domain" (str "unknown") (field "risk" (str "high") (field "tools" (arr nil) end))

-- The capability, and the reasons.
abbrev capability_of : Json → Fields × List String
capability_of (obj fs) = (fs, [])
capability_of _ = (unknown_capability, "unknown_capability" ∷ [])

-- `isinstance(tools, list) and tool_id in tools`
abbrev has_text : String → Items → Bool
has_text text nil = false
has_text text (item v xs) = is_text text v || has_text text xs

unfoldable pub is_registered : String → Json → Bool
is_registered tool_id (arr xs) = has_text tool_id xs
is_registered tool_id _ = false

-- A request that named everything it has to name.
pub record Asked : Type 0 where
  pub binding : Fields
  pub effect : Fields
  pub context : Fields
  pub profile_id : String
  pub profile : Fields
  pub capability_id : String
  pub tool_id : String
  pub actor_id : String
  pub capability : Fields
  pub reasons : List String

unfoldable pub registry_reasons : String → String → Fields → Fields → List String
unfolding is_registered equal_values truthy get
registry_reasons tool_id actor_id effect capability =
    reason_if (not (is_registered tool_id (get "tools" capability)))
      "tool_not_registered_for_capability"
    ++ (reason_if (not (equal_values (get "domain" effect) (get "domain" capability)))
          "capability_effect_mismatch"
        ++ reason_if
            (truthy (get "actor" capability) && not (is_text actor_id (get "actor" capability)))
            "wrong_actor")

unfoldable pub identify : Fields → Fields → Fields → Outcome Asked
unfolding mapping text_of find_profile registry_reasons get
identify request catalog config = do
  binding ← mapping (get "binding" request) "request.binding"
  effect ← mapping (get "effect" request) "request.effect"
  context ← mapping (get "context" request) "request.context"
  profile_id ← text_of (get "accessProfileId" binding) "binding.accessProfileId"
  profile ← find_profile profile_id catalog
  capability_id ← text_of (get "capabilityId" binding) "binding.capabilityId"
  tool_id ← text_of (get "toolId" binding) "binding.toolId"
  actor_id ← text_of (get "actorId" binding) "binding.actorId"
  run_id ← text_of (get "runId" binding) "binding.runId"
  task_id ← text_of (get "taskId" binding) "binding.taskId"
  registry ← mapping (get "capabilityRegistry" config) "policy_config.capabilityRegistry"
  let found = capability_of (get capability_id registry)
  ok (record {
    binding = binding;
    effect = effect;
    context = context;
    profile_id = profile_id;
    profile = profile;
    capability_id = capability_id;
    tool_id = tool_id;
    actor_id = actor_id;
    capability = found.0;
    reasons = found.1 ++ registry_reasons tool_id actor_id effect found.0;
  })

-- `requestedBudgets`: one field, then all of them. A value that is no natural number counts as 0.
abbrev asked_budget : ℤ → Option ℤ → ℤ × List String
asked_budget ceiling none = (min_ℤ ceiling (pos 0), "invalid_budget" ∷ [])
asked_budget ceiling (some n) = (min_ℤ ceiling n, [])

unfoldable pub requested_budgets : Fields → Dict ℤ → Dict ℤ × List String
unfolding natural min_ℤ get_default
requested_budgets asked [] = ([], [])
requested_budgets asked ((name, ceiling) ∷ rest) =
    let (value, here) =
      asked_budget ceiling (natural (as_int (get_default name (int ceiling) asked))) in
    let (others, reasons) = requested_budgets asked rest in
    ((name, value) ∷ others, here ++ reasons)
