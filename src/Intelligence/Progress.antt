-- ===== src/Intelligence/Progress.antt =====
-- `ProgressSnapshot`, `ProgressDelta` and `SemanticProgressEngine.compare`. A frozen set of strings is
-- a list that is read by membership. The parameter is the SHA-256 of a text, in hexadecimal.
pub mod Laws
use kris_ai.Base.{
  String, Bool, true, false, not, ◌&&◌, ◌||◌, ◌==◌, Option, none, some, List, [], ◌∷◌, ◌++◌, elem,
  sorted_set, difference, intersection, is_empty, if◌then◌else◌,
}
use kris_ai.Base.Dict.{Dict, keys, lookup}
use kris_ai.Base.Json.{Json, bool, str, arr, obj, Items, nil, item, Fields, end, field, strings}
use kris_ai.Base.Json.Print.{dumps}

pub record ProgressSnapshot : Type 0 where
  pub artifacts : Dict String
  pub evidence : List String
  pub active_errors : List String
  pub satisfied_criteria : List String
  pub external_state : List String
  pub plan_revision_hash : String
  pub action_fingerprint : String
  pub result_fingerprint : String

-- One entry of `changed_artifact_hashes`.
pub record Change : Type 0 where
  pub path : String
  pub before_sha256 : String
  pub after_sha256 : String

pub record ProgressDelta : Type 0 where
  pub new_artifacts : List String
  pub changed_artifact_hashes : List Change
  pub removed_artifacts : List String
  pub new_evidence : List String
  pub resolved_errors : List String
  pub new_errors : List String
  pub criteria_satisfied : List String
  pub criteria_regressed : List String
  pub new_external_state : List String
  pub plan_revised : Bool
  pub repeated_action : Bool
  pub repeated_result : Bool
  pub semantic_progress : Bool
  pub reasons : List String
  pub delta_hash : String

-- `tuple(sorted(xs - ys))`
unfoldable pub added : List String → List String → List String
unfolding sorted_set difference
added xs ys = sorted_set (difference xs ys)

-- The entry of a path that both snapshots have, if its hash changed.
unfoldable pub change_at : String → Option String → Option String → List Change
change_at path (some x) (some y) =
    if x == y then [] else record { path = path; before_sha256 = x; after_sha256 = y } ∷ []
change_at path _ _ = []

unfoldable pub changes : Dict String → Dict String → List String → List Change
changes before after [] = []
changes before after (path ∷ paths) =
    change_at path (lookup path before) (lookup path after) ++ changes before after paths

unfoldable pub changed_hashes : Dict String → Dict String → List Change
changed_hashes before after =
    changes before after (sorted_set (intersection (keys before) (keys after)))

-- `bool(new and new == old)`, and the same for a difference
unfoldable pub repeats : String → String → Bool
repeats old new = not (old == "") && old == new

unfoldable pub revises : String → String → Bool
revises old new = not (new == "") && not (new == old)

-- `if test: reasons.append(text)`
abbrev pub reason_if : Bool → String → List String
reason_if test text = if test then text ∷ [] else []

change_json : Change → Json
change_json c = obj (
    field "path" (str c.path)
      (field "beforeSha256" (str c.before_sha256) (field "afterSha256" (str c.after_sha256) end)))

change_items : List Change → Items
unfolding change_json
change_items [] = nil
change_items (c ∷ cs) = item (change_json c) (change_items cs)

names : List String → Json
unfolding strings
names xs = arr (strings xs)

-- The payload that is hashed: the delta without its hash.
unfoldable pub payload : ProgressDelta → Json
unfolding names change_items
payload d = obj (
    field "newArtifacts" (names d.new_artifacts) (
      field "changedArtifactHashes" (arr (change_items d.changed_artifact_hashes)) (
        field "removedArtifacts" (names d.removed_artifacts) (
          field "newEvidence" (names d.new_evidence) (
            field "resolvedErrors" (names d.resolved_errors) (
              field "newErrors" (names d.new_errors) (
                field "criteriaSatisfied" (names d.criteria_satisfied) (
                  field "criteriaRegressed" (names d.criteria_regressed) (
                    field "newExternalState" (names d.new_external_state) (
                      field "planRevised" (bool d.plan_revised) (
                        field "repeatedAction" (bool d.repeated_action) (
                          field "repeatedResult" (bool d.repeated_result) (
                            field "semanticProgress" (bool d.semantic_progress)
                              (field "reasons" (names d.reasons) end))))))))))))))

-- The facts of a delta, before its summary.
unfoldable pub facts : ProgressSnapshot → ProgressSnapshot → ProgressDelta
facts before after = record {
  new_artifacts = added (keys after.artifacts) (keys before.artifacts);
  changed_artifact_hashes = changed_hashes before.artifacts after.artifacts;
  removed_artifacts = added (keys before.artifacts) (keys after.artifacts);
  new_evidence = added after.evidence before.evidence;
  resolved_errors = added before.active_errors after.active_errors;
  new_errors = added after.active_errors before.active_errors;
  criteria_satisfied = added after.satisfied_criteria before.satisfied_criteria;
  criteria_regressed = added before.satisfied_criteria after.satisfied_criteria;
  new_external_state = added after.external_state before.external_state;
  plan_revised = revises before.plan_revision_hash after.plan_revision_hash;
  repeated_action = repeats before.action_fingerprint after.action_fingerprint;
  repeated_result = repeats before.result_fingerprint after.result_fingerprint;
  semantic_progress = false;
  reasons = [];
  delta_hash = "";
}

unfoldable pub is_positive : ProgressDelta → Bool
is_positive d =
    not (is_empty d.new_artifacts)
    || (not (is_empty d.changed_artifact_hashes)
        || (not (is_empty d.new_evidence)
            || (not (is_empty d.resolved_errors)
                || (not (is_empty d.criteria_satisfied)
                    || (not (is_empty d.new_external_state) || d.plan_revised)))))

unfoldable pub is_regressed : ProgressDelta → Bool
is_regressed d =
    not (is_empty d.removed_artifacts)
    || (not (is_empty d.criteria_regressed) || not (is_empty d.new_errors))

unfoldable pub reasons_of : ProgressDelta → List String
unfolding is_positive is_regressed
reasons_of d =
    reason_if (not (is_empty d.new_artifacts)) "required_or_observed_artifact_created"
    ++ (reason_if (not (is_empty d.changed_artifact_hashes)) "artifact_hash_changed"
        ++ (reason_if (not (is_empty d.new_evidence)) "new_independent_evidence"
            ++ (reason_if (not (is_empty d.resolved_errors)) "error_resolved"
                ++ (reason_if (not (is_empty d.criteria_satisfied)) "acceptance_criterion_verified"
                    ++ (reason_if (not (is_empty d.new_external_state)) "external_state_changed"
                        ++ (reason_if d.plan_revised "plan_validly_revised"
                            ++ (reason_if (not (is_positive d)) "no_durable_fact_changed"
                                ++ (reason_if d.repeated_action "action_repeated"
                                    ++ (reason_if d.repeated_result "result_repeated"
                                        ++ reason_if (is_regressed d) "state_regressed")))))))))

unfoldable pub compare : (String → String) → ProgressSnapshot → ProgressSnapshot → ProgressDelta
unfolding facts is_positive
compare sha256 before after =
    let d = facts before after in
    let summed = record d { semantic_progress = is_positive d; reasons = reasons_of d } in
    record summed { delta_hash = sha256 (dumps (payload summed)) }
