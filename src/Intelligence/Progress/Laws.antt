-- ===== src/Intelligence/Progress/Laws.antt =====
-- What counts as progress between two snapshots.
use mathlib.Core.Path.{subst}
use kris_ai.Base.{is_empty-append, &&-true}
use kris_ai.Base.{
  String, ◌≡◌, ◌↔◌, ◌⊎◌, refl, sym, ap, ◌∙◌, inl, inr, true, false, not, ◌&&◌, ◌==◌, some, List, [],
  ◌∷◌, elem, sorted_set, difference, intersection, elem-sorted_set, elem-difference,
  elem-intersection, is_empty, eq_iff, arith, Bool-cases,
}
use kris_ai.Base.Dict.{Dict, keys, lookup}
use kris_ai.Intelligence.Progress.{
  ProgressSnapshot, added, change_at, changes, changed_hashes, revises, facts, compare,
}

-- A list is empty exactly when it has no element.
empty_elem : (xs : List String) → (is_empty xs ≡ true) ↔ ((x : String) → elem x xs ≡ false)
unfolding elem
empty_elem [] = (λ h x. refl, λ h. refl)
empty_elem (y ∷ ys) = (λ h. cc, λ h. absurd (ground (arith, h y, eq_iff y y)))

elem-added :
    (x : String) (xs ys : List String) → elem x (added xs ys) ≡ (elem x xs && not (elem x ys))
unfolding added
elem-added x xs ys = elem-sorted_set x (difference xs ys) ∙ elem-difference x xs ys

-- Nothing is added exactly when every element was there before.
pub added-empty :
    (xs ys : List String)
    → (is_empty (added xs ys) ≡ true) ↔ ((x : String) → elem x xs ≡ true → elem x ys ≡ true)
added-empty xs ys = (
  λ h x m. let e = (empty_elem (added xs ys)).0 h x in ground (arith, elem-added x xs ys),
  λ f. (empty_elem (added xs ys)).1 (λ x. ground (arith, elem-added x xs ys, f x)),
)

-- A key is one exactly when it can be looked up.
module _ {V : Type 0} (k : String) where
  elem-keys : (d : Dict V) (v : V) → lookup k d ≡ some v → elem k (keys d) ≡ true
  unfolding elem keys lookup
  elem-keys [] v e = cc
  elem-keys ((j, w) ∷ d) v e = ground (arith, eq_iff j k, eq_iff k j, elem-keys d v)

  lookup-keys : (d : Dict V) → elem k (keys d) ≡ true → (v : V) × (lookup k d ≡ some v)
  unfolding elem keys lookup
  lookup-keys [] m = cc
  lookup-keys ((j, w) ∷ d) m = elim (Bool-cases (j == k)) [
    | inl same ↦ (w, rw same)
    | inr other ↦ rw other (lookup-keys d (ground (arith, eq_iff j k, eq_iff k j)))
  ]

-- No entry of a list of paths changed.
changes-empty :
    (before after : Dict String) (paths : List String)
    → (is_empty (changes before after paths) ≡ true) ↔ (
        (k : String)
        → elem k paths ≡ true
        → is_empty (change_at k (lookup k before) (lookup k after)) ≡ true)
unfolding changes elem
changes-empty before after [] = (λ h k m. cc, λ f. refl)
changes-empty before after (p ∷ ps) =
    let here = change_at p (lookup p before) (lookup p after) in
    let rest = changes-empty before after ps in
    (
      λ h k m.
          let (x, y) = &&-true _ _ (sym (is_empty-append here (changes before after ps)) ∙ h) in
          elim (Bool-cases (k == p)) [
            | inl same ↦
                subst (λ j. is_empty (change_at j (lookup j before) (lookup j after)) ≡ true)
                  (sym ((eq_iff k p).0 same)) x
            | inr other ↦ rest.0 y k (ground arith)
          ],
      λ f.
          is_empty-append here (changes before after ps)
          ∙ rw (f p (ground (arith, eq_iff p p))) (rest.1 (λ k m. f k (ground arith))),
    )

change_at-empty : (k x y : String) → (is_empty (change_at k (some x) (some y)) ≡ true) ↔ (x ≡ y)
unfolding change_at
change_at-empty k x y = ground (arith, eq_iff x y)

-- The second snapshot has no durable fact that the first one lacks.
pub record NoNewFacts (before after : ProgressSnapshot) : Type 0 where
  pub artifacts :
      (k v : String) → lookup k after.artifacts ≡ some v → lookup k before.artifacts ≡ some v
  pub evidence : (x : String) → elem x after.evidence ≡ true → elem x before.evidence ≡ true
  pub errors : (x : String) → elem x before.active_errors ≡ true → elem x after.active_errors ≡ true
  pub criteria :
      (x : String)
      → elem x after.satisfied_criteria ≡ true
      → elem x before.satisfied_criteria ≡ true
  pub external :
      (x : String) → elem x after.external_state ≡ true → elem x before.external_state ≡ true
  pub plan :
      (after.plan_revision_hash ≡ "") ⊎ (after.plan_revision_hash ≡ before.plan_revision_hash)

module _ (before after : Dict String) where
  abbrev SameOrOld : Type 0
  SameOrOld = (k v : String) → lookup k after ≡ some v → lookup k before ≡ some v

  -- No new path and no changed hash, together.
  artifacts-SameOrOld :
      ((is_empty (added (keys after) (keys before)) ≡ true)
        × (is_empty (changed_hashes before after) ≡ true))
      ↔ SameOrOld
  unfolding changed_hashes
  artifacts-SameOrOld =
      let paths = sorted_set (intersection (keys before) (keys after)) in
      let member = λ (k : String).
        elem-sorted_set k (intersection (keys before) (keys after))
        ∙ elem-intersection k (keys before) (keys after) in
      (
        λ (none_new, none_changed) k v e.
            let key = elem-keys k after v e in
            let old = (added-empty (keys after) (keys before)).0 none_new k key in
            let (w, e') = lookup-keys k before old in
            let same =
              (changes-empty before after paths).0 none_changed k (ground (arith, member k)) in
            e' ∙ ap some ((change_at-empty k w v).0 (rw (e', e) at same)),
        λ f. (
          (added-empty (keys after) (keys before)).1
              (λ k m. let (v, e) = lookup-keys k after m in elem-keys k before v (f k v e)),
          (changes-empty before after paths).1 (λ k m.
              let key : elem k (keys after) ≡ true = ground (arith, member k) in
              let (v, e) = lookup-keys k after key in
              rw (f k v e, e) ((change_at-empty k v v).1 refl)),
        ),
      )

revises-same : (old new : String) → (revises old new ≡ false) ↔ ((new ≡ "") ⊎ (new ≡ old))
unfolding revises
revises-same old new = (
  λ h. ground (arith, eq_iff new "", eq_iff new old),
  λ s. ground (arith, eq_iff new "", eq_iff new old),
)

module _ (sha256 : String → String) (before after : ProgressSnapshot) where
  compare-NoNewFacts_of :
      (compare sha256 before after).semantic_progress ≡ false → NoNewFacts before after
  unfolding compare
  compare-NoNewFacts_of h =
      let d = facts before after in
      let a : is_empty d.new_artifacts ≡ true = ground arith in
      let c : is_empty d.changed_artifact_hashes ≡ true = ground arith in
      let e : is_empty d.new_evidence ≡ true = ground arith in
      let r : is_empty d.resolved_errors ≡ true = ground arith in
      let s : is_empty d.criteria_satisfied ≡ true = ground arith in
      let x : is_empty d.new_external_state ≡ true = ground arith in
      record {
        artifacts = (artifacts-SameOrOld before.artifacts after.artifacts).0 (a, c);
        evidence = (added-empty after.evidence before.evidence).0 e;
        errors = (added-empty before.active_errors after.active_errors).0 r;
        criteria = (added-empty after.satisfied_criteria before.satisfied_criteria).0 s;
        external = (added-empty after.external_state before.external_state).0 x;
        plan = (revises-same before.plan_revision_hash after.plan_revision_hash).0 (ground arith);
      }

  NoNewFacts-compare :
      NoNewFacts before after → (compare sha256 before after).semantic_progress ≡ false
  unfolding compare
  NoNewFacts-compare n =
      let (a, c) = (artifacts-SameOrOld before.artifacts after.artifacts).1 n.artifacts in
      let e = (added-empty after.evidence before.evidence).1 n.evidence in
      let r = (added-empty before.active_errors after.active_errors).1 n.errors in
      let s = (added-empty after.satisfied_criteria before.satisfied_criteria).1 n.criteria in
      let x = (added-empty after.external_state before.external_state).1 n.external in
      let p = (revises-same before.plan_revision_hash after.plan_revision_hash).1 n.plan in
      ground arith

  -- A step makes no semantic progress exactly when the later snapshot has no new or changed
  -- artifact, no new evidence, no resolved error, no newly met criterion, no new external state,
  -- and no new plan revision: the texts of the action and of its result play no part.
  pub compare-NoNewFacts :
      ((compare sha256 before after).semantic_progress ≡ false) ↔ NoNewFacts before after
  compare-NoNewFacts = (compare-NoNewFacts_of, NoNewFacts-compare)
