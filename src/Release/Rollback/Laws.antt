-- ===== src/Release/Rollback/Laws.antt =====
-- What a plan of a rollback goes back to.
use mathlib.Core.Path.{subst}
use kris_ai.Base.{
  String, ◌≡◌, ◌≢◌, sym, ap, ◌∙◌, ◌==◌, Bool, true, false, List, [], ◌∷◌, inl, inr, elem,
  Bool-cases, eq_iff, eq_refl, arith,
}
use kris_ai.Base.Outcome.{Outcome, ok, >>=-elim, ok-injective}
use kris_ai.Base.Json.Access.{traverse}
use kris_ai.Release.Version.{Version, parse_version, at_least, version_ge}
use kris_ai.Release.Version.Laws.{at_least_total}
use kris_ai.Release.Update.{SupportLifecyclePolicy, allows_rollback_to}
use kris_ai.Release.Rollback.{
  RollbackPlan, eligible, ineligible, is_candidate, candidates, keyed, newest_first, target_of,
  plan_of, plan_rollback,
}
use kris_ai.Release.Rollback.Sorting.{
  has_version, newest_first-has, AllBelow, Descending, AllKeyed, Descending-newest_first,
  AllKeyed-newest_first, traverse-keyed,
}
use kris_ai.Release.Rollback.Candidates.{IsCandidate, candidates-elem, elem-candidates}

eligible-injective : (a b : String) (s t : Bool) → eligible a s ≡ eligible b t → (a ≡ b) × (s ≡ t)
eligible-injective a b s t h = (cc, cc)

no_plan :
    (t : String) (rest : List String) (target : String) (supported : Bool) {A : Type 0}
    → ◌≡◌ {A = Outcome RollbackPlan}
        (ok (ineligible "current_version_only"))
        (ok (eligible target supported))
    → A
no_plan t rest target supported h = cc

module _ (current : String) (lifecycle : SupportLifecyclePolicy) where
  -- The version to go back to.
  pub record IsTarget (installed : List String) (target : String) : Type 0 where
    pub listed : elem target installed ≡ true
    pub candidate : IsCandidate current lifecycle target
    pub other : target ≢ current
    pub newest :
        (v : String) (k l : Version)
        → elem v installed ≡ true
        → IsCandidate current lifecycle v
        → v ≢ current
        → parse_version target ≡ ok k
        → parse_version v ≡ ok l
        → at_least k l ≡ true

  below-newest :
      (k l : Version) (v : String) (xs : List (Version × String))
      → AllBelow k xs
      → AllKeyed xs
      → has_version v xs ≡ true
      → parse_version v ≡ ok l
      → at_least k l ≡ true
  unfolding AllBelow AllKeyed has_version
  below-newest k l v [] b a h e = cc
  below-newest k l v ((m, w) ∷ xs) (c, b) (p, a) h e = elim (Bool-cases (v == w)) [
    | inl t ↦
        let same = ok-injective m l (sym p ∙ (ap parse_version (sym ((eq_iff v w).0 t)) ∙ e)) in
        subst (λ x. at_least k x ≡ true) same c
    | inr f ↦ below-newest k l v xs b a (ground arith) e
  ]

  -- What the choice among sorted keys is.
  record IsNewest (ks : List (Version × String)) (target : String) : Type 0 where
    has : has_version target ks ≡ true
    newest :
        (v : String) (k l : Version)
        → has_version v ks ≡ true
        → v ≢ current
        → parse_version target ≡ ok k
        → parse_version v ≡ ok l
        → at_least k l ≡ true

  at_least_self : (k : Version) → at_least k k ≡ true
  at_least_self k = ground (arith, at_least_total k k)

  head-newest :
      (k : Version) (x : String) (xs : List (Version × String)) (v : String) (m l : Version)
      → AllBelow k xs
      → parse_version x ≡ ok k
      → AllKeyed xs
      → has_version v ((k, x) ∷ xs) ≡ true
      → parse_version x ≡ ok m
      → parse_version v ≡ ok l
      → at_least m l ≡ true
  unfolding AllBelow AllKeyed
  head-newest k x xs v m l b p a h e f =
      subst (λ n. at_least n l ≡ true) (ok-injective k m (sym p ∙ e))
        (below-newest k l v ((k, x) ∷ xs) (at_least_self k, b) (p, a) h f)

  first-eq : (x y : String) (xs ys : List String) → ◌≡◌ {A = List String} (x ∷ xs) (y ∷ ys) → x ≡ y
  first-eq x y xs ys h = cc

  head-IsNewest :
      (k : Version) (x : String) (xs : List (Version × String)) (target : String)
      → AllBelow k xs
      → parse_version x ≡ ok k
      → AllKeyed xs
      → x ≡ target
      → IsNewest ((k, x) ∷ xs) target
  unfolding has_version
  head-IsNewest k x xs target b p a same = subst (IsNewest ((k, x) ∷ xs)) same (record {
    has = ground (arith, eq_refl x);
    newest = λ v m l h n e f. head-newest k x xs v m l b p a h e f;
  })

  tail-IsNewest :
      (k : Version) (x : String) (xs : List (Version × String)) (target : String)
      → x ≡ current
      → IsNewest xs target
      → IsNewest ((k, x) ∷ xs) target
  unfolding has_version
  tail-IsNewest k x xs target old i = record {
    has = ground (arith, i.has);
    newest = λ v m l h n e f. i.newest v m l (ground (arith, not_current v x n old)) n e f;
  }
    where
      not_current : (v x : String) → v ≢ current → x ≡ current → (v == x) ≡ false
      not_current v x n old = ground (arith, eq_iff v x)

  target_of-IsNewest :
      (ks : List (Version × String)) (target : String) (rest : List String)
      → Descending ks
      → AllKeyed ks
      → target_of current ks ≡ (target ∷ rest)
      → target ≢ current
      → IsNewest ks target
  unfolding target_of Descending AllKeyed
  target_of-IsNewest [] target rest d a h n = cc
  target_of-IsNewest ((k, x) ∷ []) target rest (b, d) (p, a) h n =
      head-IsNewest k x [] target b p a (first-eq x target [] rest h)
  target_of-IsNewest ((k, x) ∷ (l, y) ∷ ks) target rest (b, (c, d)) (p, (q, a)) h n =
      elim (Bool-cases (x == current)) [
        | inl t ↦
            tail-IsNewest k x ((l, y) ∷ ks) target ((eq_iff x current).0 t)
              (head-IsNewest l y ks target c q a (first-eq y target [] rest (rw t at h)))
        | inr f ↦
            head-IsNewest k x ((l, y) ∷ ks) target b p (q, a)
              (first-eq x target [] rest (rw f at h))
      ]

  supported_candidate :
      (v : String) → IsCandidate current lifecycle v → allows_rollback_to lifecycle v ≡ ok true
  unfolding is_candidate
  supported_candidate v h0 = >>=-elim (version_ge current v) _ h0 (λ old e h.
      elim (Bool-cases old) [ inl t ↦ rw t at h | inr f ↦ false_candidate v (rw f at h) ])
    where
      false_candidate :
          (v : String)
          → ◌≡◌ {A = Outcome Bool} (ok false) (ok true)
          → allows_rollback_to lifecycle v ≡ ok true
      false_candidate v h = cc

  plan_of-eligible :
      (targets : List String) (target : String) (supported : Bool)
      → plan_of current lifecycle targets ≡ ok (eligible target supported)
      → (rest : List String) × (targets ≡ (target ∷ rest))
        × (target ≢ current)
        × (allows_rollback_to lifecycle target ≡ ok supported)
  unfolding plan_of
  plan_of-eligible [] target supported h = cc
  plan_of-eligible (t ∷ rest) target supported h = elim (Bool-cases (t == current)) [
    | inl same ↦ no_plan t rest target supported (rw same at h)
    | inr f ↦ >>=-elim (allows_rollback_to lifecycle t) _ (rw f at h) (λ s e h2.
        let (t_eq, s_eq) = eligible-injective t target s supported (ok-injective _ _ h2) in
        (
          rest,
          ap (λ x. x ∷ rest) t_eq,
          λ c. ground (arith, eq_iff t current, t_eq, c),
          subst (λ x. allows_rollback_to lifecycle x ≡ ok supported) t_eq (e ∙ ap ok s_eq),
        ))
  ]

  -- A plan that is eligible goes back to an installed version other than the current one: it is no
  -- newer than the current version, lies within what the lifecycle supports, as the plan says, and
  -- no other installed version of which the same holds is newer.
  pub plan_rollback-IsTarget :
      (installed : List String) (target : String) (supported : Bool)
      → plan_rollback current installed lifecycle ≡ ok (eligible target supported)
      → (supported ≡ true) × IsTarget installed target
  unfolding plan_rollback
  plan_rollback-IsTarget installed target supported h0 =
      >>=-elim (candidates current lifecycle installed) _ h0 (λ found e1 h1.
        >>=-elim (traverse keyed found) _ h1 (λ keys e2 h2.
          let (keyed_all, has) = traverse-keyed found keys e2 in
          let (rest, is_target, other, allowed) =
            plan_of-eligible (target_of current (newest_first keys)) target supported h2 in
          let best =
            target_of-IsNewest (newest_first keys) target rest (Descending-newest_first keys)
              (AllKeyed-newest_first keys keyed_all) is_target other in
          let in_found = λ (v : String). newest_first-has v keys ∙ has v in
          let (listed, candidate) =
            candidates-elem current lifecycle installed found target e1
              (sym (in_found target) ∙ best.has) in
          (
            ok-injective supported true (sym allowed ∙ supported_candidate target candidate),
            record {
              listed = listed;
              candidate = candidate;
              other = other;
              newest = λ v k l m c n p q.
                  best.newest v k l
                    (in_found v ∙ elem-candidates current lifecycle installed found v e1 m c) n p q;
            },
          )))
