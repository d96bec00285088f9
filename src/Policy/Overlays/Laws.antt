-- ===== src/Policy/Overlays/Laws.antt =====
-- What the overlays of a request can do to the scope, the budgets and the approval policy.
use kris_ai.Base.{
  String, ◌≡◌, sym, Bool, true, ◌||◌, some, List, [], ◌∷◌, ◌++◌, elem-append, arith, map, lower,
}
use mathlib.Core.Path.{subst}
use kris_ai.Base.Outcome.{ok, ◌>>=◌, >>=-eq-ok, >>=-elim, ok-injective}
use kris_ai.Base.Dict.{lookup}
use kris_ai.Base.Json.{Json, null, bool, int, real, str, arr, obj, Fields}
use kris_ai.Base.Json.Access.{get, is_true, py_str, or_empty}
use kris_ai.Policy.Values.{text_list, mapping}
use kris_ai.Policy.Sets.{narrow, approval_rank}
use kris_ai.Policy.Sets.Laws.{covers, covers-narrow}
use kris_ai.Policy.Overlays.Caps.{
  Capped, Kept, Stricter, ≤ℤ_refl, Capped-trans, cap_budgets-Capped, cap_budgets-Kept,
  approval_policy_stricter-Stricter,
}
use kris_ai.Policy.Overlays.{
  Keyed, Overlaid, narrow_by, narrow_paths, stricter_by, apply_overlay, apply_overlays,
}

narrow_by_lem :
    (prepare : List String → List String) (value : Json) (label : String)
    (current next : List String) (z : String)
    → (text_list value label >>= λ constraint. ok (narrow current (prepare constraint))) ≡ ok next
    → covers next z ≡ true
    → covers current z ≡ true
narrow_by_lem prepare value label current next z h e =
    let (constraint, hc, hn) = >>=-eq-ok (text_list value label) _ h in
    ground (
      arith,
      covers-narrow z current (prepare constraint),
      ok-injective (narrow current (prepare constraint)) next hn,
    )

pub covers-narrow_by :
    (prepare : List String → List String) (value : Json) (label : String)
    (current next : List String) (z : String)
    → narrow_by prepare value label current ≡ ok next
    → covers next z ≡ true
    → covers current z ≡ true
unfolding narrow_by
covers-narrow_by prepare null label current next z h e =
    subst (λ xs. covers xs z ≡ true) (sym (ok-injective current next h)) e
covers-narrow_by prepare (bool b) label current next z h e =
    narrow_by_lem prepare (bool b) label current next z h e
covers-narrow_by prepare (int b) label current next z h e =
    narrow_by_lem prepare (int b) label current next z h e
covers-narrow_by prepare (real b) label current next z h e =
    narrow_by_lem prepare (real b) label current next z h e
covers-narrow_by prepare (str b) label current next z h e =
    narrow_by_lem prepare (str b) label current next z h e
covers-narrow_by prepare (arr b) label current next z h e =
    narrow_by_lem prepare (arr b) label current next z h e
covers-narrow_by prepare (obj b) label current next z h e =
    narrow_by_lem prepare (obj b) label current next z h e

-- What follows an overlay is narrower than what came before it.
pub record IsNarrower (before after : Overlaid) : Type 0 where
  pub hosts :
      (z : String)
      → covers after.scope.network_destinations z ≡ true
      → covers before.scope.network_destinations z ≡ true
  pub browsers :
      (z : String)
      → covers after.scope.browser_profiles z ≡ true
      → covers before.scope.browser_profiles z ≡ true
  pub leases :
      (z : String)
      → covers after.scope.secret_lease_ids z ≡ true
      → covers before.scope.secret_lease_ids z ≡ true
  pub budgets : Capped before.budgets after.budgets
  pub policy : Stricter before.approval_policy after.approval_policy
  pub capabilities : Kept before.denied_capabilities after.denied_capabilities
  pub tools : Kept before.denied_tools after.denied_tools
  pub force : before.force_deny ≡ true → after.force_deny ≡ true
  pub reasons : Kept before.reasons after.reasons

stricter_by-Stricter :
    (value : Json) (before after : String)
    → stricter_by value before ≡ ok after
    → Stricter before after
unfolding stricter_by
stricter_by-Stricter null before after h a e =
    (a, subst (λ p. lookup p approval_rank ≡ some a) (ok-injective before after h) e, omega arith)
stricter_by-Stricter (bool v) before after h a e =
    approval_policy_stricter-Stricter before (py_str (bool v)) after h a e
stricter_by-Stricter (int v) before after h a e =
    approval_policy_stricter-Stricter before (py_str (int v)) after h a e
stricter_by-Stricter (real v) before after h a e =
    approval_policy_stricter-Stricter before (py_str (real v)) after h a e
stricter_by-Stricter (str v) before after h a e =
    approval_policy_stricter-Stricter before (py_str (str v)) after h a e
stricter_by-Stricter (arr v) before after h a e =
    approval_policy_stricter-Stricter before (py_str (arr v)) after h a e
stricter_by-Stricter (obj v) before after h a e =
    approval_policy_stricter-Stricter before (py_str (obj v)) after h a e

Kept-append : (xs ys : List String) → Kept xs (xs ++ ys)
Kept-append xs ys z e = ground (arith, elem-append z xs ys)

||-left : (a b : Bool) → a ≡ true → (a || b) ≡ true
||-left a b e = ground arith

-- An overlay that is applied narrows the scope, and only adds reasons and denials.
pub apply_overlay-IsNarrower :
    (s next : Overlaid) (overlay : Fields) → apply_overlay s overlay ≡ ok next → IsNarrower s next
unfolding apply_overlay
apply_overlay-IsNarrower s next overlay h0 =
    >>=-elim (text_list (get "denyCapabilities" overlay) "overlay.denyCapabilities") _ h0
      (λ capabilities _ h1.
        >>=-elim (text_list (get "denyTools" overlay) "overlay.denyTools") _ h1 (λ tools _ h2.
          >>=-elim (narrow_paths (get "pathPrefixes" overlay) s.scope.path_prefixes) _ h2
            (λ paths _ h3.
              >>=-elim
                (narrow_by (map lower) (get "networkDestinations" overlay)
                  "overlay.networkDestinations" s.scope.network_destinations)
                _ h3
                (λ hosts eh h4.
                  >>=-elim
                    (narrow_by (λ xs. xs) (get "browserProfiles" overlay) "overlay.browserProfiles"
                      s.scope.browser_profiles)
                    _ h4
                    (λ browsers eb h5.
                      >>=-elim
                        (narrow_by (λ xs. xs) (get "secretLeaseIds" overlay)
                          "overlay.secretLeaseIds" s.scope.secret_lease_ids)
                        _ h5
                        (λ leases el h6.
                          >>=-elim
                            (mapping (or_empty (get "maxBudgets" overlay)) "overlay.maxBudgets") _
                            h6
                            (λ limits _ h7.
                              >>=-elim
                                (stricter_by (get "approvalPolicy" overlay) s.approval_policy) _ h7
                                (λ policy ep h.
                                  subst (IsNarrower s) (ok-injective _ next h) (record {
                                    hosts = λ z.
                                        covers-narrow_by (map lower)
                                          (get "networkDestinations" overlay)
                                          "overlay.networkDestinations" s.scope.network_destinations
                                          hosts z eh;
                                    browsers = λ z.
                                        covers-narrow_by (λ xs. xs) (get "browserProfiles" overlay)
                                          "overlay.browserProfiles" s.scope.browser_profiles
                                          browsers z eb;
                                    leases = λ z.
                                        covers-narrow_by (λ xs. xs) (get "secretLeaseIds" overlay)
                                          "overlay.secretLeaseIds" s.scope.secret_lease_ids leases z
                                          el;
                                    budgets = cap_budgets-Capped limits s.budgets s.reasons;
                                    policy =
                                        stricter_by-Stricter (get "approvalPolicy" overlay)
                                          s.approval_policy policy ep;
                                    capabilities = Kept-append s.denied_capabilities capabilities;
                                    tools = Kept-append s.denied_tools tools;
                                    force =
                                        ||-left s.force_deny (is_true (get "forceDeny" overlay));
                                    reasons = cap_budgets-Kept limits s.budgets s.reasons;
                                  })))))))))

IsNarrower-refl : (s : Overlaid) → IsNarrower s s
IsNarrower-refl s = record {
  hosts = λ z e. e;
  browsers = λ z e. e;
  leases = λ z e. e;
  budgets = λ name v e. (v, e, ≤ℤ_refl v);
  policy = λ a e. (a, e, omega arith);
  capabilities = λ z e. e;
  tools = λ z e. e;
  force = λ e. e;
  reasons = λ z e. e;
}

IsNarrower_trans : (a b c : Overlaid) → IsNarrower a b → IsNarrower b c → IsNarrower a c
IsNarrower_trans a b c p q = record {
  hosts = λ z e. p.hosts z (q.hosts z e);
  browsers = λ z e. p.browsers z (q.browsers z e);
  leases = λ z e. p.leases z (q.leases z e);
  budgets = Capped-trans a.budgets b.budgets c.budgets p.budgets q.budgets;
  policy = λ n e.
      let (m, em, le) = p.policy n e in let (k, ek, le') = q.policy m em in (k, ek, omega arith);
  capabilities = λ z e. q.capabilities z (p.capabilities z e);
  tools = λ z e. q.tools z (p.tools z e);
  force = λ e. q.force (p.force e);
  reasons = λ z e. q.reasons z (p.reasons z e);
}

-- However many overlays are applied, and in whatever order: the hosts, browser profiles and secret
-- leases that the scope allows and the budgets become no wider, the approval policy no less
-- strict, a denied capability or tool stays denied, and no reason is lost.
pub apply_overlays-IsNarrower :
    (s final : Overlaid) (overlays : List (Keyed Fields))
    → apply_overlays s overlays ≡ ok final
    → IsNarrower s final
unfolding apply_overlays
apply_overlays-IsNarrower s final [] h =
    subst (IsNarrower s) (ok-injective s final h) (IsNarrower-refl s)
apply_overlays-IsNarrower s final (k ∷ ks) h =
    >>=-elim (apply_overlay s k.overlay) (λ next. apply_overlays next ks) h
      (λ next e rest.
        IsNarrower_trans s next final (apply_overlay-IsNarrower s next k.overlay e)
          (apply_overlays-IsNarrower next final ks rest))
