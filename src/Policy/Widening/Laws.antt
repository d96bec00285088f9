-- ===== src/Policy/Widening/Laws.antt =====
-- What an approved widening can take back.
use mathlib.Core.Path.{subst}
use kris_ai.Base.{
  String, ◌≡◌, refl, ap, ◌∙◌, Bool, true, false, inl, inr, Bool-cases, Option, none, some, List, [],
  ◌∷◌, ◌++◌, elem, elem-append, elem-sorted_set, arith, eq_iff,
}
use kris_ai.Base.Outcome.{Outcome, ok, >>=-elim, ok-injective}
use kris_ai.Base.Json.{Fields}
use kris_ai.Base.Json.Access.{get}
use kris_ai.Policy.Scope.{Scope}
use kris_ai.Policy.Values.{text_list}
use kris_ai.Policy.Sets.Laws.{covers}
use kris_ai.Policy.Approval.{valid_approval}
use kris_ai.Policy.Widening.{
  admit_path, admit_host, admit_browser, admit_lease, restored, restore, restore_all, widen_if,
  widen, widening_requested,
}

-- Everything that a restoring function admits is allowed by the ceiling.
abbrev Admits : List String → (String → Outcome (Option String)) → Type 0
Admits ceiling admit = (x y : String) → admit x ≡ ok (some y) → covers ceiling y ≡ true

admit_lease-Admits : (ceiling : List String) → Admits ceiling (admit_lease ceiling)
unfolding admit_lease
admit_lease-Admits ceiling x y h = let given = ok-injective _ (some y) h in ground (arith, given)

admit_browser-Admits : (ceiling : List String) → Admits ceiling (admit_browser ceiling)
unfolding admit_browser
admit_browser-Admits ceiling x y h =
    let given = ok-injective _ (some y) h in ground (arith, given, eq_iff x y)

module _ (ceiling : List String) where
  -- The list allows nothing beyond the ceiling.
  abbrev pub Within : List String → Type 0
  Within names = (z : String) → covers names z ≡ true → covers ceiling z ≡ true

  restored-Within :
      (found : Option String) (current reasons : List String)
      → ((y : String) → found ≡ some y → covers ceiling y ≡ true)
      → Within current
      → Within (restored found (current, reasons)).0
  unfolding elem
  restored-Within none current reasons a w z e = w z e
  restored-Within (some y) current reasons a w z e = ground (
    arith,
    elem-sorted_set z (current ++ (y ∷ [])),
    elem-sorted_set "*" (current ++ (y ∷ [])),
    elem-append z current (y ∷ []),
    elem-append "*" current (y ∷ []),
    eq_iff z y,
    eq_iff "*" y,
    a y refl,
    w z,
    w "*",
  )

  restore-Within :
      (admit : String → Outcome (Option String)) (entries current reasons final codes : List String)
      → Admits ceiling admit
      → Within current
      → restore admit entries (current, reasons) ≡ ok (final, codes)
      → Within final
  unfolding restore
  restore-Within admit [] current reasons final codes a w h =
      subst (λ s. Within s.0) (ok-injective (current, reasons) (final, codes) h) w
  restore-Within admit (x ∷ xs) current reasons final codes a w h =
      >>=-elim (admit x) (λ found. restore admit xs (restored found (current, reasons))) h
        (λ found e rest.
          restore-Within admit xs (restored found (current, reasons)).0
            (restored found (current, reasons)).1 final codes a
            (restored-Within found current reasons (λ y q. a x y (e ∙ ap ok q)) w) rest)

-- The browser profiles and the secret leases of a scope stay within those of the profile.
pub record IsCeiled (base scope : Scope) : Type 0 where
  pub browsers : Within base.browser_profiles scope.browser_profiles
  pub leases : Within base.secret_lease_ids scope.secret_lease_ids

module _ (base scope wider : Scope) (widening : Fields) (reasons : List String) where
  restore_all-IsCeiled :
      restore_all base scope widening ≡ ok (wider, reasons)
      → IsCeiled base scope
      → IsCeiled base wider
  unfolding restore_all
  restore_all-IsCeiled h0 c =
      >>=-elim (text_list (get "restorePaths" widening) "explicitWidening.restorePaths") _ h0
        (λ paths _ h1.
          >>=-elim (restore (admit_path base.path_prefixes) paths (scope.path_prefixes, [])) _ h1
            (λ paths_done _ h2.
              >>=-elim
                (text_list (get "restoreNetworkDestinations" widening)
                  "explicitWidening.restoreNetworkDestinations")
                _ h2
                (λ hosts _ h3.
                  >>=-elim
                    (restore (admit_host base.network_destinations) hosts
                      (scope.network_destinations, []))
                    _ h3
                    (λ hosts_done _ h4.
                      >>=-elim
                        (text_list (get "restoreBrowserProfiles" widening)
                          "explicitWidening.restoreBrowserProfiles")
                        _ h4
                        (λ browsers _ h5.
                          >>=-elim
                            (restore (admit_browser base.browser_profiles) browsers
                              (scope.browser_profiles, []))
                            _ h5
                            (λ browsers_done eb h6.
                              >>=-elim
                                (text_list (get "restoreSecretLeaseIds" widening)
                                  "explicitWidening.restoreSecretLeaseIds")
                                _ h6
                                (λ leases _ h7.
                                  >>=-elim
                                    (restore (admit_lease base.secret_lease_ids) leases
                                      (scope.secret_lease_ids, []))
                                    _ h7
                                    (λ leases_done el h8.
                                      subst (λ r. IsCeiled base r.0)
                                        (ok-injective _ (wider, reasons) h8)
                                        (record {
                                          browsers =
                                              restore-Within base.browser_profiles
                                                (admit_browser base.browser_profiles) browsers
                                                scope.browser_profiles [] browsers_done.0
                                                browsers_done.1
                                                (admit_browser-Admits base.browser_profiles)
                                                c.browsers eb;
                                          leases =
                                              restore-Within base.secret_lease_ids
                                                (admit_lease base.secret_lease_ids) leases
                                                scope.secret_lease_ids [] leases_done.0
                                                leases_done.1
                                                (admit_lease-Admits base.secret_lease_ids) c.leases
                                                el;
                                        })))))))))

  widen_if-IsCeiled :
      (approved : Bool)
      → widen_if approved base scope widening ≡ ok (wider, reasons)
      → IsCeiled base scope
      → IsCeiled base wider
  unfolding widen_if
  widen_if-IsCeiled false h c = subst (λ r. IsCeiled base r.0) (ok-injective _ (wider, reasons) h) c
  widen_if-IsCeiled true h c = restore_all-IsCeiled h c

-- A widening, approved or not, leaves the browser profiles and the secret leases within the
-- ceiling that the access profile sets.
pub widen-IsCeiled :
    (base scope wider : Scope) (widening : Fields) (reasons : List String)
    → widen base scope widening ≡ ok (wider, reasons)
    → IsCeiled base scope
    → IsCeiled base wider
unfolding widen
widen-IsCeiled base scope wider widening reasons h c =
    elim (Bool-cases (widening_requested widening)) [
      | inl t ↦ >>=-elim (valid_approval widening) _ (rw t at h) (λ judged _ h1.
          >>=-elim (widen_if judged.0 base scope widening) _ h1 (λ w e h2.
            subst (λ r. IsCeiled base r.0) (ok-injective _ (wider, reasons) h2)
              (widen_if-IsCeiled base scope w.0 widening w.1 judged.0 e c)))
      | inr f ↦
          subst (λ r. IsCeiled base r.0) (ok-injective (scope, []) (wider, reasons) (rw f at h)) c
    ]
