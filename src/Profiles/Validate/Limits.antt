-- ===== src/Profiles/Validate/Limits.antt =====
-- The limits of each kind of profile, which its check gives.
use kris_ai.Base.{not-true, ◌≡◌, Bool, true, false, not, ◌||◌, [], ◌∷◌, ||-false}
use kris_ai.Base.Outcome.{ok, refuse_if-eq-ok}
use kris_ai.Base.Json.{Fields}
use kris_ai.Base.Json.Access.{get, is_text, is_true, is_false, truthy}
use kris_ai.Profiles.Validate.{
  is_among, Sections, has_effect, check_project, check_owner, check_unattended, check_isolated,
}

neither : (a b : Bool) → (not a || not b) ≡ false → (a ≡ true) × (b ≡ true)
neither a b h = let (x, y) = ||-false (not a) (not b) h in (not-true a x, not-true b y)

-- The other fields of a chat profile, such as `process.packages` and `process.elevation`, are not
-- looked at.
pub record IsChat (s : Sections) : Type 0 where
  pub no_read : truthy (get "read" s.filesystem) ≡ false
  pub no_write : truthy (get "write" s.filesystem) ≡ false
  pub no_delete : truthy (get "delete" s.filesystem) ≡ false
  pub no_commands : truthy (get "finiteCommands" s.process) ≡ false
  pub no_terminal : truthy (get "interactivePty" s.process) ≡ false
  pub no_network : is_text "none" (get "scope" s.network) ≡ true
  pub no_browser : is_text "none" (get "scope" s.browser) ≡ true
  pub no_credentials : is_text "none" (get "mode" s.credentials) ≡ true

pub record IsProject (s : Sections) : Type 0 where
  pub scope : is_text "project" (get "scope" s.filesystem) ≡ true
  pub has_roots : truthy (get "roots" s.filesystem) ≡ true
  pub relative : is_false (get "absolutePaths" s.filesystem) ≡ true
  pub no_elevation : is_text "none" (get "elevation" s.process) ≡ true
  pub no_services : is_false (get "services" s.process) ≡ true

pub record IsOwner (profile : Fields) (s : Sections) : Type 0 where
  pub unboxed : is_false (get "sandboxed" profile) ≡ true
  pub scope : is_text "current_account" (get "scope" s.filesystem) ≡ true
  pub attended : is_true (get "interactive" profile) ≡ true
  pub never_alone : is_false (get "unattendedAllowed" profile) ≡ true
  pub reveal :
      is_among ("never" ∷ "interactive_break_glass" ∷ []) (get "rawReveal" s.credentials) ≡ true

pub record IsUnattended (profile : Fields) (s : Sections) : Type 0 where
  pub unboxed : is_false (get "sandboxed" profile) ≡ true
  pub scope : is_text "current_account" (get "scope" s.filesystem) ≡ true
  pub alone : is_false (get "interactive" profile) ≡ true
  pub allowed : is_true (get "unattendedAllowed" profile) ≡ true
  pub no_elevation : is_text "none" (get "elevation" s.process) ≡ true
  pub no_reveal : is_text "never" (get "rawReveal" s.credentials) ≡ true
  pub brokered : is_text "brokered_leases" (get "mode" s.credentials) ≡ true
  pub leased : is_true (get "unattendedUse" s.credentials) ≡ true

pub record IsIsolated (profile : Fields) (s : Sections) : Type 0 where
  pub sandboxed : is_true (get "sandboxed" profile) ≡ true
  pub scope : is_text "sandbox" (get "scope" s.filesystem) ≡ true
  pub relative : is_false (get "absolutePaths" s.filesystem) ≡ true
  pub processes : is_text "sandbox" (get "scope" s.process) ≡ true
  pub no_elevation : is_text "none" (get "elevation" s.process) ≡ true
  pub no_credentials : is_text "none" (get "mode" s.credentials) ≡ true
  pub no_reveal : is_text "never" (get "rawReveal" s.credentials) ≡ true
  pub no_private : is_false (get "privateAddresses" s.network) ≡ true
  pub no_listen : is_false (get "listen" s.network) ≡ true
  pub no_profiles : is_false (get "authenticatedProfiles" s.browser) ≡ true

pub has_effect-IsChat : (s : Sections) → has_effect s ≡ false → IsChat s
unfolding has_effect
has_effect-IsChat s h =
    let (a, h1) = ||-false (truthy (get "read" s.filesystem)) _ h in
    let (b, h2) = ||-false (truthy (get "write" s.filesystem)) _ h1 in
    let (c, h3) = ||-false (truthy (get "delete" s.filesystem)) _ h2 in
    let (d, h4) = ||-false (truthy (get "finiteCommands" s.process)) _ h3 in
    let (e, h5) = ||-false (truthy (get "interactivePty" s.process)) _ h4 in
    let (f, h6) = ||-false (not (is_text "none" (get "scope" s.network))) _ h5 in
    let (g, i) =
      ||-false (not (is_text "none" (get "scope" s.browser)))
        (not (is_text "none" (get "mode" s.credentials))) h6 in
    record {
      no_read = a;
      no_write = b;
      no_delete = c;
      no_commands = d;
      no_terminal = e;
      no_network = not-true (is_text "none" (get "scope" s.network)) f;
      no_browser = not-true (is_text "none" (get "scope" s.browser)) g;
      no_credentials = not-true (is_text "none" (get "mode" s.credentials)) i;
    }

pub check_project-IsProject :
    (s : Sections) (done : Unit {0}) → check_project s ≡ ok done → IsProject s
unfolding check_project
check_project-IsProject s done h0 =
    let (a, h1) =
      refuse_if-eq-ok
        (not (is_text "project" (get "scope" s.filesystem))
          || not (truthy (get "roots" s.filesystem)))
        _ _ h0 in
    let (b, h2) = refuse_if-eq-ok (not (is_false (get "absolutePaths" s.filesystem))) _ _ h1 in
    let (c, _) =
      refuse_if-eq-ok
        (not (is_text "none" (get "elevation" s.process))
          || not (is_false (get "services" s.process)))
        _ _ h2 in
    let (scope, roots) =
      neither (is_text "project" (get "scope" s.filesystem)) (truthy (get "roots" s.filesystem))
        a in
    let (elevation, services) =
      neither (is_text "none" (get "elevation" s.process)) (is_false (get "services" s.process))
        c in
    record {
      scope = scope;
      has_roots = roots;
      relative = not-true (is_false (get "absolutePaths" s.filesystem)) b;
      no_elevation = elevation;
      no_services = services;
    }

pub check_owner-IsOwner :
    (profile : Fields) (s : Sections) (done : Unit {0})
    → check_owner profile s ≡ ok done
    → IsOwner profile s
unfolding check_owner
check_owner-IsOwner profile s done h0 =
    let (a, h1) =
      refuse_if-eq-ok
        (not (is_false (get "sandboxed" profile))
          || not (is_text "current_account" (get "scope" s.filesystem)))
        _ _ h0 in
    let (b, h2) =
      refuse_if-eq-ok
        (not (is_true (get "interactive" profile))
          || not (is_false (get "unattendedAllowed" profile)))
        _ _ h1 in
    let (c, _) =
      refuse_if-eq-ok
        (not (is_among ("never" ∷ "interactive_break_glass" ∷ []) (get "rawReveal" s.credentials)))
        _ _ h2 in
    let (unboxed, scope) =
      neither (is_false (get "sandboxed" profile))
        (is_text "current_account" (get "scope" s.filesystem)) a in
    let (attended, alone) =
      neither (is_true (get "interactive" profile)) (is_false (get "unattendedAllowed" profile))
        b in
    record {
      unboxed = unboxed;
      scope = scope;
      attended = attended;
      never_alone = alone;
      reveal =
          not-true
            (is_among ("never" ∷ "interactive_break_glass" ∷ []) (get "rawReveal" s.credentials)) c;
    }

pub check_unattended-IsUnattended :
    (profile : Fields) (s : Sections) (done : Unit {0})
    → check_unattended profile s ≡ ok done
    → IsUnattended profile s
unfolding check_unattended
check_unattended-IsUnattended profile s done h0 =
    let (a, h1) =
      refuse_if-eq-ok
        (not (is_false (get "sandboxed" profile))
          || not (is_text "current_account" (get "scope" s.filesystem)))
        _ _ h0 in
    let (b, h2) =
      refuse_if-eq-ok
        (not (is_false (get "interactive" profile))
          || not (is_true (get "unattendedAllowed" profile)))
        _ _ h1 in
    let (c, h3) = refuse_if-eq-ok (not (is_text "none" (get "elevation" s.process))) _ _ h2 in
    let (d, h4) = refuse_if-eq-ok (not (is_text "never" (get "rawReveal" s.credentials))) _ _ h3 in
    let (e, _) =
      refuse_if-eq-ok
        (not (is_text "brokered_leases" (get "mode" s.credentials))
          || not (is_true (get "unattendedUse" s.credentials)))
        _ _ h4 in
    let (unboxed, scope) =
      neither (is_false (get "sandboxed" profile))
        (is_text "current_account" (get "scope" s.filesystem)) a in
    let (alone, allowed) =
      neither (is_false (get "interactive" profile)) (is_true (get "unattendedAllowed" profile))
        b in
    let (brokered, leased) =
      neither (is_text "brokered_leases" (get "mode" s.credentials))
        (is_true (get "unattendedUse" s.credentials)) e in
    record {
      unboxed = unboxed;
      scope = scope;
      alone = alone;
      allowed = allowed;
      no_elevation = not-true (is_text "none" (get "elevation" s.process)) c;
      no_reveal = not-true (is_text "never" (get "rawReveal" s.credentials)) d;
      brokered = brokered;
      leased = leased;
    }

pub check_isolated-IsIsolated :
    (profile : Fields) (s : Sections) (done : Unit {0})
    → check_isolated profile s ≡ ok done
    → IsIsolated profile s
unfolding check_isolated
check_isolated-IsIsolated profile s done h0 =
    let (a, h1) = refuse_if-eq-ok (not (is_true (get "sandboxed" profile))) _ _ h0 in
    let (b, h2) =
      refuse_if-eq-ok
        (not (is_text "sandbox" (get "scope" s.filesystem))
          || not (is_false (get "absolutePaths" s.filesystem)))
        _ _ h1 in
    let (c, h3) =
      refuse_if-eq-ok
        (not (is_text "sandbox" (get "scope" s.process))
          || not (is_text "none" (get "elevation" s.process)))
        _ _ h2 in
    let (d, h4) =
      refuse_if-eq-ok
        (not (is_text "none" (get "mode" s.credentials))
          || not (is_text "never" (get "rawReveal" s.credentials)))
        _ _ h3 in
    let (e, h5) =
      refuse_if-eq-ok
        (not (is_false (get "privateAddresses" s.network))
          || not (is_false (get "listen" s.network)))
        _ _ h4 in
    let (f, _) = refuse_if-eq-ok (not (is_false (get "authenticatedProfiles" s.browser))) _ _ h5 in
    let (scope, relative) =
      neither (is_text "sandbox" (get "scope" s.filesystem))
        (is_false (get "absolutePaths" s.filesystem)) b in
    let (processes, elevation) =
      neither (is_text "sandbox" (get "scope" s.process))
        (is_text "none" (get "elevation" s.process)) c in
    let (mode, reveal) =
      neither (is_text "none" (get "mode" s.credentials))
        (is_text "never" (get "rawReveal" s.credentials)) d in
    let (private, listen) =
      neither (is_false (get "privateAddresses" s.network)) (is_false (get "listen" s.network)) e in
    record {
      sandboxed = not-true (is_true (get "sandboxed" profile)) a;
      scope = scope;
      relative = relative;
      processes = processes;
      no_elevation = elevation;
      no_credentials = mode;
      no_reveal = reveal;
      no_private = private;
      no_listen = listen;
      no_profiles = not-true (is_false (get "authenticatedProfiles" s.browser)) f;
    }
