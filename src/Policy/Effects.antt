-- ===== src/Policy/Effects.antt =====
-- The test of the requested effect against the effective scope, domain by domain.
use kris_ai.Base.{
  String, ◌==◌, Bool, false, not, ◌&&◌, ◌||◌, Option, none, some, List, [], ◌∷◌, ◌++◌, elem,
  if◌then◌else◌,
}
use kris_ai.Base.Outcome.{Outcome, ok, raise, ◌>>=◌}
use kris_ai.Base.Dict.{Dict, lookup}
use kris_ai.Base.Json.{Json, str, arr, obj, Fields}
use kris_ai.Base.Json.Access.{get, get_at, is_true, is_text, py_str}
use kris_ai.Policy.Paths.{within_any}
use kris_ai.Policy.Sets.{destination_allowed}
use kris_ai.Policy.Scope.{Scope}

-- `if test: reasons.add(code)`
abbrev pub reason_if : Bool → String → List String
reason_if test code = if test then code ∷ [] else []

-- `target if isinstance(target, str) else ""`
abbrev pub text_or_empty : Json → String
text_or_empty (str s) = s
text_or_empty _ = ""

target_within : Json → List String → Outcome Bool
unfolding within_any
target_within (str target) prefixes = within_any target prefixes
target_within _ prefixes = ok false

unfoldable pub filesystem_reasons : Scope → Json → Json → Outcome (List String)
unfolding target_within get_at
filesystem_reasons scope action target = do
  granted ← get_at action scope.filesystem
  inside ← target_within target scope.path_prefixes
  ok (
      reason_if (not (is_true granted)) "filesystem_action_denied"
      ++ reason_if (not inside) "path_outside_effective_scope")

abbrev process_flags : Dict String
process_flags =
    ("finite_command", "finiteCommands")
    ∷ ("interactive_pty", "interactivePty")
    ∷ ("package", "packages")
    ∷ ("service", "services")
    ∷ []

-- `process.get("elevation") in {…}`; a value that cannot be hashed raises `TypeError`.
may_elevate : Json → Outcome Bool
unfolding elem
may_elevate (str mode) = ok (elem mode ("interactive_only" ∷ "preconfigured" ∷ []))
may_elevate (arr xs) = raise "TypeError: unhashable type"
may_elevate (obj fs) = raise "TypeError: unhashable type"
may_elevate _ = ok false

flag_reasons : Option String → Fields → List String
unfolding get
flag_reasons none process = "process_action_denied" ∷ []
flag_reasons (some flag) process =
    reason_if (not (is_true (get flag process))) "process_action_denied"

unfoldable pub process_reasons : Scope → Json → Outcome (List String)
unfolding may_elevate flag_reasons lookup py_str get
process_reasons scope action =
    let elevation = may_elevate (get "elevation" scope.process) >>= λ may.
    ok (reason_if (not may) "elevation_denied") in
    if is_text "elevation" action
    then elevation
    else ok (flag_reasons (lookup (py_str action) process_flags) scope.process)

unfoldable pub network_reasons : Scope → Fields → Json → Json → List String
unfolding destination_allowed get
network_reasons scope context action target =
    reason_if (not (destination_allowed (text_or_empty target) scope.network_destinations))
      "network_destination_denied"
    ++ (reason_if
          (is_true (get "privateNetwork" context)
            && not (is_true (get "privateAddresses" scope.network)))
          "private_network_denied"
        ++ reason_if (is_text "listen" action && not (is_true (get "listen" scope.network)))
            "network_listen_denied")

unfoldable pub browser_reasons : Scope → Fields → Json → List String
unfolding elem get
browser_reasons scope context target =
    reason_if
      (not (elem "*" scope.browser_profiles)
        && not (elem (text_or_empty target) scope.browser_profiles))
      "browser_profile_denied"
    ++ reason_if
        (is_true (get "authenticatedBrowser" context)
          && not (is_true (get "authenticatedProfiles" scope.browser)))
        "authenticated_browser_denied"

unfoldable pub secret_reasons : Scope → Fields → Json → List String
unfolding elem get
secret_reasons scope context target =
    reason_if
      (is_text "none" (get "mode" scope.credentials)
        || not (elem (text_or_empty target) scope.secret_lease_ids))
      "secret_lease_denied"
    ++ reason_if (is_true (get "rawReveal" context)) "raw_secret_reveal_denied"

unfoldable pub sandbox_reasons : String → Fields → List String
unfolding get
sandbox_reasons profile_id profile =
    reason_if (not (profile_id == "isolated_untrusted") || not (is_true (get "sandboxed" profile)))
      "sandbox_profile_required"

-- The chain on `effect.get("domain")`.
unfoldable pub effect_reasons : Scope → Fields → String → Fields → Fields → Outcome (List String)
unfolding filesystem_reasons process_reasons network_reasons browser_reasons secret_reasons
    sandbox_reasons get
effect_reasons scope context profile_id profile effect =
    let domain = get "domain" effect in
    let action = get "action" effect in
    let target = get "target" effect in
    if is_text "filesystem" domain
    then filesystem_reasons scope action target
    else if is_text "process" domain
    then process_reasons scope action
    else if is_text "network" domain
    then ok (network_reasons scope context action target)
    else if is_text "browser" domain
    then ok (browser_reasons scope context target)
    else if is_text "secret" domain
    then ok (secret_reasons scope context target)
    else if is_text "sandbox" domain
    then ok (sandbox_reasons profile_id profile)
    else ok ("unknown_effect_domain" ∷ [])
