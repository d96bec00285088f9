-- ===== src/Policy/Widening.antt =====
-- `explicitWidening`: entries that an approval takes back into the scope, within the profile's ceiling.
pub mod Laws
use kris_ai.Base.{
  String, Bool, true, false, ◌||◌, Option, none, some, List, [], ◌∷◌, ◌++◌, elem, lower, sorted_set,
  if◌then◌else◌,
}
use kris_ai.Base.Outcome.{Outcome, ok, raise, ◌>>=◌}
use kris_ai.Base.Json.{Json, Fields}
use kris_ai.Base.Json.Access.{get, truthy}
use kris_ai.Policy.Values.{text_list}
use kris_ai.Policy.Paths.{normalize_path, within_any}
use kris_ai.Policy.Sets.{destination_allowed}
use kris_ai.Policy.Scope.{Scope}
use kris_ai.Policy.Approval.{valid_approval}
use kris_ai.Policy.Effects.{reason_if}

-- What is put into the scope for an entry, if the ceiling has it.
unfoldable pub admit_path : List String → String → Outcome (Option String)
unfolding normalize_path within_any
admit_path ceiling path = do
  normal ← normalize_path path
  inside ← within_any normal ceiling
  ok (if inside then some normal else none)

unfoldable pub admit_host : List String → String → Outcome (Option String)
unfolding destination_allowed lower
admit_host ceiling host = ok (if destination_allowed host ceiling then some (lower host) else none)

unfoldable pub admit_browser : List String → String → Outcome (Option String)
unfolding elem
admit_browser ceiling name = ok (if elem "*" ceiling || elem name ceiling then some name else none)

unfoldable pub admit_lease : List String → String → Outcome (Option String)
unfolding elem
admit_lease ceiling lease = ok (if elem lease ceiling then some lease else none)

-- The list of the scope and the reasons after one entry.
abbrev pub restored : Option String → List String × List String → List String × List String
restored (some value) (current, reasons) = (sorted_set (current ++ (value ∷ [])), reasons)
restored none (current, reasons) = (current, "widening_exceeds_profile_ceiling" ∷ reasons)

unfoldable pub restore :
    (String → Outcome (Option String))
    → List String
    → List String × List String
    → Outcome (List String × List String)
unfolding sorted_set
restore admit [] state = ok state
restore admit (entry ∷ entries) state =
    admit entry >>= λ found. restore admit entries (restored found state)

unfoldable pub widening_requested : Fields → Bool
unfolding truthy get
widening_requested widening =
    truthy (get "restorePaths" widening)
    || (truthy (get "restoreNetworkDestinations" widening)
        || (truthy (get "restoreBrowserProfiles" widening)
            || truthy (get "restoreSecretLeaseIds" widening)))

-- The scope and the reasons with all entries restored.
unfoldable pub restore_all : Scope → Scope → Fields → Outcome (Scope × List String)
unfolding text_list restore admit_path admit_host admit_browser admit_lease get
restore_all base scope widening = do
  paths ← text_list (get "restorePaths" widening) "explicitWidening.restorePaths"
  paths_done ← restore (admit_path base.path_prefixes) paths (scope.path_prefixes, [])
  hosts ←
      text_list (get "restoreNetworkDestinations" widening)
        "explicitWidening.restoreNetworkDestinations"
  hosts_done ← restore (admit_host base.network_destinations) hosts (scope.network_destinations, [])
  browsers ←
      text_list (get "restoreBrowserProfiles" widening) "explicitWidening.restoreBrowserProfiles"
  browsers_done ←
      restore (admit_browser base.browser_profiles) browsers (scope.browser_profiles, [])
  leases ← text_list (get "restoreSecretLeaseIds" widening) "explicitWidening.restoreSecretLeaseIds"
  leases_done ← restore (admit_lease base.secret_lease_ids) leases (scope.secret_lease_ids, [])
  ok (
    record scope {
      path_prefixes = paths_done.0;
      network_destinations = hosts_done.0;
      browser_profiles = browsers_done.0;
      secret_lease_ids = leases_done.0;
    },
    paths_done.1 ++ (hosts_done.1 ++ (browsers_done.1 ++ leases_done.1)),
  )

-- `if error: reasons.add(error)`
abbrev pub error_reason : Option String → List String
error_reason none = []
error_reason (some code) = code ∷ []

-- The scope after a widening whose approval was judged.
unfoldable pub widen_if : Bool → Scope → Scope → Fields → Outcome (Scope × List String)
unfolding restore_all
widen_if false base scope widening = ok (scope, "explicit_widening_not_approved" ∷ [])
widen_if true base scope widening = restore_all base scope widening

unfoldable pub widen : Scope → Scope → Fields → Outcome (Scope × List String)
unfolding widening_requested valid_approval widen_if
widen base scope widening =
    let judged = valid_approval widening >>= λ (approved, error).
    widen_if approved base scope widening >>= λ (wider, reasons).
    ok (wider, error_reason error ++ reasons) in
    if widening_requested widening then judged else ok (scope, [])
