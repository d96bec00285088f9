-- ===== src/Policy/Scope.antt =====
-- `_base_scope` and `_profile_budgets`: what the access profile allows at most.
use kris_ai.Base.{
  ℤ, pos, ltb_ℤ, String, ◌<>◌, Option, none, some, List, [], ◌∷◌, sorted_set, is_empty,
  if◌then◌else◌,
}
use kris_ai.Base.Outcome.{Outcome, ok, raise, ◌>>=◌}
use kris_ai.Base.Dict.{Dict}
use kris_ai.Base.Json.{Json, Fields}
use kris_ai.Base.Json.Access.{get, is_text, as_int, traverse}
use kris_ai.Policy.Values.{mapping, text_of, text_list}
use kris_ai.Policy.Paths.{normalize_path}

pub record Scope : Type 0 where
  pub path_prefixes : List String
  pub network_destinations : List String
  pub browser_profiles : List String
  pub secret_lease_ids : List String
  pub filesystem : Fields
  pub process : Fields
  pub network : Fields
  pub browser : Fields
  pub credentials : Fields

unfoldable pub base_paths : Json → Fields → Outcome (List String)
unfolding text_of text_list normalize_path traverse get
base_paths scope context =
    if is_text "none" scope
    then ok []
    else if is_text "project" scope
    then (text_of (get "projectRoot" context) "context.projectRoot" >>= λ root.
        normalize_path root >>= λ n. ok (n ∷ []))
    else if is_text "current_account" scope
    then (text_list (get "currentAccountRoots" context) "context.currentAccountRoots" >>= λ roots.
        traverse normalize_path roots)
    else if is_text "sandbox" scope
    then (text_of (get "sandboxRoot" context) "context.sandboxRoot" >>= λ root.
        normalize_path root >>= λ n. ok (n ∷ []))
    else raise "unsupported filesystem scope"

-- Where the hosts of an allowlist stand in the context.
abbrev pub allowlist_key : Json → String
allowlist_key profile_id =
    if is_text "isolated_untrusted" profile_id then "grantDestinations" else "projectDestinations"

unfoldable pub base_destinations : Json → Json → Fields → Outcome (List String)
unfolding text_list sorted_set get
base_destinations scope profile_id context =
    if is_text "none" scope
    then ok []
    else if is_text "unrestricted" scope
    then ok ("*" ∷ [])
    else if is_text "allowlist" scope
    then (text_list (get (allowlist_key profile_id) context)
          ("context." <> allowlist_key profile_id)
        >>= λ hosts. ok (sorted_set hosts))
    else raise "unsupported network scope"

unfoldable pub base_browsers : Json → Fields → Outcome (List String)
unfolding text_list sorted_set get
base_browsers scope context =
    if is_text "none" scope
    then ok []
    else if is_text "isolated" scope
    then ok ("isolated" ∷ [])
    else if is_text "user_selected" scope
    then (text_list (get "userSelectedBrowserProfiles" context)
          "context.userSelectedBrowserProfiles"
        >>= λ names. ok (sorted_set names))
    else if is_text "unrestricted" scope
    then (text_list (get "availableBrowserProfiles" context) "context.availableBrowserProfiles"
        >>= λ names. ok (if is_empty names then "*" ∷ [] else sorted_set names))
    else raise "unsupported browser scope"

unfoldable pub base_leases : Json → Fields → Outcome (List String)
unfolding text_list sorted_set get
base_leases mode context =
    if is_text "none" mode
    then ok []
    else (text_list (get "availableSecretLeaseIds" context) "context.availableSecretLeaseIds"
        >>= λ leases. ok (sorted_set leases))

unfoldable pub base_scope : Fields → Fields → Outcome Scope
unfolding mapping base_paths base_destinations base_browsers base_leases get
base_scope profile context = do
  filesystem ← mapping (get "filesystem" profile) "profile.filesystem"
  process ← mapping (get "process" profile) "profile.process"
  network ← mapping (get "network" profile) "profile.network"
  browser ← mapping (get "browser" profile) "profile.browser"
  credentials ← mapping (get "credentials" profile) "profile.credentials"
  paths ← base_paths (get "scope" filesystem) context
  destinations ← base_destinations (get "scope" network) (get "profileId" profile) context
  browsers ← base_browsers (get "scope" browser) context
  leases ← base_leases (get "mode" credentials) context
  ok (record {
    path_prefixes = paths;
    network_destinations = destinations;
    browser_profiles = browsers;
    secret_lease_ids = leases;
    filesystem = filesystem;
    process = process;
    network = network;
    browser = browser;
    credentials = credentials;
  })

abbrev pub budget_fields : List String
budget_fields =
    "wallClockMs" ∷ "maxOutputBytes" ∷ "maxNetworkBytes" ∷ "maxCostMicros" ∷ "maxMutations" ∷ []

-- A number that is not negative; `True` and `False` count as 1 and 0.
unfoldable pub natural : Option ℤ → Option ℤ
natural none = none
natural (some n) = if ltb_ℤ n (pos 0) then none else some n

unfoldable pub budget_from : Option ℤ → String → Outcome ℤ
budget_from none field = raise ("invalid profile budget " <> field)
budget_from (some n) field = ok n

unfoldable pub read_budgets : Fields → List String → Outcome (Dict ℤ)
unfolding natural budget_from get
read_budgets raw [] = ok []
read_budgets raw (name ∷ names) = do
  value ← budget_from (natural (as_int (get name raw))) name
  rest ← read_budgets raw names
  ok ((name, value) ∷ rest)

unfoldable pub profile_budgets : String → Fields → Outcome (Dict ℤ)
unfolding mapping read_budgets get
profile_budgets profile_id config = do
  all ← mapping (get "profileBudgets" config) "config.profileBudgets"
  raw ← mapping (get profile_id all) ("config.profileBudgets." <> profile_id)
  read_budgets raw budget_fields
