-- ===== src/Policy/Overlays.antt =====
-- The overlays of a request, in the order of their layers: each narrows the scope and the budgets.
pub mod Caps
pub mod Laws
use Prim.Native.Nat.{Ordering}
use Prim.Native.String.{compare}
use kris_ai.Base.{
  ℕ, ℤ, min_ℤ, String, ◌<>◌, ◌==◌, Bool, true, false, not, ◌&&◌, ◌||◌, Option, none, some, List, [],
  ◌∷◌, ◌++◌, ltb, eqb, map, lower, if◌then◌else◌,
}
use kris_ai.Base.Outcome.{Outcome, ok, raise, ◌>>=◌}
use kris_ai.Base.Dict.{Dict, lookup, insert}
use kris_ai.Base.Json.{Json, null, bool, int, real, str, arr, obj, Fields, end, field}
use kris_ai.Base.Json.Access.{get, is_true, as_int, or_empty, py_str, traverse, to_list}
use kris_ai.Policy.Values.{mapping, text_of, text_list}
use kris_ai.Policy.Paths.{normalize_path, path_intersection}
use kris_ai.Policy.Sets.{narrow, approval_policy_stricter}
use kris_ai.Policy.Scope.{Scope, natural}

abbrev pub layer_order : Dict ℕ
layer_order = ("organization", 0) ∷ ("project", 1) ∷ ("user", 2) ∷ []

rank_of : Option ℕ → Outcome ℕ
rank_of none = raise "unknown overlay layer"
rank_of (some rank) = ok rank

layer_rank : Json → Outcome ℕ
unfolding lookup rank_of
layer_rank (str layer) = rank_of (lookup layer layer_order)
layer_rank (arr xs) = raise "TypeError: unhashable type"
layer_rank (obj fs) = raise "TypeError: unhashable type"
layer_rank _ = raise "unknown overlay layer"

-- An overlay with its key.
pub record Keyed (A : Type 0) : Type 0 where
  pub rank : ℕ
  pub name : String
  pub overlay : A

unfoldable pub overlay_key : Fields → Outcome (Keyed Fields)
unfolding layer_rank text_of get
overlay_key overlay = do
  rank ← layer_rank (get "layer" overlay)
  name ← text_of (get "overlayId" overlay) "overlay.overlayId"
  ok (record { rank = rank; name = name; overlay = overlay })

abbrev not_after : Ordering → Bool
not_after Ordering.gt = false
not_after _ = true

abbrev key_le : {A : Type 0} → Keyed A → Keyed A → Bool
key_le a b = ltb a.rank b.rank || (eqb a.rank b.rank && not_after (compare a.name b.name))

-- `sorted`, which keeps the order of equal keys.
insert_keyed : {A : Type 0} → Keyed A → List (Keyed A) → List (Keyed A)
insert_keyed a [] = a ∷ []
insert_keyed a (b ∷ rest) =
    let later = b ∷ insert_keyed a rest in if key_le a b then a ∷ b ∷ rest else later

unfoldable pub sort_keyed : {A : Type 0} → List (Keyed A) → List (Keyed A)
unfolding insert_keyed
sort_keyed [] = []
sort_keyed (a ∷ rest) = insert_keyed a (sort_keyed rest)

unfoldable pub sorted_overlays : List Json → Outcome (List (Keyed Fields))
unfolding traverse mapping overlay_key sort_keyed
sorted_overlays items = do
  overlays ← traverse (λ v. mapping v "overlay") items
  keyed ← traverse overlay_key overlays
  ok (sort_keyed keyed)

-- The variables that the loop over the overlays changes.
pub record Overlaid : Type 0 where
  pub scope : Scope
  pub budgets : Dict ℤ
  pub reasons : List String
  pub approval_policy : String
  pub denied_capabilities : List String
  pub denied_tools : List String
  pub force_deny : Bool

-- A list of the overlay, if it is there, applied to the list of the scope.
unfoldable pub narrow_by :
    (List String → List String) → Json → String → List String → Outcome (List String)
unfolding text_list narrow
narrow_by prepare null label current = ok current
narrow_by prepare value label current =
    text_list value label >>= λ constraint. ok (narrow current (prepare constraint))

unfoldable pub narrow_paths : Json → List String → Outcome (List String)
unfolding text_list traverse normalize_path path_intersection
narrow_paths null current = ok current
narrow_paths value current = do
  given ← text_list value "overlay.pathPrefixes"
  normal ← traverse normalize_path given
  path_intersection current normal

-- One entry of `maxBudgets`: the budgets, and the reasons.
unfoldable pub cap_budget :
    String → Option ℤ → Option ℤ → Dict ℤ × List String → Dict ℤ × List String
unfolding insert min_ℤ
cap_budget name (some old) (some value) (budgets, reasons) =
    (insert name (min_ℤ old value) budgets, reasons)
cap_budget name _ _ (budgets, reasons) = (budgets, "invalid_overlay_budget" ∷ reasons)

unfoldable pub cap_budgets : Fields → Dict ℤ × List String → Dict ℤ × List String
unfolding cap_budget natural lookup
cap_budgets end state = state
cap_budgets (field name value rest) state =
    cap_budgets rest (cap_budget name (lookup name state.0) (natural (as_int value)) state)

unfoldable pub stricter_by : Json → String → Outcome String
unfolding approval_policy_stricter py_str
stricter_by null current = ok current
stricter_by value current = approval_policy_stricter current (py_str value)

-- One round of the loop.
unfoldable pub apply_overlay : Overlaid → Fields → Outcome Overlaid
unfolding text_list narrow_paths narrow_by mapping or_empty cap_budgets stricter_by lower get
apply_overlay s overlay = do
  capabilities ← text_list (get "denyCapabilities" overlay) "overlay.denyCapabilities"
  tools ← text_list (get "denyTools" overlay) "overlay.denyTools"
  paths ← narrow_paths (get "pathPrefixes" overlay) s.scope.path_prefixes
  hosts ←
      narrow_by (map lower) (get "networkDestinations" overlay) "overlay.networkDestinations"
        s.scope.network_destinations
  browsers ←
      narrow_by (λ xs. xs) (get "browserProfiles" overlay) "overlay.browserProfiles"
        s.scope.browser_profiles
  leases ←
      narrow_by (λ xs. xs) (get "secretLeaseIds" overlay) "overlay.secretLeaseIds"
        s.scope.secret_lease_ids
  limits ← mapping (or_empty (get "maxBudgets" overlay)) "overlay.maxBudgets"
  policy ← stricter_by (get "approvalPolicy" overlay) s.approval_policy
  let capped = cap_budgets limits (s.budgets, s.reasons)
  ok (record {
    scope = record s.scope {
      path_prefixes = paths;
      network_destinations = hosts;
      browser_profiles = browsers;
      secret_lease_ids = leases;
    };
    budgets = capped.0;
    reasons = capped.1;
    approval_policy = policy;
    denied_capabilities = s.denied_capabilities ++ capabilities;
    denied_tools = s.denied_tools ++ tools;
    force_deny = s.force_deny || is_true (get "forceDeny" overlay);
  })

unfoldable pub apply_overlays : Overlaid → List (Keyed Fields) → Outcome Overlaid
unfolding apply_overlay
apply_overlays s [] = ok s
apply_overlays s (k ∷ ks) = apply_overlay s k.overlay >>= λ next. apply_overlays next ks
