-- ===== src/Policy/Tests.antt =====
-- Runs of tool/deterministic_policy_engine.py, and its theorems at concrete inputs.
use kris_ai.Base.{pos, ◌≡◌, ◌↔◌, refl, true, false, ◌&&◌, none, List, [], ◌∷◌, elem, is_blank}
use kris_ai.Base.Outcome.{ok, raise}
use kris_ai.Base.Json.{bool, int, str, arr, obj, Fields, end, field, strings}
use kris_ai.Base.Json.Access
use kris_ai.Policy.Paths
use kris_ai.Policy.Paths.Laws.{IsCommon, path_intersection-IsCommon}
use kris_ai.Policy.Sets.{narrow, approval_policy_stricter, destination_allowed}
use kris_ai.Policy.Sets.Laws.{
  covers, covers-narrow, IsStricter, approval_policy_stricter-IsStricter,
}
use kris_ai.Policy.Scope.{Scope}
use kris_ai.Policy.Approval.{valid_approval}
use kris_ai.Policy.Approval.Laws.{IsApproval, valid_approval-IsApproval}
use kris_ai.Policy.Overlays.{Keyed, Overlaid, apply_overlays}
use kris_ai.Policy.Overlays.Laws.{IsNarrower, apply_overlays-IsNarrower}
use kris_ai.Policy.Widening.{widen}
use kris_ai.Policy.Widening.Laws.{IsCeiled, widen-IsCeiled}

dot_path : Paths.normalize_path "." ≡ ok "/"
unfolding Paths.normalize_path
dot_path = refl

parent_path : Paths.normalize_path "a/../../b" ≡ raise "path traversal is not a valid policy target"
unfolding Paths.normalize_path
parent_path = refl

drive_path : Paths.normalize_path " C:\\work\\.\\x\\" ≡ ok "c:/work/x"
unfolding Paths.normalize_path
drive_path = refl

sibling_path : Paths.path_within "/work-2/x" "/work" ≡ ok false
unfolding Paths.path_within
sibling_path = refl

intersected :
    Paths.path_intersection ("/work/" ∷ []) ("/work/./a" ∷ "/tmp" ∷ []) ≡ ok ("/work/a" ∷ [])
unfolding Paths.path_intersection
intersected = refl

listed : elem "/work/a" ("/work/a" ∷ []) ≡ true
unfolding elem
listed = refl

path_intersection-IsCommon_example : IsCommon "/work/a" ("/work/" ∷ []) ("/work/./a" ∷ "/tmp" ∷ [])
path_intersection-IsCommon_example =
    path_intersection-IsCommon "/work/a" ("/work/" ∷ []) ("/work/./a" ∷ "/tmp" ∷ [])
      ("/work/a" ∷ []) intersected listed

subdomain : destination_allowed "API.example.com." ("*.example.com" ∷ []) ≡ true
unfolding destination_allowed
subdomain = refl

covers-narrow_example :
    covers (narrow ("a.org" ∷ "b.org" ∷ []) ("b.org" ∷ "c.org" ∷ [])) "b.org"
    ≡ (covers ("a.org" ∷ "b.org" ∷ []) "b.org" && covers ("b.org" ∷ "c.org" ∷ []) "b.org")
covers-narrow_example = covers-narrow "b.org" ("a.org" ∷ "b.org" ∷ []) ("b.org" ∷ "c.org" ∷ [])

stricter : approval_policy_stricter "never" "high_risk_only" ≡ ok "high_risk_only"
unfolding approval_policy_stricter
stricter = refl

approval_policy_stricter-IsStricter_example : IsStricter "never" "high_risk_only" "high_risk_only"
approval_policy_stricter-IsStricter_example =
    approval_policy_stricter-IsStricter "never" "high_risk_only" "high_risk_only" stricter

abbrev pub approval : Fields
approval =
    field "approved" (bool true) (field "source" (str "owner") (field "approvalId" (str "a-1") end))

valid_approval-IsApproval_example :
    (valid_approval approval ≡ ok (true, none)) ↔ IsApproval approval
valid_approval-IsApproval_example = valid_approval-IsApproval approval

abbrev scope : Scope
scope = record {
  path_prefixes = "/work" ∷ [];
  network_destinations = "*" ∷ [];
  browser_profiles = "isolated" ∷ "user" ∷ [];
  secret_lease_ids = "lease-1" ∷ [];
  filesystem = end;
  process = end;
  network = end;
  browser = end;
  credentials = end;
}

abbrev overlaid : Overlaid
overlaid = record {
  scope = scope;
  budgets = ("maxMutations", pos 9) ∷ [];
  reasons = [];
  approval_policy = "never";
  denied_capabilities = [];
  denied_tools = [];
  force_deny = false;
}

abbrev overlay : Fields
overlay = field "networkDestinations" (arr (strings ("Example.org" ∷ []))) (
    field "browserProfiles" (arr (strings ("isolated" ∷ []))) (
      field "maxBudgets" (obj (field "maxMutations" (int (pos 3)) end)) (
        field "denyTools" (arr (strings ("shell" ∷ [])))
          (field "approvalPolicy" (str "always") end))))

abbrev narrowed : Overlaid
narrowed = record {
  scope = record scope {
    network_destinations = "example.org" ∷ [];
    browser_profiles = "isolated" ∷ [];
  };
  budgets = ("maxMutations", pos 3) ∷ [];
  reasons = [];
  approval_policy = "always";
  denied_capabilities = [];
  denied_tools = "shell" ∷ [];
  force_deny = false;
}

abbrev overlays : List (Keyed Fields)
overlays = record { rank = 0; name = "org"; overlay = overlay } ∷ []

overlays_applied : apply_overlays overlaid overlays ≡ ok narrowed
unfolding apply_overlays strings Access.get
overlays_applied = refl

apply_overlays-IsNarrower_example : IsNarrower overlaid narrowed
apply_overlays-IsNarrower_example =
    apply_overlays-IsNarrower overlaid narrowed overlays overlays_applied

below : IsNarrower overlaid narrowed
below = apply_overlays-IsNarrower overlaid narrowed overlays overlays_applied

abbrev widening : Fields
widening = field "restoreBrowserProfiles" (arr (strings ("user" ∷ "other" ∷ []))) approval

browsers_restored :
    widen scope narrowed.scope widening
    ≡ ok (
      record narrowed.scope { browser_profiles = "isolated" ∷ "user" ∷ [] },
      "widening_exceeds_profile_ceiling" ∷ [],
    )
unfolding widen strings is_blank
browsers_restored = refl

widen-IsCeiled_example :
    IsCeiled scope (record narrowed.scope { browser_profiles = "isolated" ∷ "user" ∷ [] })
widen-IsCeiled_example =
    widen-IsCeiled scope narrowed.scope
      (record narrowed.scope { browser_profiles = "isolated" ∷ "user" ∷ [] }) widening
      ("widening_exceeds_profile_ceiling" ∷ []) browsers_restored
      (record { browsers = below.browsers; leases = below.leases })
