-- ===== src/Profiles/Validate.antt =====
-- `validate_profile`. The profile that it returns is a copy of the one that it is given.
pub mod Limits
pub mod Laws
use kris_ai.Base.{
  ℕ, ℤ, pos, leb_ℤ, String, ◌<>◌, ◌==◌, Bool, true, false, not, ◌&&◌, ◌||◌, Option, none, some,
  List, [], ◌∷◌, elem, if◌then◌else◌,
}
use kris_ai.Base.Outcome.{Outcome, ok, raise, ◌>>=◌, ◌>>◌, refuse_if}
use kris_ai.Base.Json.{Json, null, bool, int, real, str, arr, obj, Fields}
use kris_ai.Base.Json.Access.{get, is_text, is_true, is_false, truthy, as_int}

abbrev pub profile_ids : List String
profile_ids = "chat" ∷ "project" ∷ "owner" ∷ "owner_unattended" ∷ "isolated_untrusted" ∷ []

abbrev pub approval_policies : List String
approval_policies = "always" ∷ "high_risk_only" ∷ "never" ∷ []

abbrev pub require_mapping : Json → String → Outcome Fields
require_mapping (obj fs) label = ok fs
require_mapping _ label = raise (label <> " must be an object")

abbrev pub require_bool : Json → String → Outcome Bool
require_bool (bool b) label = ok b
require_bool _ label = raise (label <> " must be boolean")

-- `value in names`, for a tuple of texts
unfoldable pub is_among : List String → Json → Bool
unfolding elem
is_among names (str s) = elem s names
is_among names _ = false

-- `isinstance(value, int) and value >= 1`
abbrev pub at_least_one : Option ℤ → Bool
at_least_one none = false
at_least_one (some n) = leb_ℤ (pos 1) n

-- The objects of a profile.
pub record Sections : Type 0 where
  pub filesystem : Fields
  pub process : Fields
  pub network : Fields
  pub browser : Fields
  pub credentials : Fields
  pub boundary : Fields

unfoldable pub sections_of : Fields → Outcome Sections
unfolding get
sections_of profile = do
  filesystem ← require_mapping (get "filesystem" profile) "filesystem"
  process ← require_mapping (get "process" profile) "process"
  network ← require_mapping (get "network" profile) "network"
  browser ← require_mapping (get "browser" profile) "browser"
  credentials ← require_mapping (get "credentials" profile) "credentials"
  boundary ← require_mapping (get "dataBoundary" profile) "dataBoundary"
  ok (record {
    filesystem = filesystem;
    process = process;
    network = network;
    browser = browser;
    credentials = credentials;
    boundary = boundary;
  })

-- Whether a chat profile authorizes an effect.
unfoldable pub has_effect : Sections → Bool
unfolding get truthy
has_effect s =
    truthy (get "read" s.filesystem)
    || (truthy (get "write" s.filesystem)
        || (truthy (get "delete" s.filesystem)
            || (truthy (get "finiteCommands" s.process)
                || (truthy (get "interactivePty" s.process)
                    || (not (is_text "none" (get "scope" s.network))
                        || (not (is_text "none" (get "scope" s.browser))
                            || not (is_text "none" (get "mode" s.credentials))))))))

unfoldable pub check_chat : Sections → Outcome (Unit {0})
unfolding has_effect
check_chat s = refuse_if (has_effect s) "chat profile cannot authorize effects"

unfoldable pub check_project : Sections → Outcome (Unit {0})
unfolding get truthy
check_project s = do
  refuse_if
      (not (is_text "project" (get "scope" s.filesystem))
        || not (truthy (get "roots" s.filesystem)))
      "project profile requires project roots"
  refuse_if (not (is_false (get "absolutePaths" s.filesystem)))
      "project profile cannot authorize arbitrary absolute paths"
  refuse_if
      (not (is_text "none" (get "elevation" s.process))
        || not (is_false (get "services" s.process)))
      "project profile cannot elevate or control services"
  ok tt

unfoldable pub check_owner : Fields → Sections → Outcome (Unit {0})
unfolding get is_among
check_owner profile s = do
  refuse_if
      (not (is_false (get "sandboxed" profile))
        || not (is_text "current_account" (get "scope" s.filesystem)))
      "owner must be explicit non-sandbox authority"
  refuse_if
      (not (is_true (get "interactive" profile))
        || not (is_false (get "unattendedAllowed" profile)))
      "owner profile must remain interactive"
  refuse_if
      (not (is_among ("never" ∷ "interactive_break_glass" ∷ []) (get "rawReveal" s.credentials)))
      "owner rawReveal is invalid"
  ok tt

unfoldable pub check_unattended : Fields → Sections → Outcome (Unit {0})
unfolding get
check_unattended profile s = do
  refuse_if
      (not (is_false (get "sandboxed" profile))
        || not (is_text "current_account" (get "scope" s.filesystem)))
      "owner_unattended must be explicit non-sandbox authority"
  refuse_if
      (not (is_false (get "interactive" profile))
        || not (is_true (get "unattendedAllowed" profile)))
      "owner_unattended lifecycle is invalid"
  refuse_if (not (is_text "none" (get "elevation" s.process)))
      "owner_unattended cannot request elevation"
  refuse_if (not (is_text "never" (get "rawReveal" s.credentials)))
      "unattended raw secret reveal is forbidden"
  refuse_if
      (not (is_text "brokered_leases" (get "mode" s.credentials))
        || not (is_true (get "unattendedUse" s.credentials)))
      "owner_unattended requires brokered unattended leases"
  ok tt

unfoldable pub check_isolated : Fields → Sections → Outcome (Unit {0})
unfolding get
check_isolated profile s = do
  refuse_if (not (is_true (get "sandboxed" profile))) "isolated_untrusted must be sandboxed"
  refuse_if
      (not (is_text "sandbox" (get "scope" s.filesystem))
        || not (is_false (get "absolutePaths" s.filesystem)))
      "isolated_untrusted filesystem must remain sandbox-only"
  refuse_if
      (not (is_text "sandbox" (get "scope" s.process))
        || not (is_text "none" (get "elevation" s.process)))
      "isolated_untrusted process scope is invalid"
  refuse_if
      (not (is_text "none" (get "mode" s.credentials))
        || not (is_text "never" (get "rawReveal" s.credentials)))
      "isolated_untrusted credentials must be none"
  refuse_if
      (not (is_false (get "privateAddresses" s.network)) || not (is_false (get "listen" s.network)))
      "isolated_untrusted network must reject private/listening access"
  refuse_if (not (is_false (get "authenticatedProfiles" s.browser)))
      "isolated_untrusted cannot use authenticated browser profiles"
  ok tt

-- The chain on the identifier of the profile.
unfoldable pub check_kind : Fields → Sections → Outcome (Unit {0})
unfolding get check_chat check_project check_owner check_unattended check_isolated
check_kind profile s =
    let kind = get "profileId" profile in
    if is_text "chat" kind
    then check_chat s
    else if is_text "project" kind
    then check_project s
    else if is_text "owner" kind
    then check_owner profile s
    else if is_text "owner_unattended" kind
    then check_unattended profile s
    else if is_text "isolated_untrusted" kind
    then check_isolated profile s
    else ok tt

unfoldable pub validate_fields : Fields → Outcome Fields
unfolding get is_among sections_of check_kind
validate_fields profile = do
  refuse_if (not (is_text "2.0.0" (get "schemaVersion" profile))) "schemaVersion must be 2.0.0"
  refuse_if (not (is_among profile_ids (get "profileId" profile))) "unknown profileId"
  refuse_if (not (at_least_one (as_int (get "profileRevision" profile))))
      "profileRevision must be a positive integer"
  refuse_if (not (is_among approval_policies (get "approvalPolicy" profile)))
      "invalid approvalPolicy"
  sandboxed ← require_bool (get "sandboxed" profile) "sandboxed"
  interactive ← require_bool (get "interactive" profile) "interactive"
  unattended ← require_bool (get "unattendedAllowed" profile) "unattendedAllowed"
  sections ← sections_of profile
  refuse_if (not (is_false (get "contentMayBecomeAuthority" sections.boundary)))
      "content cannot become authority"
  checked ← check_kind profile sections
  ok profile

unfoldable pub validate_profile : Json → Outcome Fields
unfolding validate_fields
validate_profile value = require_mapping value "profile" >>= validate_fields
