-- ===== src/Release/Profiles.antt =====
-- `PolicyProfile`, `merge_policy_profiles` and `FleetConfiguration`.
pub mod Laws
use Prim.Native.Char.{Char}
use kris_ai.Base.{
  String, ◌<>◌, ◌==◌, Bool, true, false, not, ◌&&◌, ◌||◌, Option, none, some, List, [], ◌∷◌, ◌++◌,
  map, elem, is_empty, filter, sorted_set, if◌then◌else◌,
}
use kris_ai.Base.Outcome.{Outcome, ok, raise, ◌>>=◌, ◌>>◌, refuse_if}
use kris_ai.Base.Dict.{Dict, lookup, insert}
use kris_ai.Base.Json.{
  Json, null, bool, int, real, str, arr, obj, Items, nil, item, Fields, end, field, strings,
}
use kris_ai.Base.Json.Access.{find, get, get_default, to_list, py_str, truthy}
use kris_ai.Release.Checkpoint.{present}

pub record PolicyProfile : Type 0 where
  pub id : String
  pub name : String
  pub data_boundary : String
  pub network_policy : String
  pub allow_unsigned_manifests : Bool
  pub allow_a2a_delegation : Bool
  pub allow_remote_mcp : Bool
  pub allow_cloud_models : Bool
  pub allowed_update_channels : List String
  pub required_plugin_allowlist : List String

abbrev pub required_fields : List String
required_fields =
    "id" ∷ "name" ∷ "dataBoundary" ∷ "networkPolicy" ∷ "allowUnsignedManifests"
    ∷ "allowA2ADelegation" ∷ "allowRemoteMcp" ∷ "allowedUpdateChannels" ∷ []

unfoldable pub has_key : String → Fields → Bool
unfolding find
has_key key d = elim (find key d) [ none ↦ false | some _ ↦ true ]

unfoldable pub missing_fields : Fields → List String
unfolding filter has_key
missing_fields data_fields = filter (λ key. not (has_key key data_fields)) required_fields

abbrev pub characters : String → List String
characters String.[] = []
characters (String.◌∷◌ c s) = String.◌∷◌ c String.[] ∷ characters s

abbrev pub keys_of : Fields → List String
keys_of end = []
keys_of (field k v fs) = k ∷ keys_of fs

-- `str(item) for item in value`
unfoldable pub texts_in : Json → Outcome (List String)
unfolding to_list py_str
texts_in (arr xs) = ok (map py_str (to_list xs))
texts_in (str s) = ok (characters s)
texts_in (obj fs) = ok (keys_of fs)
texts_in _ = raise "TypeError: not iterable"

abbrev pub boundaries : List String
boundaries = "local_only" ∷ "brokered_https" ∷ "enterprise_managed" ∷ []

abbrev pub network_policies : List String
network_policies = "none" ∷ "broker_https" ∷ []

-- `PolicyProfile.from_json`
unfoldable pub from_json : Fields → Outcome PolicyProfile
unfolding missing_fields elem texts_in sorted_set py_str truthy get get_default
from_json raw = do
  refuse_if (not (is_empty (missing_fields raw))) "policy_profile_missing"
  refuse_if (not (elem (py_str (get "dataBoundary" raw)) boundaries))
      "policy_profile_boundary_invalid"
  refuse_if (not (elem (py_str (get "networkPolicy" raw)) network_policies))
      "policy_profile_network_invalid"
  channels ← texts_in (get "allowedUpdateChannels" raw)
  plugins ← texts_in (get_default "requiredPluginAllowlist" (arr nil) raw)
  ok (record {
    id = py_str (get "id" raw);
    name = py_str (get "name" raw);
    data_boundary = py_str (get "dataBoundary" raw);
    network_policy = py_str (get "networkPolicy" raw);
    allow_unsigned_manifests = truthy (get "allowUnsignedManifests" raw);
    allow_a2a_delegation = truthy (get "allowA2ADelegation" raw);
    allow_remote_mcp = truthy (get "allowRemoteMcp" raw);
    allow_cloud_models = truthy (get_default "allowCloudModels" (bool false) raw);
    allowed_update_channels = sorted_set channels;
    required_plugin_allowlist = sorted_set plugins;
  })

-- `PolicyProfile.to_json`
unfoldable pub to_json : PolicyProfile → Fields
unfolding strings
to_json p = field "schemaVersion" (str "1.0.0") (
    field "id" (str p.id) (
      field "name" (str p.name) (
        field "dataBoundary" (str p.data_boundary) (
          field "networkPolicy" (str p.network_policy) (
            field "allowUnsignedManifests" (bool p.allow_unsigned_manifests) (
              field "allowA2ADelegation" (bool p.allow_a2a_delegation) (
                field "allowRemoteMcp" (bool p.allow_remote_mcp) (
                  field "allowCloudModels" (bool p.allow_cloud_models) (
                    field "allowedUpdateChannels" (arr (strings p.allowed_update_channels)) (
                      field "requiredPluginAllowlist" (arr (strings p.required_plugin_allowlist))
                        end))))))))))

-- `a or b` of two texts
abbrev pub or_text : String → String → String
or_text a b = if a == "" then b else a

unfoldable pub merge_policy_profiles : PolicyProfile → PolicyProfile → PolicyProfile
unfolding sorted_set
merge_policy_profiles base overlay = record {
  id = or_text overlay.id base.id;
  name = or_text overlay.name base.name;
  data_boundary = or_text overlay.data_boundary base.data_boundary;
  network_policy = or_text overlay.network_policy base.network_policy;
  allow_unsigned_manifests = overlay.allow_unsigned_manifests;
  allow_a2a_delegation = overlay.allow_a2a_delegation;
  allow_remote_mcp = overlay.allow_remote_mcp;
  allow_cloud_models = overlay.allow_cloud_models;
  allowed_update_channels =
      sorted_set (base.allowed_update_channels ++ overlay.allowed_update_channels);
  required_plugin_allowlist =
      sorted_set (base.required_plugin_allowlist ++ overlay.required_plugin_allowlist);
}

pub record FleetConfiguration : Type 0 where
  pub default_policy_profile_id : String
  pub project_policies : Dict String

-- The policy of one project.
abbrev pub policy_in : Json → Outcome String
policy_in (obj entry) =
    if truthy (get "policyProfileId" entry)
    then ok (py_str (get "policyProfileId" entry))
    else raise "fleet_project_policy_missing"
policy_in _ = raise "fleet_project_policy_missing"

unfoldable pub resolve_projects : Fields → Dict String → Outcome (Dict String)
unfolding insert
resolve_projects end resolved = ok resolved
resolve_projects (field project entry rest) resolved =
    policy_in entry >>= λ policy. resolve_projects rest (insert project policy resolved)

-- `raw.get("projects") or {}`
unfoldable pub projects_in : Json → Outcome Fields
unfolding truthy
projects_in (obj fs) = ok fs
projects_in value = if truthy value then raise "fleet_projects_invalid" else ok end

-- `FleetConfiguration.from_json`
unfoldable pub fleet_from_json : Fields → Outcome FleetConfiguration
unfolding projects_in resolve_projects py_str get get_default
fleet_from_json raw = do
  projects ← projects_in (get "projects" raw)
  resolved ← resolve_projects projects []
  ok (record {
    default_policy_profile_id = py_str (get_default "defaultPolicyProfileId" (str "default") raw);
    project_policies = resolved;
  })

abbrev or_default : Option String → String → String
or_default none default = default
or_default (some policy) default = policy

unfoldable pub resolve_policy_id : FleetConfiguration → String → String
unfolding lookup
resolve_policy_id fleet project =
    or_default (lookup project fleet.project_policies) fleet.default_policy_profile_id
