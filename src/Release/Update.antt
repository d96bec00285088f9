-- ===== src/Release/Update.antt =====
-- `SupportLifecyclePolicy`, `UpdateManifest` and the verification of an update manifest.
use kris_ai.Base.{String, Bool, false, not, Option, none, some, List, elem, if◌then◌else◌}
use kris_ai.Base.Outcome.{Outcome, ok, raise, ◌>>=◌, ◌>>◌, refuse_if}
use kris_ai.Base.Dict.{Dict}
use kris_ai.Base.Json.{Json, str, arr, obj, nil, item, Fields, end, field, strings}
use kris_ai.Base.Json.Access.{find, py_str}
use kris_ai.Release.Signing.{
  SigningKeyPair, SignedManifestEnvelope, Verification, sign_manifest, verify_signed_manifest,
}
use kris_ai.Release.Checkpoint.{manifest_in, present}
use kris_ai.Release.Version.{version_ge}

pub record SupportLifecyclePolicy : Type 0 where
  pub current_version : String
  pub minimum_supported_upgrade_from : String
  pub minimum_supported_rollback_to : String
  pub supported_channels : List String

-- `SupportLifecyclePolicy.to_json`
unfoldable pub lifecycle_json : SupportLifecyclePolicy → Json
lifecycle_json p = obj (
    field "schemaVersion" (str "1.0.0") (
      field "currentVersion" (str p.current_version) (
        field "minimumSupportedUpgradeFrom" (str p.minimum_supported_upgrade_from) (
          field "minimumSupportedRollbackTo" (str p.minimum_supported_rollback_to)
            (field "supportedChannels" (arr (strings p.supported_channels)) end)))))

-- `a and b` where both may raise
abbrev both : Outcome Bool → Outcome Bool → Outcome Bool
both a b = a >>= λ first. if first then b else ok false

unfoldable pub allows_upgrade_from : SupportLifecyclePolicy → String → Outcome Bool
unfolding version_ge
allows_upgrade_from p version =
    both (version_ge version p.minimum_supported_upgrade_from)
      (version_ge p.current_version version)

unfoldable pub allows_rollback_to : SupportLifecyclePolicy → String → Outcome Bool
unfolding version_ge
allows_rollback_to p version =
    both (version_ge version p.minimum_supported_rollback_to) (version_ge p.current_version version)

pub record UpdateManifest : Type 0 where
  pub version : String
  pub channel : String
  pub archive : String
  pub archive_sha256 : String
  pub compatible_from : List String
  pub minimum_rollback_version : String
  pub notes : String
  pub product : String
  pub released_at : String

-- `UpdateManifest.to_json`
unfoldable pub update_json : UpdateManifest → Fields
update_json m = field "schemaVersion" (str "1.0.0") (
    field "product" (str m.product) (
      field "version" (str m.version) (
        field "channel" (str m.channel) (
          field "archive" (str m.archive) (
            field "archiveSha256" (str m.archive_sha256) (
              field "releasedAt" (str m.released_at) (
                field "minimumRollbackVersion" (str m.minimum_rollback_version) (
                  field "compatibleFrom" (arr (strings m.compatible_from))
                    (field "notes" (str m.notes) end)))))))))

-- `value[0]`
abbrev pub first_of : Json → Outcome Json
first_of (arr (item v vs)) = ok v
first_of (arr nil) = raise "IndexError"
first_of (str String.[]) = raise "IndexError"
first_of (str (String.◌∷◌ c s)) = ok (str (String.◌∷◌ c String.[]))
first_of (obj fs) = raise "KeyError"
first_of _ = raise "TypeError: not subscriptable"

-- The tests under a lifecycle policy.
unfoldable pub check_update : Fields → SupportLifecyclePolicy → Outcome (Unit {0})
unfolding find elem py_str allows_upgrade_from
check_update manifest policy = do
  channel ← present "channel" (find "channel" manifest)
  refuse_if (not (elem (py_str channel) policy.supported_channels)) "update_channel_unsupported"
  compatible ← present "compatibleFrom" (find "compatibleFrom" manifest)
  oldest ← first_of compatible
  allowed ← allows_upgrade_from policy (py_str oldest)
  refuse_if (not allowed) "update_upgrade_path_unsupported"
  ok tt

unfoldable pub check_policy : Fields → Option SupportLifecyclePolicy → Outcome (Unit {0})
unfolding check_update
check_policy manifest none = ok tt
check_policy manifest (some policy) = check_update manifest policy

module _ (sha256 : String → String) (hmac : String → String → String) where
  unfoldable pub create_signed_update_manifest :
      UpdateManifest → SigningKeyPair → String → Outcome SignedManifestEnvelope
  unfolding sign_manifest update_json
  create_signed_update_manifest manifest pair now =
      sign_manifest sha256 hmac "update" (update_json manifest) pair none now

  -- The verification of the signature, and the manifest.
  unfoldable pub verify_signed_update_manifest :
      Json → Option SupportLifecyclePolicy → Dict String → Outcome (Verification × Fields)
  unfolding verify_signed_manifest check_policy
  verify_signed_update_manifest envelope policy keys = do
    signature ← verify_signed_manifest sha256 hmac envelope keys
    manifest ← manifest_in envelope
    checked ← check_policy manifest policy
    ok (signature, manifest)
