-- ===== src/Extensions/Registry.antt =====
-- `InstalledExtension` and `ExtensionRegistryV2`. The extensions of a registry are held by their
-- identities; a call that changes one is given the registry and returns the one after it.
pub mod Laws
use kris_ai.Base.{
  ℤ, String, ◌==◌, Bool, true, false, not, ◌&&◌, Option, none, some, List, [], ◌∷◌, is_empty,
  sorted_set, if◌then◌else◌,
}
use kris_ai.Base.Outcome.{Outcome, ok, raise, ◌>>=◌, ◌>>◌, refuse_if}
use kris_ai.Base.Dict.{Dict, keys, lookup, insert}
use kris_ai.Base.Json.{Json, bool, str, arr, obj, Fields, end, field, strings}
use kris_ai.Base.Json.Access.{get, traverse}
use kris_ai.Trust.Ed25519.{Ed25519}
use kris_ai.Trust.Canonical.{canonical_json}
use kris_ai.Trust.Manifest.{ExternalKeyring, verify_manifest}
use kris_ai.Extensions.Manifest.{
  ExtensionManifestV2, identity, version_tuple, at_most, from_payload,
}

pub record InstalledExtension : Type 0 where
  pub manifest : ExtensionManifestV2
  pub manifest_sha256 : String
  pub enabled : Bool
  pub revoked : Bool
  pub capability_review_required : Bool

abbrev pub Registry : Type 0
Registry = Dict InstalledExtension

-- What is signed and what is found on disk: the envelope, and the digests of the code and tests.
pub record Candidate : Type 0 where
  pub envelope : Fields
  pub keyring : ExternalKeyring
  pub now : ℤ
  pub actual_code_sha256 : String
  pub actual_tests_sha256 : String

-- `InstalledExtension.to_json`
unfoldable pub to_json : InstalledExtension → Fields
unfolding identity strings
to_json e = field "identity" (str (identity e.manifest)) (
    field "type" (str e.manifest.extension_type) (
      field "version" (str e.manifest.version) (
        field "publisher" (str e.manifest.publisher) (
          field "codeSha256" (str e.manifest.code_sha256) (
            field "requestedCapabilities" (arr (strings e.manifest.requested_capabilities)) (
              field "compatibility" (arr (strings e.manifest.compatibility)) (
                field "entryPoint" (str e.manifest.entry_point) (
                  field "testsSha256" (str e.manifest.tests_sha256) (
                    field "manifestSha256" (str e.manifest_sha256) (
                      field "enabled" (bool e.enabled) (
                        field "revoked" (bool e.revoked) (
                          field "capabilityReviewRequired" (bool e.capability_review_required)
                            end))))))))))))

-- `ExtensionRegistryV2._required`
unfoldable pub required : Registry → String → Outcome InstalledExtension
unfolding lookup
required registry name = elim (lookup name registry) [
  | none ↦ raise "extension_not_installed"
  | some e ↦ ok e
]

abbrev pub payload_of : Json → Outcome Fields
payload_of (obj payload) = ok payload
payload_of _ = raise "extension_manifest_payload_invalid"

-- `extension.enabled = …`, `extension.revoked = …` and `extension.capability_review_required = …`
abbrev pub with_flags : InstalledExtension → Bool → Bool → Bool → InstalledExtension
with_flags e enabled revoked review = record {
  manifest = e.manifest;
  manifest_sha256 = e.manifest_sha256;
  enabled = enabled;
  revoked = revoked;
  capability_review_required = review;
}

-- What the call returns, with the registry after it.
unfoldable pub store : String → InstalledExtension → Registry → InstalledExtension × Registry
unfolding insert
store name e registry = (e, insert name e registry)

-- The test on an extension that is there already.
abbrev pub check_absent : Option InstalledExtension → Outcome (Unit {0})
check_absent none = ok tt
check_absent (some prior) =
    raise (if prior.revoked then "extension_identity_revoked" else "extension_already_installed")

-- `a != b` for the tuples of capabilities
abbrev pub same_texts : List String → List String → Bool
same_texts [] [] = true
same_texts (x ∷ xs) (y ∷ ys) = x == y && same_texts xs ys
same_texts _ _ = false

unfoldable pub enable : Registry → String → Bool → Outcome (InstalledExtension × Registry)
unfolding required store
enable registry name capabilities_approved = do
  e ← required registry name
  refuse_if e.revoked "extension_revoked"
  refuse_if (e.capability_review_required && not capabilities_approved)
      "extension_capability_review_required"
  ok (store name (with_flags e true e.revoked false) registry)

unfoldable pub disable : Registry → String → Outcome (InstalledExtension × Registry)
unfolding required store
disable registry name = do
  e ← required registry name
  ok (store name (with_flags e false e.revoked e.capability_review_required) registry)

unfoldable pub revoke : Registry → String → Outcome (InstalledExtension × Registry)
unfolding required store
revoke registry name = do
  e ← required registry name
  ok (store name (with_flags e false true false) registry)

unfoldable pub inspect : Registry → String → Outcome Fields
unfolding required to_json
inspect registry name = required registry name >>= λ e. ok (to_json e)

unfoldable pub inspect_all : Registry → Outcome (List Fields)
unfolding traverse inspect sorted_set keys
inspect_all registry = traverse (inspect registry) (sorted_set (keys registry))

unfoldable pub capabilities : Registry → String → Outcome (List String)
unfolding required
capabilities registry name = required registry name >>= λ e. ok e.manifest.requested_capabilities

-- The extension after an update, from the one before.
unfoldable pub updated : InstalledExtension → ExtensionManifestV2 → String → InstalledExtension
updated prior manifest digest =
    let unchanged =
      same_texts manifest.requested_capabilities prior.manifest.requested_capabilities in
    record {
      manifest = manifest;
      manifest_sha256 = digest;
      enabled = prior.enabled && unchanged;
      revoked = false;
      capability_review_required = not unchanged;
    }

module _ (library : Ed25519) (from_iso : String → Option ℤ) (sha256 : String → String) where
  -- `ExtensionRegistryV2._verify_candidate`
  unfoldable pub verify_candidate : Candidate → Outcome (ExtensionManifestV2 × String)
  unfolding verify_manifest from_payload canonical_json get
  verify_candidate c = do
    body ←
        verify_manifest library from_iso c.envelope c.keyring c.now (some "kristin_extension")
          (some "kristin.extensions")
    payload ← payload_of (get "payload" body)
    manifest ← from_payload payload
    refuse_if (not (manifest.code_sha256 == c.actual_code_sha256)) "extension_code_digest_mismatch"
    refuse_if (not (manifest.tests_sha256 == c.actual_tests_sha256))
        "extension_tests_digest_mismatch"
    text ← canonical_json (obj body)
    ok (manifest, sha256 text)

  unfoldable pub install : Registry → Candidate → Outcome (InstalledExtension × Registry)
  unfolding verify_candidate lookup identity store
  install registry c = do
    (manifest, digest) ← verify_candidate c
    absent ← check_absent (lookup (identity manifest) registry)
    ok (
        store (identity manifest)
          (record {
            manifest = manifest;
            manifest_sha256 = digest;
            enabled = false;
            revoked = false;
            capability_review_required = not (is_empty manifest.requested_capabilities);
          })
          registry)

  unfoldable pub update : Registry → String → Candidate → Outcome (InstalledExtension × Registry)
  unfolding required verify_candidate identity version_tuple at_most updated store
  update registry name c = do
    prior ← required registry name
    refuse_if prior.revoked "extension_identity_revoked"
    (manifest, digest) ← verify_candidate c
    refuse_if (not (identity manifest == name)) "extension_update_identity_mismatch"
    new ← version_tuple manifest.version
    old ← version_tuple prior.manifest.version
    refuse_if (at_most new old) "extension_update_version_not_newer"
    ok (store name (updated prior manifest digest) registry)
