-- ===== src/Trust/KeyRegistry.antt =====
-- tool/key_registry_v2.py. A `KeyRegistryError` is held by its code, and the handles of a
-- `ProtectedKeyRegistry` by their identifiers.
pub mod Laws
use kris_ai.Base.{
  String, ◌==◌, Bool, true, false, not, ◌||◌, Option, none, some, List, [], ◌∷◌, map, elem, any,
  is_empty, intersection, sorted_set, lower, has_substring, if◌then◌else◌,
}
use kris_ai.Base.Outcome.{Outcome, ok, raise, ◌>>=◌, ◌>>◌, refuse_if}
use kris_ai.Base.Dict.{Dict, keys, lookup, insert}
use kris_ai.Base.Json.{Json, str, Fields, end, field}
use kris_ai.Base.Json.Access.{traverse}

pub record ProtectedKeyHandle : Type 0 where
  pub key_id : String
  pub purpose : String
  pub provider : String
  pub reference : String
  pub public_key_hex : String
  pub trust_domain : String
  pub status : String

abbrev pub Registry : Type 0
Registry = Dict ProtectedKeyHandle

-- The keys of `asdict(self)`.
abbrev pub handle_fields : List String
handle_fields =
    "key_id" ∷ "purpose" ∷ "provider" ∷ "reference" ∷ "public_key_hex" ∷ "trust_domain" ∷ "status"
    ∷ []

abbrev pub forbidden : List String
forbidden = "private_key" ∷ "seed" ∷ "secret" ∷ "key_material" ∷ "raw_secret" ∷ []

-- `ProtectedKeyHandle.to_json`
unfoldable pub to_json : ProtectedKeyHandle → Outcome Fields
unfolding intersection
to_json h =
    refuse_if (not (is_empty (intersection forbidden handle_fields))) "secret_serialization"
    >> ok (
        field "keyId" (str h.key_id) (
          field "purpose" (str h.purpose) (
            field "provider" (str h.provider) (
              field "reference" (str h.reference) (
                field "publicKeyHex" (str h.public_key_hex) (
                  field "trustDomain" (str h.trust_domain) (field "status" (str h.status) end)))))))

abbrev pub providers : List String
providers =
    "windows_credential_manager" ∷ "macos_keychain" ∷ "linux_secret_service" ∷ "external_hsm"
    ∷ "ephemeral_test" ∷ []

abbrev pub secret_markers : List String
secret_markers = "privatekey=" ∷ "seed=" ∷ "secret=" ∷ "keymaterial=" ∷ []

abbrev pub is_known : Option ProtectedKeyHandle → Bool
is_known none = false
is_known (some _) = true

-- The handle of an identifier, if there is one.
unfoldable pub required : String → Registry → Outcome ProtectedKeyHandle
unfolding lookup
required key_id registry = elim (lookup key_id registry) [
  | none ↦ raise "unknown_key"
  | some handle ↦ ok handle
]

unfoldable pub register : ProtectedKeyHandle → Registry → Outcome Registry
unfolding lookup elem any has_substring lower insert
register handle registry = do
  refuse_if (is_known (lookup handle.key_id registry)) "duplicate_key_id"
  refuse_if (not (elem handle.provider providers)) "unsupported_provider"
  refuse_if
      (handle.reference == ""
        || any (λ marker. has_substring marker (lower handle.reference)) secret_markers)
      "invalid_reference"
  ok (insert handle.key_id handle registry)

-- `registry.resolve(key_id, purpose=…, trust_domain=…)`
unfoldable pub resolve : String → String → String → Registry → Outcome ProtectedKeyHandle
unfolding required
resolve key_id purpose trust_domain registry = do
  handle ← required key_id registry
  refuse_if (not (handle.status == "active")) "key_revoked"
  refuse_if (not (handle.purpose == purpose)) "wrong_key_purpose"
  refuse_if (not (handle.trust_domain == trust_domain)) "wrong_trust_domain"
  ok handle

-- `replace(handle, status="revoked")`
abbrev pub as_revoked : ProtectedKeyHandle → ProtectedKeyHandle
as_revoked h = record {
  key_id = h.key_id;
  purpose = h.purpose;
  provider = h.provider;
  reference = h.reference;
  public_key_hex = h.public_key_hex;
  trust_domain = h.trust_domain;
  status = "revoked";
}

-- What `revoke` returns, with the registry after it.
unfoldable pub revoke : String → Registry → Outcome (ProtectedKeyHandle × Registry)
unfolding required insert
revoke key_id registry = do
  handle ← required key_id registry
  ok (as_revoked handle, insert key_id (as_revoked handle) registry)

unfoldable pub export_public_registry : Registry → Outcome (List Fields)
unfolding traverse required to_json sorted_set keys
export_public_registry registry =
    traverse (λ key. required key registry >>= to_json) (sorted_set (keys registry))
