-- ===== src/Release/Signing.antt =====
-- `sign_manifest` and `verify_signed_manifest`. An `InteroperabilityError` is held by its code.
pub mod Laws
use kris_ai.Base.{
  String, ◌==◌, Bool, true, false, not, ◌||◌, Option, none, some, strip, if◌then◌else◌,
}
use kris_ai.Base.Outcome.{Outcome, ok, raise, ◌>>=◌, ◌>>◌, refuse_if}
use kris_ai.Base.Dict.{Dict, lookup}
use kris_ai.Base.Json.{Json, str, obj, Fields, end, field}
use kris_ai.Base.Json.Access.{get, get_default, py_str}
use kris_ai.Base.Json.Print.{dumps}

abbrev pub signature_algorithm : String
signature_algorithm = "hmac-sha256"

pub record SigningKeyPair : Type 0 where
  pub key_id : String
  pub secret_key : String

pub record SignedManifestEnvelope : Type 0 where
  pub manifest_type : String
  pub manifest : Fields
  pub signature : Fields

-- `SignedManifestEnvelope.to_json`
unfoldable pub envelope_json : SignedManifestEnvelope → Json
envelope_json e = obj (
    field "schemaVersion" (str "1.0.0") (
      field "manifestType" (str e.manifest_type)
        (field "manifest" (obj e.manifest) (field "signature" (obj e.signature) end))))

-- What `verify_signed_manifest` returns, beside `verified`, which is always true.
pub record Verification : Type 0 where
  pub manifest_type : String
  pub manifest_sha256 : String
  pub signer_key_id : String

-- The object of a value, if it is one.
abbrev pub object_of : Json → Option Fields
object_of (obj fs) = some fs
object_of _ = none

-- `str(d.get(key, ""))`
unfoldable pub text_at : String → Fields → String
unfolding get_default py_str
text_at key d = py_str (get_default key (str "") d)

-- `signed_at or now`
abbrev pub stamp_or : Option String → String → String
stamp_or none now = now
stamp_or (some text) now = if text == "" then now else text

-- `key_lookup.get(key_id)`, where an empty secret counts as none
abbrev pub usable : Option String → Outcome String
usable none = raise "unknown_signer"
usable (some secret) = if secret == "" then raise "unknown_signer" else ok secret

unfoldable pub sha256_json : (String → String) → Json → String
unfolding dumps
sha256_json sha256 value = sha256 (dumps value)

-- `hmac secret message` is the HMAC-SHA256 in hexadecimal digits, of the UTF-8 bytes of both.
module _ (sha256 : String → String) (hmac : String → String → String) where
  unfoldable pub signature_material : String → Fields → String → String → Json
  unfolding sha256_json
  signature_material manifest_type manifest key_id signed_at = obj (
      field "algorithm" (str signature_algorithm) (
        field "keyId" (str key_id) (
          field "manifestType" (str manifest_type) (
            field "manifestSha256" (str (sha256_json sha256 (obj manifest)))
              (field "signedAt" (str signed_at) end)))))

  unfoldable pub signature_of : String → String → Fields → String → String → String
  unfolding signature_material dumps
  signature_of secret manifest_type manifest key_id signed_at =
      hmac secret (dumps (signature_material manifest_type manifest key_id signed_at))

  -- The envelope of a manifest under a name that is not empty.
  unfoldable pub sealed : String → Fields → SigningKeyPair → String → SignedManifestEnvelope
  unfolding signature_of sha256_json
  sealed name manifest pair signed_at = record {
    manifest_type = name;
    manifest = manifest;
    signature = field "algorithm" (str signature_algorithm) (
        field "keyId" (str pair.key_id) (
          field "signedAt" (str signed_at) (
            field "manifestSha256" (str (sha256_json sha256 (obj manifest))) (
              field "signature"
                (str (signature_of pair.secret_key name manifest pair.key_id signed_at)) end))));
  }

  unfoldable pub sign_manifest :
      String → Fields → SigningKeyPair → Option String → String → Outcome SignedManifestEnvelope
  unfolding strip sealed
  sign_manifest manifest_type manifest pair signed_at now =
      refuse_if (strip manifest_type == "") "manifest_type_invalid"
      >> ok (sealed (strip manifest_type) manifest pair (stamp_or signed_at now))

  -- The tests on the parts of an envelope.
  unfoldable pub verify_parts : Dict String → String → Fields → Fields → Outcome Verification
  unfolding text_at lookup sha256_json signature_of
  verify_parts keys manifest_type manifest signature = do
    refuse_if (not (text_at "algorithm" signature == signature_algorithm))
        "signature_algorithm_invalid"
    refuse_if (not (sha256_json sha256 (obj manifest) == text_at "manifestSha256" signature))
        "manifest_sha256_mismatch"
    secret ← usable (lookup (text_at "keyId" signature) keys)
    refuse_if
        (not (
          signature_of secret manifest_type manifest (text_at "keyId" signature)
            (text_at "signedAt" signature)
          == text_at "signature" signature))
        "signature_mismatch"
    ok (record {
      manifest_type = manifest_type;
      manifest_sha256 = text_at "manifestSha256" signature;
      signer_key_id = text_at "keyId" signature;
    })

  unfoldable pub verify_objects :
      Dict String → String → Option Fields → Option Fields → Outcome Verification
  unfolding verify_parts
  verify_objects keys manifest_type (some manifest) (some signature) =
      refuse_if (manifest_type == "") "envelope_invalid"
      >> verify_parts keys manifest_type manifest signature
  verify_objects keys manifest_type _ _ = raise "envelope_invalid"

  unfoldable pub verify_signed_manifest : Json → Dict String → Outcome Verification
  unfolding verify_objects strip text_at get
  verify_signed_manifest (obj envelope) keys =
      verify_objects keys (strip (text_at "manifestType" envelope))
        (object_of (get "manifest" envelope)) (object_of (get "signature" envelope))
  verify_signed_manifest _ keys = raise "envelope_invalid"
