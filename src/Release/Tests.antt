-- ===== src/Release/Tests.antt =====
-- Runs of tool/release_ops_v19.py, and its theorems at concrete inputs.
use kris_ai.Base.{
  length, ◌++◌, ℕ, pos, String, ◌<>◌, ◌≡◌, ◌≢◌, ◌↔◌, refl, Bool, true, false, Option, none, some,
  List, [], ◌∷◌, eq_iff, arith,
}
use kris_ai.Base.Outcome.{ok}
use kris_ai.Base.Dict.{Dict, lookup}
use kris_ai.Base.Json.{str, obj, Fields, end, field}
use kris_ai.Base.Json.Access.{traverse}
use kris_ai.Release.Signing.{
  SigningKeyPair, SignedManifestEnvelope, envelope_json, sealed, sha256_json, sign_manifest,
  verify_signed_manifest,
}
use kris_ai.Release.Signing.Laws.{sign_manifest-verify}
use kris_ai.Release.Audit.{
  AuditRecord, broken, next_record, append_audit_record, verified, verify_audit_chain,
}
use kris_ai.Release.Audit.Laws.{
  IsChain, nil, last_hash, verify_audit_chain-IsChain, append_audit_record-IsChain,
}
use kris_ai.Release.Checkpoint.{
  CheckpointVerification, checkpoint_manifest, create_signed_audit_checkpoint,
  verify_signed_audit_checkpoint,
}
use kris_ai.Release.Checkpoint.Laws.{checkpoint-verify}
use kris_ai.Release.Update.{SupportLifecyclePolicy}
use kris_ai.Release.Rollback.{eligible, ineligible, plan_rollback}
use kris_ai.Release.Rollback.Laws.{IsTarget, plan_rollback-IsTarget}
use kris_ai.Release.Profiles.{PolicyProfile, from_json, to_json}
use kris_ai.Release.Profiles.Laws.{from_json-to_json}

-- A hash and an authentication code for the runs.
abbrev hash_text : String → String
hash_text s = "#" <> s

abbrev code_text : String → String → String
code_text key message = key <> (":" <> message)

abbrev pair : SigningKeyPair
pair = record { key_id = "k"; secret_key = "s" }

abbrev known_keys : Dict String
known_keys = ("k", "s") ∷ []

abbrev manifest : Fields
manifest = field "a" (str "b") end

abbrev envelope : SignedManifestEnvelope
envelope = sealed hash_text code_text "update" manifest pair "now"

secret_not_empty : pair.secret_key ≢ ""
secret_not_empty e = ground (arith, eq_iff "s" "")

sign_manifest-verify_example :
    verify_signed_manifest hash_text code_text (envelope_json envelope) known_keys
    ≡ ok (record {
      manifest_type = "update";
      manifest_sha256 = sha256_json hash_text (obj manifest);
      signer_key_id = "k";
    })
unfolding sign_manifest sealed lookup
sign_manifest-verify_example =
    sign_manifest-verify hash_text code_text known_keys " update" "now" manifest pair none envelope
      refl secret_not_empty refl

abbrev records_1 : List AuditRecord
records_1 = append_audit_record hash_text [] "start" end "now"

abbrev records_2 : List AuditRecord
records_2 = append_audit_record hash_text records_1 "stop" manifest "later"

two_records :
    verify_audit_chain hash_text records_2 ≡ verified (last_hash hash_text none records_2) 2
unfolding verify_audit_chain append_audit_record
two_records = refl

append_audit_record-IsChain_example :
    (r : AuditRecord) × (append_audit_record hash_text [] "start" end "now" ≡ ([] ++ r ∷ []))
    × (r.kind ≡ "start")
    × (r.payload ≡ end)
    × (r.created_at ≡ "now")
    × (length (append_audit_record hash_text [] "start" end "now") ≡ 1)
    × IsChain hash_text none 1 (append_audit_record hash_text [] "start" end "now")
append_audit_record-IsChain_example =
    append_audit_record-IsChain hash_text [] "start" end "now" (nil none 1)

-- The first record alone is missing.
cut_chain :
    verify_audit_chain hash_text (next_record hash_text records_1 "stop" manifest "later" ∷ [])
    ≡ broken "sequence_gap" 1
unfolding verify_audit_chain next_record append_audit_record
cut_chain = refl

verify_audit_chain-IsChain_example :
    (verify_audit_chain hash_text records_2 ≡ verified (last_hash hash_text none records_2) 2) ↔ (
      IsChain hash_text none 1 records_2
      × (last_hash hash_text none records_2 ≡ last_hash hash_text none records_2)
      × (2 ≡ length records_2))
verify_audit_chain-IsChain_example =
    verify_audit_chain-IsChain hash_text records_2 (last_hash hash_text none records_2) 2

abbrev checkpoint : SignedManifestEnvelope
checkpoint =
    sealed hash_text code_text "audit_checkpoint"
      (checkpoint_manifest (last_hash hash_text none records_1) 1 "now") pair "later"

checkpoint-verify_example :
    (v : CheckpointVerification) × (verify_signed_audit_checkpoint hash_text code_text
        (envelope_json checkpoint)
        records_1
        known_keys
      ≡ ok v)
    × (verify_audit_chain hash_text records_1 ≡ verified v.head_sha256 v.record_count)
    × (v.signature.signer_key_id ≡ "k")
unfolding create_signed_audit_checkpoint append_audit_record lookup
checkpoint-verify_example =
    checkpoint-verify hash_text code_text records_1 pair "now" "later" checkpoint known_keys refl
      secret_not_empty refl

abbrev lifecycle : SupportLifecyclePolicy
lifecycle = record {
  current_version = "1.10.0";
  minimum_supported_upgrade_from = "1.2.0";
  minimum_supported_rollback_to = "1.2.0";
  supported_channels = "stable" ∷ [];
}

abbrev installed : List String
installed = "1.10.0" ∷ "1.1.9" ∷ "1.9.0+190" ∷ "1.9.0" ∷ []

rollback_1 : plan_rollback "1.10.0" installed lifecycle ≡ ok (eligible "1.9.0+190" true)
unfolding plan_rollback traverse
rollback_1 = refl

rollback_2 :
    plan_rollback "1.10.0" ("1.10.0" ∷ []) lifecycle ≡ ok (ineligible "current_version_only")
unfolding plan_rollback traverse
rollback_2 = refl

plan_rollback-IsTarget_example : (true ≡ true) × IsTarget "1.10.0" lifecycle installed "1.9.0+190"
unfolding plan_rollback traverse
plan_rollback-IsTarget_example =
    plan_rollback-IsTarget "1.10.0" lifecycle installed "1.9.0+190" true refl

abbrev profile : PolicyProfile
profile = record {
  id = "p";
  name = "Managed";
  data_boundary = "local_only";
  network_policy = "none";
  allow_unsigned_manifests = false;
  allow_a2a_delegation = true;
  allow_remote_mcp = false;
  allow_cloud_models = false;
  allowed_update_channels = "beta" ∷ "stable" ∷ [];
  required_plugin_allowlist = [];
}

from_json-to_json_example : from_json (to_json profile) ≡ ok profile
unfolding kris_ai.Base.elem kris_ai.Base.sorted_set
from_json-to_json_example =
    from_json-to_json profile
      (record { boundary = refl; network = refl; channels = refl; plugins = refl })
