-- ===== src/Release/Checkpoint/Laws.antt =====
-- A checkpoint that was created is verified against the same records.
use kris_ai.Base.{
  ℕ, pos, equal_ℤ, String, ◌≡◌, ◌≢◌, refl, sym, ap, ◌==◌, true, Option, none, some, List, arith,
  eq_refl, strip,
}
use kris_ai.Base.Outcome.{ok, ok-injective, ◌>>=◌, refuse_if-eq-ok}
use kris_ai.Base.Dict.{Dict, lookup}
use kris_ai.Base.Json.{obj, Fields}
use kris_ai.Release.Signing.{
  SigningKeyPair, SignedManifestEnvelope, envelope_json, Verification, sha256_json, sign_manifest,
  sealed, verify_signed_manifest,
}
use kris_ai.Release.Signing.Laws.{sign_manifest-verify}
use kris_ai.Release.Audit.{AuditRecord, ChainVerdict, verified, broken, verify_audit_chain}
use kris_ai.Release.Checkpoint.{
  head_text, CheckpointVerification, checkpoint_manifest, matches_chain, check_verdict,
  sign_verdict, create_signed_audit_checkpoint, verify_signed_audit_checkpoint,
}

equal_ℤ_self : (n : ℕ) → equal_ℤ (pos n) (pos n) ≡ true
equal_ℤ_self n = ground arith

checkpoint_matches :
    (head : Option String) (count : ℕ) (now : String)
    → matches_chain (checkpoint_manifest head count now) head count ≡ ok true
unfolding matches_chain checkpoint_manifest
checkpoint_matches head count now = rw (equal_ℤ_self count, eq_refl (head_text head)) refl

module _ (sha256 : String → String) (hmac : String → String → String) where
  sign_manifest-manifest :
      (manifest_type now : String) (manifest : Fields) (pair : SigningKeyPair) (at : Option String)
      (e : SignedManifestEnvelope)
      → sign_manifest sha256 hmac manifest_type manifest pair at now ≡ ok e
      → e.manifest ≡ manifest
  unfolding sign_manifest sealed
  sign_manifest-manifest manifest_type now manifest pair at e h =
      let (n, made_e) = refuse_if-eq-ok (strip manifest_type == "") "manifest_type_invalid" _ h in
      ap SignedManifestEnvelope.manifest (sym (ok-injective _ e made_e))

  check_envelope :
      (e : SignedManifestEnvelope) (head : Option String) (count : ℕ) (now : String)
      (v : Verification)
      → e.manifest ≡ checkpoint_manifest head count now
      → check_verdict (envelope_json e) v (verified head count)
        ≡ ok (record { head_sha256 = head; record_count = count; signature = v })
  unfolding check_verdict envelope_json
  check_envelope e head count now v same = rw (same, checkpoint_matches head count now) refl

  -- From the verdict on the chain.
  sign_verdict-check :
      (c : ChainVerdict) (pair : SigningKeyPair) (now later : String) (e : SignedManifestEnvelope)
      (keys : Dict String)
      → sign_verdict sha256 hmac c pair now later ≡ ok e
      → pair.secret_key ≢ ""
      → lookup pair.key_id keys ≡ some pair.secret_key
      → (v : CheckpointVerification) × ((verify_signed_manifest sha256 hmac (envelope_json e) keys
            >>= λ signature. check_verdict (envelope_json e) signature c)
          ≡ ok v)
        × (c ≡ verified v.head_sha256 v.record_count)
        × (v.signature.signer_key_id ≡ pair.key_id)
  unfolding sign_verdict
  sign_verdict-check (broken failure index) pair now later e keys h u k = cc
  sign_verdict-check (verified head count) pair now later e keys h u k =
      let manifest = checkpoint_manifest head count now in
      let v : Verification = record {
        manifest_type = strip "audit_checkpoint";
        manifest_sha256 = sha256_json sha256 (obj manifest);
        signer_key_id = pair.key_id;
      } in
      (
        record { head_sha256 = head; record_count = count; signature = v },
        rw
            (sign_manifest-verify sha256 hmac keys "audit_checkpoint" later manifest pair none e h u
              k)
            (check_envelope e head count now v
              (sign_manifest-manifest "audit_checkpoint" later manifest pair none e h)),
        refl,
        refl,
      )

  -- A checkpoint that is created of some records is verified against the same records by everyone
  -- who knows the key's secret, which is not empty: the verification has the head and the number of
  -- records that the chain's verification returned, and names the signer.
  pub checkpoint-verify :
      (records : List AuditRecord) (pair : SigningKeyPair) (now later : String)
      (e : SignedManifestEnvelope) (keys : Dict String)
      → create_signed_audit_checkpoint sha256 hmac records pair now later ≡ ok e
      → pair.secret_key ≢ ""
      → lookup pair.key_id keys ≡ some pair.secret_key
      → (v : CheckpointVerification) × (verify_signed_audit_checkpoint sha256 hmac
            (envelope_json e)
            records
            keys
          ≡ ok v)
        × (verify_audit_chain sha256 records ≡ verified v.head_sha256 v.record_count)
        × (v.signature.signer_key_id ≡ pair.key_id)
  unfolding create_signed_audit_checkpoint verify_signed_audit_checkpoint
  checkpoint-verify records pair now later e keys h u k =
      sign_verdict-check (verify_audit_chain sha256 records) pair now later e keys h u k
