-- ===== src/Release/Checkpoint.antt =====
-- `create_signed_audit_checkpoint` and `verify_signed_audit_checkpoint`.
pub mod Laws
use kris_ai.Base.{
  ℕ, ℤ, pos, equal_ℤ, String, ◌==◌, Bool, true, false, not, ◌&&◌, Option, none, some, List,
  if◌then◌else◌,
}
use kris_ai.Base.Outcome.{Outcome, ok, raise, ◌>>=◌, ◌>>◌, refuse_if}
use kris_ai.Base.Dict.{Dict}
use kris_ai.Base.Json.{Json, str, int, obj, Fields, end, field}
use kris_ai.Base.Json.Access.{find, get, as_int, py_str}
use kris_ai.Release.Signing.{
  SigningKeyPair, SignedManifestEnvelope, Verification, sign_manifest, verify_signed_manifest,
}
use kris_ai.Release.Audit.{AuditRecord, ChainVerdict, verified, broken, verify_audit_chain}

-- `head or "0" * 64`
abbrev pub head_text : Option String → String
head_text none = "0000000000000000000000000000000000000000000000000000000000000000"
head_text (some head) =
    if head == "" then "0000000000000000000000000000000000000000000000000000000000000000" else head

-- `d[key]`
abbrev pub present : String → Option Json → Outcome Json
present key none = raise ("KeyError")
present key (some value) = ok value

-- `int(value)`. A text or a float is taken for a wrong value.
abbrev pub whole : Option ℤ → Outcome ℤ
whole none = raise "ValueError: recordCount"
whole (some n) = ok n

-- What `verify_signed_audit_checkpoint` returns, beside `verified`, which is always true.
pub record CheckpointVerification : Type 0 where
  pub head_sha256 : Option String
  pub record_count : ℕ
  pub signature : Verification

unfoldable pub checkpoint_manifest : Option String → ℕ → String → Fields
checkpoint_manifest head count now = field "schemaVersion" (str "1.0.0") (
    field "recordCount" (int (pos count))
      (field "headSha256" (str (head_text head)) (field "createdAt" (str now) end)))

-- The manifest of an envelope that was verified is an object.
abbrev pub manifest_in : Json → Outcome Fields
manifest_in (obj envelope) = elim (get "manifest" envelope) [
  | obj manifest ↦ ok manifest
  | _ ↦ raise "TypeError: manifest"
]
manifest_in _ = raise "TypeError: envelope"

-- The comparison of a manifest with the chain.
unfoldable pub matches_chain : Fields → Option String → ℕ → Outcome Bool
unfolding find py_str
matches_chain manifest head count = do
  counted ← present "recordCount" (find "recordCount" manifest)
  n ← whole (as_int counted)
  compared ←
      (if equal_ℤ n (pos count)
        then present "headSha256" (find "headSha256" manifest)
        else ok (str ""))
  ok (equal_ℤ n (pos count) && py_str compared == head_text head)

unfoldable pub check_verdict : Json → Verification → ChainVerdict → Outcome CheckpointVerification
unfolding matches_chain get
check_verdict envelope signature (broken failure index) = raise "audit_chain_invalid"
check_verdict envelope signature (verified head count) = do
  manifest ← manifest_in envelope
  same ← matches_chain manifest head count
  refuse_if (not same) "audit_checkpoint_mismatch"
  ok (record { head_sha256 = head; record_count = count; signature = signature })

module _ (sha256 : String → String) (hmac : String → String → String) where
  -- From the verdict on the chain; `now` and `later` are the two readings of the clock.
  unfoldable pub sign_verdict :
      ChainVerdict → SigningKeyPair → String → String → Outcome SignedManifestEnvelope
  unfolding checkpoint_manifest sign_manifest
  sign_verdict (broken failure index) pair now later = raise "audit_chain_invalid"
  sign_verdict (verified head count) pair now later =
      sign_manifest sha256 hmac "audit_checkpoint" (checkpoint_manifest head count now) pair none
        later

  unfoldable pub create_signed_audit_checkpoint :
      List AuditRecord → SigningKeyPair → String → String → Outcome SignedManifestEnvelope
  unfolding sign_verdict verify_audit_chain
  create_signed_audit_checkpoint records pair now later =
      sign_verdict (verify_audit_chain sha256 records) pair now later

  unfoldable pub verify_signed_audit_checkpoint :
      Json → List AuditRecord → Dict String → Outcome CheckpointVerification
  unfolding check_verdict verify_audit_chain verify_signed_manifest
  verify_signed_audit_checkpoint envelope records keys =
      verify_signed_manifest sha256 hmac envelope keys >>= λ signature.
      check_verdict envelope signature (verify_audit_chain sha256 records)
