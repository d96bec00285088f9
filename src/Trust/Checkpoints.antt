-- ===== src/Trust/Checkpoints.antt =====
-- tool/signed_audit_checkpoint.py. An `AuditCheckpointError` is held by its code.
pub mod Laws
pub mod Extension
use kris_ai.Base.{
  ℕ, ℤ, pos, ◌+ℤ◌, equal_ℤ, leb_ℤ, String, ◌==◌, Bool, true, false, not, ◌||◌, Option, none, some,
  List, [], ◌∷◌, length, is_empty, get_last?, if◌then◌else◌,
}
use kris_ai.Base.Outcome.{Outcome, ok, raise, ◌>>=◌, ◌>>◌, refuse_if}
use kris_ai.Base.Dict.{Dict, lookup}
use kris_ai.Base.Json.{Json, int, str, obj, Fields, end, field}
use kris_ai.Trust.Bytes.{hex, from_hex}
use kris_ai.Trust.Ed25519.{Ed25519, sign, verify}
use kris_ai.Trust.Canonical.{canonical_json}

pub record AuditCheckpoint : Type 0 where
  pub sequence : ℤ
  pub event_count : ℤ
  pub previous_checkpoint_hash : String
  pub audit_head_hash : String
  pub key_id : String
  pub signature_hex : String

-- `AuditCheckpoint.body` and `AuditCheckpoint.to_json`, as the entries before a last part.
unfoldable pub entries : AuditCheckpoint → Fields → Fields
entries c rest = field "schemaVersion" (str "1.0.0") (
    field "sequence" (int c.sequence) (
      field "eventCount" (int c.event_count) (
        field "previousCheckpointHash" (str c.previous_checkpoint_hash)
          (field "auditHeadHash" (str c.audit_head_hash) (field "keyId" (str c.key_id) rest)))))

unfoldable pub body : AuditCheckpoint → Fields
unfolding entries
body c = entries c end

unfoldable pub to_json : AuditCheckpoint → Fields
unfolding entries
to_json c = entries c (field "signature" (str c.signature_hex) end)

-- A checkpoint with another signature.
abbrev pub with_signature : AuditCheckpoint → String → AuditCheckpoint
with_signature c digits = record {
  sequence = c.sequence;
  event_count = c.event_count;
  previous_checkpoint_hash = c.previous_checkpoint_hash;
  audit_head_hash = c.audit_head_hash;
  key_id = c.key_id;
  signature_hex = digits;
}

-- What `verify_chain` returns.
pub record ChainReport : Type 0 where
  pub checkpoint_count : ℕ
  pub final_checkpoint_hash : String
  pub final_audit_head_hash : String

abbrev pub public_of : Option (List ℕ) → Outcome (List ℕ)
public_of none = raise "unknown_signer"
public_of (some public) = ok public

abbrev pub bytes_of : Option (List ℕ) → Outcome (List ℕ)
bytes_of none = raise "signature_malformed"
bytes_of (some bytes) = ok bytes

-- `items[-1].audit_head_hash if items else ""`
unfoldable pub final_head : List AuditCheckpoint → String
unfolding get_last?
final_head items = elim (get_last? items) [ none ↦ "" | some c ↦ c.audit_head_hash ]

-- Whether the head that the caller expects, if any, is not the last one.
unfoldable pub wrong_head : Option String → List AuditCheckpoint → Bool
unfolding final_head
wrong_head none items = false
wrong_head (some expected) items = is_empty items || not (final_head items == expected)

unfoldable pub checkpoint_hash : (String → String) → AuditCheckpoint → Outcome String
unfolding canonical_json to_json
checkpoint_hash sha256 c = canonical_json (obj (to_json c)) >>= λ text. ok (sha256 text)

module _ (library : Ed25519) where
  -- From the fields of a checkpoint, its signature left out.
  unfoldable pub create_checkpoint : AuditCheckpoint → List ℕ → Outcome AuditCheckpoint
  unfolding canonical_json body sign hex
  create_checkpoint c seed = do
    message ← canonical_json (obj (body c))
    signature ← sign library seed message
    ok (with_signature c (hex signature))

  -- One round of the loop, without the hash of the checkpoint.
  unfoldable pub check_link : Dict (List ℕ) → String → ℤ → ℤ → AuditCheckpoint → Outcome (Unit {0})
  unfolding lookup from_hex canonical_json body verify ◌+ℤ◌
  check_link public_keys previous_hash previous_sequence previous_event_count c = do
    refuse_if (not (equal_ℤ c.sequence (previous_sequence +ℤ pos 1))) "checkpoint_reordered"
    refuse_if (leb_ℤ c.event_count previous_event_count) "checkpoint_truncated"
    refuse_if (not (c.previous_checkpoint_hash == previous_hash)) "checkpoint_chain_mismatch"
    public ← public_of (lookup c.key_id public_keys)
    signature ← bytes_of (from_hex c.signature_hex)
    message ← canonical_json (obj (body c))
    refuse_if (not (verify library public message signature)) "checkpoint_tampered"
    ok tt

  module _ (sha256 : String → String) where
    -- The loop from the previous hash, sequence and event count; the last hash.
    unfoldable pub verify_links :
        Dict (List ℕ) → String → ℤ → ℤ → List AuditCheckpoint → Outcome String
    unfolding check_link checkpoint_hash
    verify_links public_keys previous_hash previous_sequence previous_event_count [] =
        ok previous_hash
    verify_links public_keys previous_hash previous_sequence previous_event_count (c ∷ rest) = do
      passed ← check_link public_keys previous_hash previous_sequence previous_event_count c
      hash ← checkpoint_hash sha256 c
      verify_links public_keys hash c.sequence c.event_count rest

    unfoldable pub verify_chain :
        List AuditCheckpoint → Dict (List ℕ) → Option String → Outcome ChainReport
    unfolding verify_links wrong_head final_head
    verify_chain items public_keys expected_final_audit_head = do
      hash ← verify_links public_keys "" (pos 0) (pos 0) items
      refuse_if (wrong_head expected_final_audit_head items) "audit_head_mismatch"
      ok (record {
        checkpoint_count = length items;
        final_checkpoint_hash = hash;
        final_audit_head_hash = final_head items;
      })
