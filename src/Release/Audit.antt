-- ===== src/Release/Audit.antt =====
-- `AuditRecord`, `append_audit_record` and `verify_audit_chain`.
pub mod Laws
use kris_ai.Base.{
  ℕ, suc, ◌+◌, ℤ, pos, equal_ℤ, String, ◌==◌, Bool, true, false, not, ◌&&◌, Option, none, some,
  List, [], ◌∷◌, ◌++◌, length, get_last?, if◌then◌else◌,
}
use kris_ai.Base.Json.{Json, null, str, int, obj, Fields, end, field}
use kris_ai.Release.Signing.{sha256_json}

pub record AuditRecord : Type 0 where
  pub sequence : ℤ
  pub kind : String
  pub payload : Fields
  pub previous_sha256 : Option String
  pub record_sha256 : String
  pub created_at : String

-- `None` or a text, as JSON
abbrev pub text_or_null : Option String → Json
text_or_null none = null
text_or_null (some text) = str text

-- The dictionary `candidate` that is hashed.
unfoldable pub candidate : ℤ → String → Fields → Option String → String → Json
candidate sequence kind payload previous created_at = obj (
    field "sequence" (int sequence) (
      field "kind" (str kind) (
        field "payload" (obj payload) (
          field "previousSha256" (text_or_null previous)
            (field "createdAt" (str created_at) end)))))

unfoldable pub candidate_of : AuditRecord → Json
unfolding candidate
candidate_of r = candidate r.sequence r.kind r.payload r.previous_sha256 r.created_at

-- `records[-1].record_sha256 if records else None`
unfoldable pub head_of : List AuditRecord → Option String
head_of [] = none
head_of (r ∷ []) = some r.record_sha256
head_of (r ∷ s ∷ rest) = head_of (s ∷ rest)

-- `a == b` for `None` or a text
abbrev pub equal_heads : Option String → Option String → Bool
equal_heads none none = true
equal_heads (some a) (some b) = a == b
equal_heads _ _ = false

-- What `verify_audit_chain` returns.
pub data ChainVerdict : Type 0 where
  verified : Option String → ℕ → ChainVerdict
  broken : String → ℕ → ChainVerdict

-- One round of the loop, given what the rest of the loop returns.
unfoldable pub verdict_of : Option String → ℕ → ChainVerdict → ChainVerdict
verdict_of none index rest = rest
verdict_of (some failure) index rest = broken failure index

module _ (sha256 : String → String) where
  -- The record that is appended at an instant.
  unfoldable pub next_record : List AuditRecord → String → Fields → String → AuditRecord
  unfolding head_of sha256_json candidate
  next_record records kind payload now =
      let sequence = pos (length records + 1) in
      record {
        sequence = sequence;
        kind = kind;
        payload = payload;
        previous_sha256 = head_of records;
        record_sha256 = sha256_json sha256 (candidate sequence kind payload (head_of records) now);
        created_at = now;
      }

  -- The list after the call, which ends in the record that is returned.
  unfoldable pub append_audit_record :
      List AuditRecord → String → Fields → String → List AuditRecord
  unfolding next_record
  append_audit_record records kind payload now =
      records ++ next_record records kind payload now ∷ []

  -- The failure of one record, if it has one.
  unfoldable pub failure_of : Option String → ℕ → AuditRecord → Option String
  unfolding sha256_json candidate_of
  failure_of previous index r =
      if not (equal_ℤ r.sequence (pos index))
      then some "sequence_gap"
      else if not (equal_heads r.previous_sha256 previous)
      then some "previous_hash_mismatch"
      else if not (r.record_sha256 == sha256_json sha256 (candidate_of r))
      then some "record_hash_mismatch"
      else none

  -- The loop from a record on, with the hash of the record before and the index.
  unfoldable pub verify_from : ℕ → Option String → ℕ → List AuditRecord → ChainVerdict
  unfolding failure_of verdict_of
  verify_from total previous index [] = verified previous total
  verify_from total previous index (r ∷ rs) =
      verdict_of (failure_of previous index r) index
        (verify_from total (some r.record_sha256) (index + 1) rs)

  unfoldable pub verify_audit_chain : List AuditRecord → ChainVerdict
  unfolding verify_from
  verify_audit_chain records = verify_from (length records) none 1 records
