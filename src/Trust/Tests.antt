-- ===== src/Trust/Tests.antt =====
-- Runs of the files on keys and signatures, and their theorems at concrete inputs.
use kris_ai.Base.{
  ℕ, pos, ℤ, String, ◌≡◌, ◌↔◌, refl, Bool, true, false, Option, none, some, List, [], ◌∷◌, ◌++◌,
  length, eqb, arith,
}
use kris_ai.Base.Outcome.{ok, raise}
use kris_ai.Base.Dict.{Dict, lookup}
use kris_ai.Base.Json.{str, obj, Fields, end, field}
use kris_ai.Base.Json.Access.{find}
use kris_ai.Trust.Bytes.{hex, from_hex}
use kris_ai.Trust.Bytes.Laws.{from_hex-hex}
use kris_ai.Trust.Ed25519.{Ed25519}
use kris_ai.Trust.Ed25519.Laws.{SignsWith}
use kris_ai.Trust.Manifest.{TrustKey, ExternalKeyring, signing_body, sign_manifest, verify_manifest}
use kris_ai.Trust.Manifest.Laws.{IsAdmitted, IsTrusted, verify_manifest_complete}
use kris_ai.Trust.Manifest.Roundtrip.{sign_manifest-verify_manifest}
use kris_ai.Trust.Compatibility.{classify_manifest}
use kris_ai.Trust.Compatibility.Laws.{classify_manifest-ok}
use kris_ai.Trust.KeyRegistry.{ProtectedKeyHandle, register, revoke, resolve, as_revoked}
use kris_ai.Trust.KeyRegistry.Laws.{registered, done, after, revoke-resolve}
use kris_ai.Trust.Checkpoints.{
  AuditCheckpoint, to_json, with_signature, ChainReport, final_head, wrong_head, create_checkpoint,
  verify_chain,
}
use kris_ai.Trust.Checkpoints.Laws.{IsChain, verify_chain-IsChain}
use kris_ai.Trust.Checkpoints.Extension.{create_checkpoint-verify_chain}

-- A library for the runs: a signature is one byte, the length of the seed.
abbrev is_one_byte : List ℕ → List ℕ → Bool
is_one_byte (k ∷ []) (b ∷ []) = eqb k b
is_one_byte _ _ = false

abbrev toy : Ed25519
toy = record {
  derive = λ seed. length seed ∷ [];
  make = λ seed message. length seed ∷ [];
  check = λ public message signature. is_one_byte public signature;
}

abbrev eight : List ℕ
eight = 1 ∷ 2 ∷ 3 ∷ 4 ∷ 5 ∷ 6 ∷ 7 ∷ 8 ∷ []

abbrev seed : List ℕ
seed = eight ++ (eight ++ (eight ++ eight))

seed_law : SignsWith toy seed
seed_law = record { are_bytes = λ message. (omega arith, tt); is_valid = λ message. refl }

three_bytes : from_hex (hex (0 ∷ 171 ∷ 255 ∷ [])) ≡ some (0 ∷ 171 ∷ 255 ∷ [])
three_bytes = from_hex-hex (0 ∷ 171 ∷ 255 ∷ []) (omega arith, (omega arith, (omega arith, tt)))

-- Instants are texts of one letter or a `Z`.
abbrev read_time : String → Option ℤ
read_time String.[] = none
read_time (String.◌∷◌ c s) = some (pos (Prim.Native.Char.code c))

abbrev trusted_key : TrustKey
trusted_key = record {
  public_key = 32 ∷ [];
  intended_uses = "release" ∷ [];
  trust_domains = "kristin" ∷ [];
  revoked = false;
}

abbrev keyring : ExternalKeyring
keyring = ("k", trusted_key) ∷ []

abbrev manifest : Fields
manifest = field "schemaVersion" (str "2.0.0") (
    field "keyId" (str "k") (
      field "intendedUse" (str "release") (
        field "trustDomain" (str "kristin") (
          field "issuedAt" (str "a")
            (field "expiresAt" (str "c") (field "payload" (obj end) end))))))

abbrev signed_manifest : Fields
signed_manifest = field "schemaVersion" (str "2.0.0") (
    field "keyId" (str "k") (
      field "intendedUse" (str "release") (
        field "trustDomain" (str "kristin") (
          field "issuedAt" (str "a") (
            field "expiresAt" (str "c")
              (field "payload" (obj end) (field "signature" (str "20") end)))))))

signed_once : sign_manifest toy manifest seed ≡ ok signed_manifest
unfolding sign_manifest
signed_once = refl

abbrev now : ℤ
now = pos 98

manifest-IsAdmitted :
    IsAdmitted toy read_time manifest keyring now (some "release") none trusted_key
unfolding find lookup kris_ai.Base.elem kris_ai.Trust.Manifest.time_at
    kris_ai.Trust.Manifest.text_or_empty kris_ai.Base.Json.Access.get
manifest-IsAdmitted = record {
  issued = pos 97;
  expires = pos 99;
  version = refl;
  known = refl;
  not_revoked = refl;
  use_allowed = refl;
  domain_allowed = refl;
  use_expected = refl;
  domain_expected = tt;
  issued_at = refl;
  expires_at = refl;
  is_issued = refl;
  not_expired = refl;
}

sign_manifest-verify_manifest_example :
    verify_manifest toy read_time signed_manifest keyring now (some "release") none ≡ ok manifest
unfolding sign_manifest find
sign_manifest-verify_manifest_example =
    sign_manifest-verify_manifest toy read_time seed manifest signed_manifest keyring now
      (some "release") none trusted_key refl seed_law refl manifest-IsAdmitted refl

verify_manifest_complete_example :
    (verify_manifest toy read_time signed_manifest keyring now none none ≡ ok manifest) ↔ (
      IsTrusted toy read_time signed_manifest keyring now none none
      × (manifest ≡ signing_body signed_manifest))
verify_manifest_complete_example =
    verify_manifest_complete toy read_time signed_manifest keyring now none none manifest

version_2 :
    (◌≡◌ {A = String} "signed_manifest_v2" "signed_manifest_v2")
    × (kris_ai.Trust.Manifest.text_or_empty (kris_ai.Base.Json.Access.get "schemaVersion" manifest)
        ≡ "2.0.0")
    × (find "hmac" manifest ≡ none)
unfolding classify_manifest kris_ai.Base.elem
version_2 = classify_manifest-ok manifest "signed_manifest_v2" "hmac" refl refl

abbrev handle : ProtectedKeyHandle
handle = record {
  key_id = "k";
  purpose = "release";
  provider = "external_hsm";
  reference = "slot-1";
  public_key_hex = "20";
  trust_domain = "kristin";
  status = "active";
}

abbrev other_handle : ProtectedKeyHandle
other_handle = record {
  key_id = "l";
  purpose = "release";
  provider = "external_hsm";
  reference = "slot-2";
  public_key_hex = "21";
  trust_domain = "kristin";
  status = "active";
}

register_again : register handle (("k", as_revoked handle) ∷ []) ≡ raise "duplicate_key_id"
unfolding register
register_again = refl

revoke-resolve_example :
    resolve "k" "release" "kristin" (("k", as_revoked handle) ∷ ("l", other_handle) ∷ [])
    ≡ raise "key_revoked"
unfolding revoke register
revoke-resolve_example =
    revoke-resolve "k" "release" "kristin" (as_revoked handle) (("k", handle) ∷ [])
      (("k", as_revoked handle) ∷ []) (("k", as_revoked handle) ∷ ("l", other_handle) ∷ []) refl
      (after (registered other_handle refl) done)

abbrev hash_text : String → String
hash_text s = "#"

abbrev checkpoint_1 : AuditCheckpoint
checkpoint_1 = record {
  sequence = pos 1;
  event_count = pos 5;
  previous_checkpoint_hash = "";
  audit_head_hash = "a";
  key_id = "k";
  signature_hex = "20";
}

abbrev checkpoint_2 : AuditCheckpoint
checkpoint_2 = record {
  sequence = pos 2;
  event_count = pos 9;
  previous_checkpoint_hash = "#";
  audit_head_hash = "b";
  key_id = "k";
  signature_hex = "20";
}

abbrev public_keys : Dict (List ℕ)
public_keys = ("k", 32 ∷ []) ∷ []

abbrev report_1 : ChainReport
report_1 = record { checkpoint_count = 1; final_checkpoint_hash = "#"; final_audit_head_hash = "a" }

abbrev report_2 : ChainReport
report_2 = record { checkpoint_count = 2; final_checkpoint_hash = "#"; final_audit_head_hash = "b" }

reordered :
    verify_chain toy hash_text (checkpoint_2 ∷ []) public_keys none ≡ raise "checkpoint_reordered"
unfolding verify_chain
reordered = refl

verify_chain-IsChain_example :
    (verify_chain toy hash_text (checkpoint_1 ∷ []) public_keys (some "a") ≡ ok report_1) ↔ (
      IsChain toy hash_text public_keys "" (pos 0) (pos 0) (checkpoint_1 ∷ []) "#"
      × (wrong_head (some "a") (checkpoint_1 ∷ []) ≡ false)
      × (1 ≡ length (checkpoint_1 ∷ []))
      × ("a" ≡ final_head (checkpoint_1 ∷ [])))
verify_chain-IsChain_example =
    verify_chain-IsChain toy hash_text (checkpoint_1 ∷ []) public_keys (some "a") report_1

create_checkpoint-verify_chain_example :
    verify_chain toy hash_text (checkpoint_1 ∷ checkpoint_2 ∷ []) public_keys none ≡ ok report_2
unfolding verify_chain create_checkpoint lookup kris_ai.Trust.Checkpoints.Extension.last_sequence
    kris_ai.Trust.Checkpoints.Extension.last_events
create_checkpoint-verify_chain_example =
    create_checkpoint-verify_chain toy hash_text public_keys seed (checkpoint_1 ∷ []) none
      checkpoint_2 checkpoint_2 report_1 refl refl seed_law refl refl refl refl
