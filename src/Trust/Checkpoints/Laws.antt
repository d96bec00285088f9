-- ===== src/Trust/Checkpoints/Laws.antt =====
-- What a verified chain of checkpoints is, and that a new checkpoint extends it.
use kris_ai.Base.{
  not-true, ℕ, ℤ, pos, ◌+ℤ◌, equal_ℤ, leb_ℤ, String, ◌≡◌, ◌↔◌, refl, sym, ap, ◌∙◌, ◌==◌, true,
  false, not, Option, none, some, List, [], ◌∷◌, length, eq_iff,
}
use kris_ai.Base.Outcome.{ok, >>=-elim, ok-injective, refuse_if-eq-ok}
use kris_ai.Base.Dict.{Dict, lookup}
use kris_ai.Base.Json.{obj}
use kris_ai.Trust.Bytes.{from_hex}
use kris_ai.Trust.Ed25519.{Ed25519, verify}
use kris_ai.Base.Json.Print.{dumps}
use kris_ai.Trust.Checkpoints.{
  AuditCheckpoint, body, to_json, ChainReport, public_of, bytes_of, final_head, wrong_head,
  check_link, checkpoint_hash, verify_links, verify_chain,
}

public_of-ok : (o : Option (List ℕ)) (public : List ℕ) → public_of o ≡ ok public → o ≡ some public
public_of-ok none public h = cc
public_of-ok (some x) public h = cc

bytes_of-ok : (o : Option (List ℕ)) (bytes : List ℕ) → bytes_of o ≡ ok bytes → o ≡ some bytes
bytes_of-ok none bytes h = cc
bytes_of-ok (some x) bytes h = cc

module _ (library : Ed25519) where
  -- What a checkpoint needs after the one before it: the next sequence number, more events, the hash
  -- of the one before, and a signature that is valid for a known signer.
  pub record IsLinked (public_keys : Dict (List ℕ)) (previous_hash : String)
      (previous_sequence previous_event_count : ℤ) (c : AuditCheckpoint) : Type 0 where
    pub public : List ℕ
    pub signature : List ℕ
    pub next : equal_ℤ c.sequence (previous_sequence +ℤ pos 1) ≡ true
    pub advances : leb_ℤ c.event_count previous_event_count ≡ false
    pub hash : c.previous_checkpoint_hash ≡ previous_hash
    pub signer : lookup c.key_id public_keys ≡ some public
    pub decoded : from_hex c.signature_hex ≡ some signature
    pub valid : verify library public (dumps (obj (body c))) signature ≡ true

  check_link-IsLinked :
      (public_keys : Dict (List ℕ)) (previous_hash : String)
      (previous_sequence previous_event_count : ℤ) (c : AuditCheckpoint) (done : Unit {0})
      → check_link library public_keys previous_hash previous_sequence previous_event_count c
        ≡ ok done
      → IsLinked public_keys previous_hash previous_sequence previous_event_count c
  unfolding check_link
  check_link-IsLinked public_keys previous_hash previous_sequence previous_event_count c done h0 =
      let (a, h1) =
        refuse_if-eq-ok (not (equal_ℤ c.sequence (previous_sequence +ℤ pos 1))) _ _ h0 in
      let (b, h2) = refuse_if-eq-ok (leb_ℤ c.event_count previous_event_count) _ _ h1 in
      let (d, h3) = refuse_if-eq-ok (not (c.previous_checkpoint_hash == previous_hash)) _ _ h2 in
      >>=-elim (public_of (lookup c.key_id public_keys)) _ h3 (λ public e h4.
        >>=-elim (bytes_of (from_hex c.signature_hex)) _ h4 (λ signature f h5.
          let (v, _) =
            refuse_if-eq-ok (not (verify library public (dumps (obj (body c))) signature)) _ _ h5 in
          record {
            public = public;
            signature = signature;
            next = not-true (equal_ℤ c.sequence (previous_sequence +ℤ pos 1)) a;
            advances = b;
            hash =
                (eq_iff c.previous_checkpoint_hash previous_hash).0
                  (not-true (c.previous_checkpoint_hash == previous_hash) d);
            signer = public_of-ok (lookup c.key_id public_keys) public e;
            decoded = bytes_of-ok (from_hex c.signature_hex) signature f;
            valid = not-true (verify library public (dumps (obj (body c))) signature) v;
          }))

  IsLinked-check_link :
      (public_keys : Dict (List ℕ)) (previous_hash : String)
      (previous_sequence previous_event_count : ℤ) (c : AuditCheckpoint)
      → IsLinked public_keys previous_hash previous_sequence previous_event_count c
      → check_link library public_keys previous_hash previous_sequence previous_event_count c
        ≡ ok tt
  unfolding check_link
  IsLinked-check_link public_keys previous_hash previous_sequence previous_event_count c l =
      rw
        (
          l.next,
          l.advances,
          (eq_iff c.previous_checkpoint_hash previous_hash).1 l.hash,
          l.signer,
          l.decoded,
          l.valid,
        )
        refl

  module _ (sha256 : String → String) (public_keys : Dict (List ℕ)) where
    -- The checkpoints are linked one after the other, from a hash, sequence number and event count;
    -- the hash of the last one is the one given.
    unfoldable pub IsChain : String → ℤ → ℤ → List AuditCheckpoint → String → Type 0
    IsChain previous_hash previous_sequence previous_event_count [] final = previous_hash ≡ final
    IsChain previous_hash previous_sequence previous_event_count (c ∷ rest) final =
        IsLinked public_keys previous_hash previous_sequence previous_event_count c
        × IsChain (sha256 (dumps (obj (to_json c)))) c.sequence c.event_count rest final

    links-IsChain :
        (h : String) (n e : ℤ) (items : List AuditCheckpoint) (final : String)
        → verify_links library sha256 public_keys h n e items ≡ ok final
        → IsChain h n e items final
    unfolding verify_links checkpoint_hash IsChain
    links-IsChain h n e [] final eq = ok-injective h final eq
    links-IsChain h n e (c ∷ rest) final eq =
        >>=-elim (check_link library public_keys h n e c) _ eq (λ done a eq1. (
          check_link-IsLinked public_keys h n e c done a,
          links-IsChain (sha256 (dumps (obj (to_json c)))) c.sequence c.event_count rest final eq1,
        ))

    IsChain-links :
        (h : String) (n e : ℤ) (items : List AuditCheckpoint) (final : String)
        → IsChain h n e items final
        → verify_links library sha256 public_keys h n e items ≡ ok final
    unfolding verify_links checkpoint_hash IsChain
    IsChain-links h n e [] final i = ap ok i
    IsChain-links h n e (c ∷ rest) final (l, i) =
        rw (IsLinked-check_link public_keys h n e c l)
          (IsChain-links (sha256 (dumps (obj (to_json c)))) c.sequence c.event_count rest final i)

  module _ (sha256 : String → String) (items : List AuditCheckpoint) (public_keys : Dict (List ℕ))
      (expected : Option String) where
    -- A chain is verified exactly when its checkpoints are linked from the empty hash and the numbers
    -- zero, and its last audit head is the one that is expected, if any; the report has the number of
    -- checkpoints, the hash of the last one and its audit head.
    pub verify_chain-IsChain :
        (report : ChainReport)
        → (verify_chain library sha256 items public_keys expected ≡ ok report) ↔ (
            IsChain sha256 public_keys "" (pos 0) (pos 0) items report.final_checkpoint_hash
            × (wrong_head expected items ≡ false)
            × (report.checkpoint_count ≡ length items)
            × (report.final_audit_head_hash ≡ final_head items))
    unfolding verify_chain
    verify_chain-IsChain report = (
      λ h0.
          >>=-elim (verify_links library sha256 public_keys "" (pos 0) (pos 0) items) _ h0
            (λ hash a h1.
              let (b, h2) = refuse_if-eq-ok (wrong_head expected items) _ _ h1 in
              let e = sym (ok-injective _ report h2) in
              (
                links-IsChain sha256 public_keys "" (pos 0) (pos 0) items
                    report.final_checkpoint_hash
                    (a ∙ ap ok (ap ChainReport.final_checkpoint_hash (sym e))),
                b,
                ap ChainReport.checkpoint_count e,
                ap ChainReport.final_audit_head_hash e,
              )),
      λ (chain, b, n, f).
          rw
            (
              IsChain-links sha256 public_keys "" (pos 0) (pos 0) items report.final_checkpoint_hash
                  chain,
              b,
            )
            (ap ok (λ i. record {
              checkpoint_count = sym n i;
              final_checkpoint_hash = report.final_checkpoint_hash;
              final_audit_head_hash = sym f i;
            })),
    )
