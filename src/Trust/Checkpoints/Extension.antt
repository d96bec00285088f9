-- ===== src/Trust/Checkpoints/Extension.antt =====
-- A new checkpoint extends a verified chain.
use mathlib.Core.Path.{subst}
use kris_ai.Base.{
  ℕ, suc, ℤ, pos, ◌+ℤ◌, equal_ℤ, leb_ℤ, String, ◌≡◌, refl, sym, ap, ◌∙◌, true, false, Option, none,
  some, List, [], ◌∷◌, ◌++◌, length-append, get_last?-append, arith,
}
use kris_ai.Base.Outcome.{ok, >>=-elim, ok-injective}
use kris_ai.Base.Dict.{Dict, lookup}
use kris_ai.Base.Json.{obj}
use kris_ai.Base.Json.Print.{dumps}
use kris_ai.Trust.Bytes.{hex}
use kris_ai.Trust.Bytes.Laws.{from_hex-hex}
use kris_ai.Trust.Ed25519.{Ed25519, sign, verify}
use kris_ai.Trust.Ed25519.Laws.{SignsWith, made_by}
use kris_ai.Trust.Checkpoints.{
  AuditCheckpoint, body, to_json, with_signature, ChainReport, final_head, create_checkpoint,
  verify_chain,
}
use kris_ai.Trust.Checkpoints.Laws.{IsLinked, IsChain, verify_chain-IsChain}

-- The sequence number and the event count where the loop ends.
unfoldable pub last_sequence : ℤ → List AuditCheckpoint → ℤ
last_sequence n [] = n
last_sequence n (c ∷ rest) = last_sequence c.sequence rest

unfoldable pub last_events : ℤ → List AuditCheckpoint → ℤ
last_events e [] = e
last_events e (c ∷ rest) = last_events c.event_count rest

module _ (library : Ed25519) (sha256 : String → String) (public_keys : Dict (List ℕ)) where
  append-IsChain :
      (h : String) (n e : ℤ) (items : List AuditCheckpoint) (final : String) (c : AuditCheckpoint)
      → IsChain library sha256 public_keys h n e items final
      → IsLinked library public_keys final (last_sequence n items) (last_events e items) c
      → IsChain library sha256 public_keys h n e
          (items ++ c ∷ [])
          (sha256 (dumps (obj (to_json c))))
  unfolding IsChain last_sequence last_events
  append-IsChain h n e [] final c i l =
      (subst (λ x. IsLinked library public_keys x n e c) (sym i) l, refl)
  append-IsChain h n e (d ∷ rest) final c (k, i) l = (
    k,
    append-IsChain (sha256 (dumps (obj (to_json d)))) d.sequence d.event_count rest final c i l,
  )

  made-IsLinked :
      (seed : List ℕ) (c made : AuditCheckpoint) (h : String) (n e : ℤ)
      → create_checkpoint library c seed ≡ ok made
      → SignsWith library seed
      → lookup c.key_id public_keys ≡ some (library.derive seed)
      → equal_ℤ c.sequence (n +ℤ pos 1) ≡ true
      → leb_ℤ c.event_count e ≡ false
      → c.previous_checkpoint_hash ≡ h
      → IsLinked library public_keys h n e made
  unfolding create_checkpoint body verify
  made-IsLinked seed c made h n e h0 law known next advances hash =
      >>=-elim (sign library seed (dumps (obj (body c)))) _ h0 (λ signature a h1.
        let message = dumps (obj (body c)) in
        let e1 =
          ap (λ x. with_signature c (hex x)) (made_by library seed message signature a)
          ∙ ok-injective _ made h1 in
        subst (λ x. IsLinked library public_keys h n e x) e1
          (record {
            public = library.derive seed;
            signature = library.make seed message;
            next = next;
            advances = advances;
            hash = hash;
            signer = known;
            decoded = from_hex-hex (library.make seed message) (law.are_bytes message);
            valid = law.is_valid message;
          }))

  -- A checkpoint that is created after a verified chain, with the next sequence number, more events,
  -- the chain's final hash and a known key's seed, extends it: the longer chain is verified, has one
  -- checkpoint more and the new audit head.
  pub create_checkpoint-verify_chain :
      (seed : List ℕ) (items : List AuditCheckpoint) (expected : Option String)
      (c made : AuditCheckpoint) (report : ChainReport)
      → verify_chain library sha256 items public_keys expected ≡ ok report
      → create_checkpoint library c seed ≡ ok made
      → SignsWith library seed
      → lookup c.key_id public_keys ≡ some (library.derive seed)
      → equal_ℤ c.sequence (last_sequence (pos 0) items +ℤ pos 1) ≡ true
      → leb_ℤ c.event_count (last_events (pos 0) items) ≡ false
      → c.previous_checkpoint_hash ≡ report.final_checkpoint_hash
      → verify_chain library sha256 (items ++ made ∷ []) public_keys none
        ≡ ok (record {
          checkpoint_count = suc report.checkpoint_count;
          final_checkpoint_hash = sha256 (dumps (obj (to_json made)));
          final_audit_head_hash = made.audit_head_hash;
        })
  unfolding final_head kris_ai.Trust.Checkpoints.wrong_head
  create_checkpoint-verify_chain seed items expected c made report h0 h1 law known next advances
        hash =
      let (chain, _, count, _) =
        (verify_chain-IsChain library sha256 items public_keys expected report).0 h0 in
      (verify_chain-IsChain library sha256 (items ++ made ∷ []) public_keys none _).1 (
        append-IsChain "" (pos 0) (pos 0) items report.final_checkpoint_hash made chain (
            made-IsLinked seed c made report.final_checkpoint_hash _ _ h1 law known next advances
              hash),
        refl,
        omega (arith, count, length-append items (made ∷ [])),
        rw (final_head, get_last?-append items made) refl,
      )
