-- ===== src/Release/Audit/Laws.antt =====
-- What a verified chain is, and that appending keeps it verified.
use mathlib.Core.Path.{subst}
use kris_ai.Base.{
  ap₂, suc, length-append, ℕ, ◌+◌, ℤ, pos, equal_ℤ, String, ◌≡◌, ◌↔◌, refl, sym, ap, ◌∙◌, ◌==◌,
  Bool, true, false, not, Option, none, some, List, [], ◌∷◌, ◌++◌, length, eq_iff, eq_refl, arith,
  if◌then◌else◌,
}
use kris_ai.Base.Json.{Fields}
use kris_ai.Release.Signing.{sha256_json}
use kris_ai.Release.Audit.{
  AuditRecord, candidate_of, head_of, equal_heads, ChainVerdict, verified, next_record,
  append_audit_record, failure_of, verdict_of, verify_from, verify_audit_chain,
}

equal_ℤ-eq : (a : ℤ) (n : ℕ) → equal_ℤ a (pos n) ≡ true → a ≡ pos n
equal_ℤ-eq a n h = ground arith

equal_heads-eq : (a b : Option String) → equal_heads a b ≡ true → a ≡ b
equal_heads-eq none none h = refl
equal_heads-eq none (some b) h = cc
equal_heads-eq (some a) none h = cc
equal_heads-eq (some a) (some b) h = ap some ((eq_iff a b).0 h)

equal_ℤ_self : (a : ℤ) (n : ℕ) → a ≡ pos n → equal_ℤ a (pos n) ≡ true
equal_ℤ_self a n h = ground arith

equal_heads_refl : (a : Option String) → equal_heads a a ≡ true
equal_heads_refl none = refl
equal_heads_refl (some a) = eq_refl a

three_tests :
    (a b c : Bool) (x y z : String)
    → (if not a then some x else if not b then some y else if not c then some z else none) ≡ none
    → (a ≡ true) × (b ≡ true) × (c ≡ true)
three_tests false b c x y z h = cc
three_tests true false c x y z h = cc
three_tests true true false x y z h = cc
three_tests true true true x y z h = (refl, refl, refl)

verdict_of-verified :
    (failure : Option String) (index : ℕ) (rest : ChainVerdict) (head : Option String) (count : ℕ)
    → verdict_of failure index rest ≡ verified head count
    → (failure ≡ none) × (rest ≡ verified head count)
unfolding verdict_of
verdict_of-verified none index rest head count h = (refl, h)
verdict_of-verified (some code) index rest head count h = cc

verified-injective :
    (a b : Option String) (m n : ℕ) → verified a m ≡ verified b n → (a ≡ b) × (m ≡ n)
verified-injective a b m n h = (cc, cc)

module _ (sha256 : String → String) where
  -- A chain: from an index on, each record has the next sequence number, the hash of the record
  -- before it, and its own hash.
  pub data IsChain : Option String → ℕ → List AuditRecord → Type 0 where
    nil : (previous : Option String) (index : ℕ) → IsChain previous index []
    cons :
        (previous : Option String) (index : ℕ) (r : AuditRecord) (rs : List AuditRecord)
        → r.sequence ≡ pos index
        → r.previous_sha256 ≡ previous
        → r.record_sha256 ≡ sha256_json sha256 (candidate_of r)
        → IsChain (some r.record_sha256) (index + 1) rs
        → IsChain previous index (r ∷ rs)

  -- The hash at the end.
  abbrev pub last_hash : Option String → List AuditRecord → Option String
  last_hash previous [] = previous
  last_hash previous (r ∷ rs) = last_hash (some r.record_sha256) rs

  failure_of-none :
      (previous : Option String) (index : ℕ) (r : AuditRecord)
      → failure_of sha256 previous index r ≡ none
      → (r.sequence ≡ pos index)
        × (r.previous_sha256 ≡ previous)
        × (r.record_sha256 ≡ sha256_json sha256 (candidate_of r))
  unfolding failure_of
  failure_of-none previous index r h =
      let (a, b, c) =
        three_tests (equal_ℤ r.sequence (pos index)) (equal_heads r.previous_sha256 previous)
          (r.record_sha256 == sha256_json sha256 (candidate_of r)) _ _ _ h in
      (
        equal_ℤ-eq r.sequence index a,
        equal_heads-eq r.previous_sha256 previous b,
        (eq_iff r.record_sha256 (sha256_json sha256 (candidate_of r))).0 c,
      )

  none-failure_of :
      (previous : Option String) (index : ℕ) (r : AuditRecord)
      → r.sequence ≡ pos index
      → r.previous_sha256 ≡ previous
      → r.record_sha256 ≡ sha256_json sha256 (candidate_of r)
      → failure_of sha256 previous index r ≡ none
  unfolding failure_of
  none-failure_of previous index r a b c = rw (
    equal_ℤ_self r.sequence index a,
    subst (λ h. equal_heads r.previous_sha256 h ≡ true) b (equal_heads_refl r.previous_sha256),
    (eq_iff r.record_sha256 (sha256_json sha256 (candidate_of r))).1 c,
  )

  -- What the loop returns on a chain.
  verify_from-IsChain :
      (total : ℕ) (previous : Option String) (index : ℕ) (rs : List AuditRecord)
      → IsChain previous index rs
      → verify_from sha256 total previous index rs ≡ verified (last_hash previous rs) total
  unfolding verify_from
  verify_from-IsChain total previous index [] c = refl
  verify_from-IsChain total previous index (r ∷ rs) (cons _ _ _ _ a b h rest) =
      rw (none-failure_of previous index r a b h)
        (verify_from-IsChain total (some r.record_sha256) (index + 1) rs rest)

  -- A chain is what the loop verifies.
  IsChain-verify_from :
      (total : ℕ) (previous : Option String) (index : ℕ) (rs : List AuditRecord)
      (head : Option String) (count : ℕ)
      → verify_from sha256 total previous index rs ≡ verified head count
      → IsChain previous index rs
  unfolding verify_from
  IsChain-verify_from total previous index [] head count h = nil previous index
  IsChain-verify_from total previous index (r ∷ rs) head count h =
      let (passed, rest) =
        verdict_of-verified (failure_of sha256 previous index r) index
          (verify_from sha256 total (some r.record_sha256) (index + 1) rs) head count h in
      let (a, b, c) = failure_of-none previous index r passed in
      cons previous index r rs a b c
        (IsChain-verify_from total (some r.record_sha256) (index + 1) rs head count rest)

  -- `verify_audit_chain` answers that a list is verified, with a head and a count, exactly when the
  -- list is a chain from index 1 with no hash before it, the head is the hash of its last record and
  -- the count is the number of its records. So a list that is no chain is never verified.
  pub verify_audit_chain-IsChain :
      (records : List AuditRecord) (head : Option String) (count : ℕ)
      → (verify_audit_chain sha256 records ≡ verified head count)
        ↔ (IsChain none 1 records × (head ≡ last_hash none records) × (count ≡ length records))
  unfolding verify_audit_chain
  verify_audit_chain-IsChain records head count = (
    λ h.
        let c = IsChain-verify_from (length records) none 1 records head count h in
        let same = sym h ∙ verify_from-IsChain (length records) none 1 records c in
        let (h', n) =
          verified-injective head (last_hash none records) count (length records) same in
        (c, h', n),
    λ (c, h, n).
        verify_from-IsChain (length records) none 1 records c ∙ ap₂ verified (sym h) (sym n),
  )

  append-IsChain :
      (previous : Option String) (index : ℕ) (rs : List AuditRecord) (r : AuditRecord)
      → IsChain previous index rs
      → r.sequence ≡ pos (index + length rs)
      → r.previous_sha256 ≡ last_hash previous rs
      → r.record_sha256 ≡ sha256_json sha256 (candidate_of r)
      → IsChain previous index (rs ++ r ∷ [])
  append-IsChain previous index [] r c a b h =
      cons previous index r [] (a ∙ ap pos (omega arith)) b h (nil _ _)
  append-IsChain previous index (s ∷ rs) r (cons _ _ _ _ x y z rest) a b h =
      cons previous index s (rs ++ r ∷ []) x y z
        (append-IsChain (some s.record_sha256) (index + 1) rs r rest (a ∙ ap pos (omega arith)) b h)

  last_hash-head_of :
      (previous : Option String) (r : AuditRecord) (rs : List AuditRecord)
      → last_hash previous (r ∷ rs) ≡ head_of (r ∷ rs)
  unfolding head_of
  last_hash-head_of previous r [] = refl
  last_hash-head_of previous r (s ∷ rs) = last_hash-head_of (some r.record_sha256) s rs

  last_hash-head : (rs : List AuditRecord) → last_hash none rs ≡ head_of rs
  unfolding head_of
  last_hash-head [] = refl
  last_hash-head (r ∷ rs) = last_hash-head_of none r rs

  -- Appending to a chain adds one record behind the records that are there, of the given kind,
  -- payload and instant, and the longer list is a chain again.
  pub append_audit_record-IsChain :
      (records : List AuditRecord) (kind : String) (payload : Fields) (now : String)
      → IsChain none 1 records
      → (r : AuditRecord) × (append_audit_record sha256 records kind payload now
          ≡ (records ++ r ∷ []))
        × (r.kind ≡ kind)
        × (r.payload ≡ payload)
        × (r.created_at ≡ now)
        × (length (append_audit_record sha256 records kind payload now) ≡ suc (length records))
        × IsChain none 1 (append_audit_record sha256 records kind payload now)
  unfolding append_audit_record candidate_of
  append_audit_record-IsChain records kind payload now c =
      let r = next_record sha256 records kind payload now in
      (
        r,
        refl,
        refl,
        refl,
        refl,
        omega (arith, length-append records (r ∷ [])),
        append-IsChain none 1 records r c (ap pos (omega arith)) (sym (last_hash-head records))
            refl,
      )
