-- ===== src/Grants/Ledger/Laws.antt =====
-- A use is accepted once, and no more often than the grant says.
use mathlib.Core.Path.{subst}
use kris_ai.Base.{
  ℕ, ℤ, pos, ◌+◌, ◌≤◌, max, leb_ℤ, String, ◌≡◌, refl, sym, ap, ◌∙◌, Bool, true, false, some, List,
  [], ◌∷◌, eq_refl, arith,
}
use kris_ai.Base.Outcome.{
  Outcome, ok, raise, >>=-elim, ok-injective, ◌>>◌, refuse_if, refuse_if-eq-ok,
}
use kris_ai.Base.Dict.{lookup, insert, lookup-insert}
use kris_ai.Base.Json.{str, Fields}
use kris_ai.Base.Json.Access.{get}
use kris_ai.Grants.Ledger.{
  GrantUseLedger, require_string, has_token, owned_by_other, count_or_zero, uses, max_uses,
  record_use, consume,
}

-- What a use that was accepted had.
pub record IsUsed (before : GrantUseLedger) (grant : Fields) (invocation_id : String)
    (after : GrantUseLedger) : Type 0 where
  pub grant_id : String
  pub nonce : String
  pub invocation : String
  pub limit : ℤ
  pub is_grant : require_string (get "grantId" grant) "grantId" ≡ ok grant_id
  pub is_nonce : require_string (get "nonce" grant) "nonce" ≡ ok nonce
  pub is_invocation : require_string (str invocation_id) "invocationId" ≡ ok invocation
  pub is_limit : max_uses grant ≡ ok limit
  pub not_owned : owned_by_other (lookup nonce before.nonce_owner) grant_id ≡ false
  pub is_new : has_token grant_id invocation before.invocations ≡ false
  pub has_left : leb_ℤ limit (pos (uses before grant_id)) ≡ false
  pub is_after : record_use before grant_id nonce invocation ≡ after

pub consume-IsUsed :
    (before after : GrantUseLedger) (grant : Fields) (invocation_id : String)
    → consume before grant invocation_id ≡ ok after
    → IsUsed before grant invocation_id after
unfolding consume
consume-IsUsed before after grant invocation_id h0 =
    >>=-elim (require_string (get "grantId" grant) "grantId") _ h0 (λ grant_id e1 h1.
      >>=-elim (require_string (get "nonce" grant) "nonce") _ h1 (λ nonce e2 h2.
        >>=-elim (require_string (str invocation_id) "invocationId") _ h2 (λ invocation e3 h3.
          let (f1, h4) =
            refuse_if-eq-ok (owned_by_other (lookup nonce before.nonce_owner) grant_id)
              "grant_replayed" _ h3 in
          let (f2, h5) =
            refuse_if-eq-ok (has_token grant_id invocation before.invocations) "grant_replayed" _
              h4 in
          >>=-elim (max_uses grant) _ h5 (λ limit e4 h6.
            let (f3, h7) =
              refuse_if-eq-ok (leb_ℤ limit (pos (uses before grant_id))) "grant_exhausted" _ h6 in
            record {
              grant_id = grant_id;
              nonce = nonce;
              invocation = invocation;
              limit = limit;
              is_grant = e1;
              is_nonce = e2;
              is_invocation = e3;
              is_limit = e4;
              not_owned = f1;
              is_new = f2;
              has_left = f3;
              is_after = ok-injective (record_use before grant_id nonce invocation) after h7;
            }))))

uses-record_use :
    (ledger : GrantUseLedger) (grant nonce invocation : String)
    → uses (record_use ledger grant nonce invocation) grant ≡ uses ledger grant + 1
unfolding record_use uses
uses-record_use ledger grant nonce invocation =
    let n = count_or_zero (lookup grant ledger.uses_by_grant) in
    let found : lookup grant (insert grant (n + 1) ledger.uses_by_grant) ≡ some (n + 1) =
      ground (arith, lookup-insert grant grant (n + 1) ledger.uses_by_grant, eq_refl grant) in
    ap count_or_zero found

has_token-record_use :
    (ledger : GrantUseLedger) (grant nonce invocation g i : String)
    → has_token g i ledger.invocations ≡ true
    → has_token g i (record_use ledger grant nonce invocation).invocations ≡ true
unfolding record_use has_token
has_token-record_use ledger grant nonce invocation g i h = ground arith

has_token_self :
    (ledger : GrantUseLedger) (grant nonce invocation : String)
    → has_token grant invocation (record_use ledger grant nonce invocation).invocations ≡ true
unfolding record_use has_token
has_token_self ledger grant nonce invocation = ground (arith, eq_refl grant, eq_refl invocation)

-- `after` comes from `before` by uses that were accepted, of any grants.
pub data Later : GrantUseLedger → GrantUseLedger → Type 0 where
  stay : (ledger : GrantUseLedger) → Later ledger ledger
  used :
      (before next after : GrantUseLedger) (grant : Fields) (invocation_id : String)
      → consume before grant invocation_id ≡ ok next
      → Later next after
      → Later before after

has_token-Later :
    (before after : GrantUseLedger) (g i : String)
    → Later before after
    → has_token g i before.invocations ≡ true
    → has_token g i after.invocations ≡ true
has_token-Later before after g i (stay ledger) h = h
has_token-Later before after g i (used _ next _ grant invocation_id e rest) h =
    let u = consume-IsUsed before next grant invocation_id e in
    has_token-Later next after g i rest (
      subst (λ l. has_token g i l.invocations ≡ true) u.is_after
        (has_token-record_use before u.grant_id u.nonce u.invocation g i h))

twice :
    (owned : Bool) (rest : Outcome GrantUseLedger)
    → rest ≡ raise "grant_replayed"
    → (refuse_if owned "grant_replayed" >> rest) ≡ raise "grant_replayed"
twice true rest h = refl
twice false rest h = h

consume-replayed :
    (ledger : GrantUseLedger) (grant : Fields) (invocation_id grant_id nonce invocation : String)
    → require_string (get "grantId" grant) "grantId" ≡ ok grant_id
    → require_string (get "nonce" grant) "nonce" ≡ ok nonce
    → require_string (str invocation_id) "invocationId" ≡ ok invocation
    → has_token grant_id invocation ledger.invocations ≡ true
    → consume ledger grant invocation_id ≡ raise "grant_replayed"
unfolding consume
consume-replayed ledger grant invocation_id grant_id nonce invocation e1 e2 e3 h =
    rw (e1, e2, e3, h)
      (twice (owned_by_other (lookup nonce ledger.nonce_owner) grant_id) (raise "grant_replayed")
        refl)

-- A use that was accepted is refused ever after: whatever grants are used in between, the same
-- invocation of the same grant is a replay.
pub consume-Later :
    (before next after : GrantUseLedger) (grant : Fields) (invocation_id : String)
    → consume before grant invocation_id ≡ ok next
    → Later next after
    → consume after grant invocation_id ≡ raise "grant_replayed"
consume-Later before next after grant invocation_id e later =
    let u = consume-IsUsed before next grant invocation_id e in
    consume-replayed after grant invocation_id u.grant_id u.nonce u.invocation u.is_grant u.is_nonce
      u.is_invocation
      (has_token-Later next after u.grant_id u.invocation later (
        subst (λ l. has_token u.grant_id u.invocation l.invocations ≡ true) u.is_after
          (has_token_self before u.grant_id u.nonce u.invocation)))

module _ (grant : Fields) where
  -- A ledger to which the same grant is presented for several invocations, and how often it accepts.
  abbrev attempted : GrantUseLedger → Outcome GrantUseLedger → GrantUseLedger × ℕ
  attempted ledger (raise code) = (ledger, 0)
  attempted ledger (ok next) = (next, 1)

  unfoldable pub present : GrantUseLedger → List String → GrantUseLedger × ℕ
  unfolding consume
  present ledger [] = (ledger, 0)
  present ledger (i ∷ is) =
      let step = attempted ledger (consume ledger grant i) in
      let rest = present step.0 is in (rest.0, step.1 + rest.1)

  module _ (grant_id : String) (limit : ℕ)
      (is_grant : require_string (get "grantId" grant) "grantId" ≡ ok grant_id)
      (is_limit : max_uses grant ≡ ok (pos limit)) where
    uses-consume :
        (before after : GrantUseLedger) (i : String)
        → consume before grant i ≡ ok after
        → (uses after grant_id ≡ uses before grant_id + 1) × (uses after grant_id ≤ limit)
    uses-consume before after i e =
        let u = consume-IsUsed before after grant i e in
        let same = ok-injective u.grant_id grant_id (sym u.is_grant ∙ is_grant) in
        let bound = ok-injective u.limit (pos limit) (sym u.is_limit ∙ is_limit) in
        let one =
          ap (λ l. uses l u.grant_id) (sym u.is_after)
          ∙ uses-record_use before u.grant_id u.nonce u.invocation in
        let left =
          subst (λ g. leb_ℤ (pos limit) (pos (uses before g)) ≡ false) same
            (subst (λ n. leb_ℤ n (pos (uses before u.grant_id)) ≡ false) bound u.has_left) in
        let counted = subst (λ g. uses after g ≡ uses before g + 1) same one in
        (counted, ground (arith, left, counted))

    attempted-consume :
        (before : GrantUseLedger) (outcome : Outcome GrantUseLedger) (i : String)
        → consume before grant i ≡ outcome
        → (uses (attempted before outcome).0 grant_id
            ≡ uses before grant_id + (attempted before outcome).1)
          × (uses (attempted before outcome).0 grant_id ≤ max (uses before grant_id) limit)
    attempted-consume before (raise code) i e = (omega arith, omega arith)
    attempted-consume before (ok next) i e =
        let (counted, bound) = uses-consume before next i e in (counted, ground (arith, bound))

    -- However often a grant with an identifier and a natural number of uses is presented, with
    -- whatever invocations: the ledger counts exactly the uses that it accepts, and accepts none once
    -- the count has reached the grant's number of uses.
    pub present-uses :
        (ledger : GrantUseLedger) (is : List String)
        → (uses (present ledger is).0 grant_id ≡ uses ledger grant_id + (present ledger is).1)
          × (uses (present ledger is).0 grant_id ≤ max (uses ledger grant_id) limit)
    unfolding present
    present-uses ledger [] = (omega arith, omega arith)
    present-uses ledger (i ∷ is) =
        let step = attempted ledger (consume ledger grant i) in
        let (a, b) = attempted-consume ledger (consume ledger grant i) i refl in
        let (c, d) = present-uses step.0 is in (ground (arith, a, c), ground (arith, a, b, c, d))
