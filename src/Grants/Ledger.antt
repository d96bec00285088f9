-- ===== src/Grants/Ledger.antt =====
-- `GrantUseLedger` with `consume`. A `GrantVerificationError` is held by its code.
pub mod Laws
use kris_ai.Base.{
  ℕ, suc, ◌+◌, ℤ, pos, leb_ℤ, String, ◌<>◌, ◌==◌, Bool, true, false, not, ◌&&◌, ◌||◌, Option, none,
  some, List, [], ◌∷◌, strip, if◌then◌else◌,
}
use kris_ai.Base.Outcome.{Outcome, ok, raise, ◌>>=◌, ◌>>◌, refuse_if}
use kris_ai.Base.Dict.{Dict, lookup, insert}
use kris_ai.Base.Json.{Json, null, bool, int, real, str, arr, obj, Fields}
use kris_ai.Base.Json.Access.{get, find, as_int}

unfoldable pub require_string : Json → String → Outcome String
unfolding strip
require_string (str s) name =
    let trimmed = strip s in
    if trimmed == "" then raise (name <> " must be a non-empty string") else ok trimmed
require_string _ name = raise (name <> " must be a non-empty string")

pub record GrantUseLedger : Type 0 where
  pub uses_by_grant : Dict ℕ
  pub invocations : List (String × String)
  pub nonce_owner : Dict String

-- `GrantUseLedger.__init__`
abbrev pub new_ledger : GrantUseLedger
new_ledger = record { uses_by_grant = []; invocations = []; nonce_owner = [] }

-- `(grant_id, invocation) in self.invocations`
unfoldable pub has_token : String → String → List (String × String) → Bool
has_token grant invocation [] = false
has_token grant invocation ((g, i) ∷ tokens) =
    (g == grant && i == invocation) || has_token grant invocation tokens

-- `owner is not None and owner != grant_id`
abbrev pub owned_by_other : Option String → String → Bool
owned_by_other none grant = false
owned_by_other (some owner) grant = not (owner == grant)

-- `self.uses_by_grant.get(grant_id, 0)`
abbrev pub count_or_zero : Option ℕ → ℕ
count_or_zero none = 0
count_or_zero (some n) = n

unfoldable pub uses : GrantUseLedger → String → ℕ
unfolding lookup
uses ledger grant = count_or_zero (lookup grant ledger.uses_by_grant)

-- `int(grant["validity"]["maxUses"])`. A text or a float is taken for a wrong value: the validation
-- of a grant refuses both.
unfoldable pub limit_in : Option Json → Outcome ℤ
unfolding find
limit_in (some (obj validity)) = limit_of (find "maxUses" validity)
  where
    limit_at : Option ℤ → Outcome ℤ
    limit_at none = raise "ValueError: maxUses"
    limit_at (some n) = ok n

    limit_of : Option Json → Outcome ℤ
    limit_of none = raise "KeyError: maxUses"
    limit_of (some value) = limit_at (as_int value)
limit_in (some _) = raise "TypeError: validity"
limit_in none = raise "KeyError: validity"

unfoldable pub max_uses : Fields → Outcome ℤ
unfolding limit_in find
max_uses grant = limit_in (find "validity" grant)

-- The ledger after a use that was accepted.
unfoldable pub record_use : GrantUseLedger → String → String → String → GrantUseLedger
unfolding insert uses
record_use ledger grant nonce invocation = record {
  uses_by_grant = insert grant (uses ledger grant + 1) ledger.uses_by_grant;
  invocations = (grant, invocation) ∷ ledger.invocations;
  nonce_owner = insert nonce grant ledger.nonce_owner;
}

unfoldable pub consume : GrantUseLedger → Fields → String → Outcome GrantUseLedger
unfolding require_string has_token lookup max_uses uses record_use get
consume ledger grant invocation_id = do
  grant_id ← require_string (get "grantId" grant) "grantId"
  nonce ← require_string (get "nonce" grant) "nonce"
  invocation ← require_string (str invocation_id) "invocationId"
  refuse_if (owned_by_other (lookup nonce ledger.nonce_owner) grant_id) "grant_replayed"
  refuse_if (has_token grant_id invocation ledger.invocations) "grant_replayed"
  limit ← max_uses grant
  refuse_if (leb_ℤ limit (pos (uses ledger grant_id))) "grant_exhausted"
  ok (record_use ledger grant_id nonce invocation)
