-- ===== src/Policy/Approval.antt =====
-- `_valid_approval`: who approved, and why an approval does not count.
pub mod Laws
use kris_ai.Base.{
  String, ◌==◌, ◌&&◌, ◌||◌, not, Bool, true, false, Option, none, some, List, [], ◌∷◌, elem,
  is_blank, if◌then◌else◌,
}
use kris_ai.Base.Outcome.{Outcome, ok, raise}
use kris_ai.Base.Json.{Json, null, bool, int, real, str, arr, obj, Fields, end, field}
use kris_ai.Base.Json.Access.{get, is_true}

abbrev pub trusted_approval_sources : List String
trusted_approval_sources = "owner" ∷ "organization_policy" ∷ []

-- `source in _TRUSTED_APPROVAL_SOURCES`; a value that cannot be hashed raises `TypeError`.
unfoldable pub is_trusted : Json → Outcome Bool
unfolding elem
is_trusted (str source) = ok (elem source trusted_approval_sources)
is_trusted (arr xs) = raise "TypeError: unhashable type"
is_trusted (obj fs) = raise "TypeError: unhashable type"
is_trusted _ = ok false

-- `isinstance(value, str) and value.strip()`
unfoldable pub is_named : Json → Bool
is_named (str s) = not (is_blank s)
is_named _ = false

abbrev pub is_end : Fields → Bool
is_end end = true
is_end (field k v rest) = false

-- The result of the tests on an approval that says it is one.
unfoldable pub judge : Bool → Bool → Bool × Option String
judge trusted named =
    if not trusted
    then (false, some "untrusted_authority_source")
    else if not named
    then (false, some "approval_identity_missing")
    else (true, none)

unfoldable pub judge_source : Outcome Bool → Bool → Outcome (Bool × Option String)
unfolding judge
judge_source (raise message) named = raise message
judge_source (ok trusted) named = ok (judge trusted named)

unfoldable pub valid_approval : Fields → Outcome (Bool × Option String)
unfolding judge_source is_trusted is_named get
valid_approval value =
    if is_end value
    then ok (false, none)
    else if is_true (get "approved" value)
    then judge_source (is_trusted (get "source" value)) (is_named (get "approvalId" value))
    else ok (false, none)
