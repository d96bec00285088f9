-- ===== src/Policy/Approval/Laws.antt =====
-- When an approval counts.
use kris_ai.Base.{◌≡◌, ◌↔◌, refl, Bool, true, false, none, if◌then◌else◌}
use kris_ai.Base.Outcome.{Outcome, ok, raise}
use kris_ai.Base.Json.{Fields, end, field}
use kris_ai.Base.Json.Access.{get, is_true}
use kris_ai.Policy.Approval.{valid_approval, judge, judge_source, is_trusted, is_named}

-- An approval that counts: somebody trusted says so, under a name.
pub record IsApproval (value : Fields) : Type 0 where
  pub approved : is_true (get "approved" value) ≡ true
  pub source : is_trusted (get "source" value) ≡ ok true
  pub named : is_named (get "approvalId" value) ≡ true

judge_source-approved :
    (trusted : Outcome Bool) (named : Bool)
    → (judge_source trusted named ≡ ok (true, none)) ↔ ((trusted ≡ ok true) × (named ≡ true))
unfolding judge_source judge
judge_source-approved (raise m) named = (λ h. cc, λ h. cc)
judge_source-approved (ok true) true = (λ h. (refl, refl), λ h. refl)
judge_source-approved (ok true) false = (λ h. cc, λ h. cc)
judge_source-approved (ok false) named = (λ h. cc, λ h. cc)

approved_if :
    (approved : Bool) (trusted : Outcome Bool) (named : Bool)
    → ((if approved then judge_source trusted named else ok (false, none)) ≡ ok (true, none))
      ↔ ((approved ≡ true) × (trusted ≡ ok true) × (named ≡ true))
approved_if false trusted named = (λ h. cc, λ h. cc)
approved_if true trusted named = (
  λ h. (let (t, n) = (judge_source-approved trusted named).0 h in (refl, t, n)),
  λ (a, t, n). (judge_source-approved trusted named).1 (t, n),
)

-- `_valid_approval` returns `(True, None)` exactly for an object whose `approved` is `True`, whose
-- source is the owner or the organization policy, and whose identifier is not blank.
pub valid_approval-IsApproval :
    (value : Fields) → (valid_approval value ≡ ok (true, none)) ↔ IsApproval value
unfolding valid_approval get
valid_approval-IsApproval end = (λ h. cc, λ a. let a_approved = a.approved in cc)
valid_approval-IsApproval (field k v rest) =
    let value = field k v rest in
    let both =
      approved_if (is_true (get "approved" value)) (is_trusted (get "source" value))
        (is_named (get "approvalId" value)) in
    (
      λ h. let (a, t, n) = both.0 h in record { approved = a; source = t; named = n },
      λ a. both.1 (a.approved, a.source, a.named),
    )
