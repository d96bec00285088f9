-- ===== src/Policy/Overlays/Caps.antt =====
-- The limits of an overlay on the budgets, and on the approval policy.
use kris_ai.Base.{
  ℕ, ℤ, min_ℤ, min_ℤ-le, ◌≤ℤ◌, ≤ℤ_trans, ◌≤◌, max, String, ◌≡◌, refl, true, Option, none, some,
  List, elem, arith, ◌==◌, eq_iff, Bool-cases, inl, inr,
}
use kris_ai.Base.Outcome.{ok}
use kris_ai.Base.Dict.{Dict, lookup, insert, lookup-insert}
use kris_ai.Base.Json.{Fields, end, field}
use kris_ai.Base.Json.Access.{as_int}
use kris_ai.Policy.Scope.{natural}
use kris_ai.Policy.Sets.{approval_rank, approval_policy_stricter}
use kris_ai.Policy.Sets.Laws.{approval_policy_stricter-IsStricter}
use kris_ai.Policy.Overlays.{cap_budget, cap_budgets}

-- A budget is at most what it was.
abbrev pub Capped : Dict ℤ → Dict ℤ → Type 0
Capped before after =
    (name : String) (v : ℤ)
    → lookup name after ≡ some v
    → (w : ℤ) × (lookup name before ≡ some w) × (v ≤ℤ w)

abbrev pub Kept : List String → List String → Type 0
Kept before after = (z : String) → elem z before ≡ true → elem z after ≡ true

pub ≤ℤ_refl : (v : ℤ) → v ≤ℤ v
≤ℤ_refl v = omega arith

insert-Capped :
    (name : String) (old value : ℤ) (budgets : Dict ℤ)
    → lookup name budgets ≡ some old
    → Capped budgets (insert name (min_ℤ old value) budgets)
insert-Capped name old value budgets e key v h = elim (Bool-cases (name == key)) [
  | inl t ↦ (
    old,
    ground (arith, eq_iff name key),
    ground (arith, lookup-insert name key (min_ℤ old value) budgets, (min_ℤ-le old value).0),
  )
  | inr f ↦ (v, ground (arith, lookup-insert name key (min_ℤ old value) budgets), ≤ℤ_refl v)
]

cap_budget-Capped :
    (name : String) (old value : Option ℤ) (budgets : Dict ℤ) (reasons : List String)
    → lookup name budgets ≡ old
    → Capped budgets (cap_budget name old value (budgets, reasons)).0
unfolding cap_budget
cap_budget-Capped name (some old) (some value) budgets reasons e key v h =
    insert-Capped name old value budgets e key v h
cap_budget-Capped name none value budgets reasons e key v h = (v, h, ≤ℤ_refl v)
cap_budget-Capped name (some old) none budgets reasons e key v h = (v, h, ≤ℤ_refl v)

pub Capped-trans : (a b c : Dict ℤ) → Capped a b → Capped b c → Capped a c
Capped-trans a b c p q name v h =
    let (w, hw, vw) = q name v h in let (u, hu, wu) = p name w hw in (u, hu, ≤ℤ_trans v w u vw wu)

-- The limits of an overlay never raise a budget, and never add one.
pub cap_budgets-Capped :
    (limits : Fields) (budgets : Dict ℤ) (reasons : List String)
    → Capped budgets (cap_budgets limits (budgets, reasons)).0
unfolding cap_budgets
cap_budgets-Capped end budgets reasons name v h = (v, h, ≤ℤ_refl v)
cap_budgets-Capped (field other value rest) budgets reasons name v h =
    let next =
      cap_budget other (lookup other budgets) (natural (as_int value)) (budgets, reasons) in
    Capped-trans budgets next.0 (cap_budgets rest next).0
      (cap_budget-Capped other (lookup other budgets) (natural (as_int value)) budgets reasons refl)
      (cap_budgets-Capped rest next.0 next.1) name v h

cap_budget-Kept :
    (name : String) (old value : Option ℤ) (budgets : Dict ℤ) (reasons : List String)
    → Kept reasons (cap_budget name old value (budgets, reasons)).1
unfolding cap_budget elem
cap_budget-Kept name (some old) (some value) budgets reasons z h = h
cap_budget-Kept name none value budgets reasons z h = ground (arith, h)
cap_budget-Kept name (some old) none budgets reasons z h = ground (arith, h)

pub cap_budgets-Kept :
    (limits : Fields) (budgets : Dict ℤ) (reasons : List String)
    → Kept reasons (cap_budgets limits (budgets, reasons)).1
unfolding cap_budgets
cap_budgets-Kept end budgets reasons z h = h
cap_budgets-Kept (field name value rest) budgets reasons z h =
    let next = cap_budget name (lookup name budgets) (natural (as_int value)) (budgets, reasons) in
    cap_budgets-Kept rest next.0 next.1 z
      (cap_budget-Kept name (lookup name budgets) (natural (as_int value)) budgets reasons z h)

-- An approval policy is at least as strict as another.
abbrev pub Stricter : String → String → Type 0
Stricter before after =
    (a : ℕ)
    → lookup before approval_rank ≡ some a
    → (b : ℕ) × (lookup after approval_rank ≡ some b) × (a ≤ b)

pub approval_policy_stricter-Stricter :
    (before other after : String)
    → approval_policy_stricter before other ≡ ok after
    → Stricter before after
approval_policy_stricter-Stricter before other after h a e =
    let s = approval_policy_stricter-IsStricter before other after h in
    (max s.left_rank s.right_rank, s.policy_known, ground (arith, s.left_known, e))
