-- ===== src/Base/Outcome.antt =====
-- Code that returns a value or raises an exception. An exception is held by its code or message.
use Prim.Native.String.{String}
use mathlib.Core.Path.{◌≡◌, refl}
use mathlib.Core.Bool.{Bool, true, false}

pub data Outcome {ℓ} (A : Type ℓ) : Type ℓ where
  raise : String → Outcome A
  ok : A → Outcome A

-- The rest of a function runs only after a part that returned.
infixl 5 ◌>>=◌ ◌>>◌
abbrev pub ◌>>=◌ {κ ℓ} : {B : Type κ} {A : Type ℓ} → Outcome A → (A → Outcome B) → Outcome B
attempt >>= next = elim attempt [ raise message ↦ raise message | ok value ↦ next value ]

abbrev pub ◌>>◌ {κ} : {B : Type κ} → Outcome (Unit {0}) → Outcome B → Outcome B
attempt >> rest = attempt >>= λ done. rest

-- `if bad: raise E(code)`
abbrev pub refuse_if : Bool → String → Outcome (Unit {0})
refuse_if false message = ok tt
refuse_if true message = raise message

-- A function that returned had each of its parts return.
pub >>=-eq-ok {κ ℓ} :
    {B : Type κ} {A : Type ℓ} (attempt : Outcome A) (next : A → Outcome B) {final : B}
    → (attempt >>= next) ≡ ok final
    → (value : A) × (attempt ≡ ok value) × (next value ≡ ok final)
>>=-eq-ok (raise message) next returned = cc
>>=-eq-ok (ok value) next returned = (value, refl, returned)

pub refuse_if-eq-ok {κ} :
    {B : Type κ} (bad : Bool) (message : String) (rest : Outcome B) {final : B}
    → (refuse_if bad message >> rest) ≡ ok final
    → (bad ≡ false) × (rest ≡ ok final)
refuse_if-eq-ok false message rest returned = (refl, returned)
refuse_if-eq-ok true message rest returned = cc

-- The same, for a goal that the rest of a proof reaches from the value.
pub >>=-elim {κ ℓ ι} :
    {B : Type κ} {A : Type ℓ} {P : Type ι} (attempt : Outcome A) (next : A → Outcome B) {final : B}
    → (attempt >>= next) ≡ ok final
    → ((value : A) → attempt ≡ ok value → next value ≡ ok final → P)
    → P
>>=-elim (raise message) next returned rest = cc
>>=-elim (ok value) next returned rest = rest value refl returned

pub ok-injective {ℓ} : {A : Type ℓ} (a b : A) → ok a ≡ ok b → a ≡ b
ok-injective a b returned = cc
