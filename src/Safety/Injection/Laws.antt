-- ===== src/Safety/Injection/Laws.antt =====
-- When `InjectionGuard` allows an effect.
use kris_ai.Base.{String, ◌≡◌, ◌↔◌, true, false, List, elem, elem-append, arith, ◌++◌}
use kris_ai.Safety.Context.{untrusted}
use kris_ai.Safety.Injection.{EffectIntent, authority_capabilities, authorize}

-- What the policy has to have granted for an intent.
pub record IsGranted (intent : EffectIntent) (grants destinations secret_targets : List String)
    : Type 0 where
  pub capability : elem intent.capability grants ≡ true
  pub destination : elem intent.destination destinations ≡ true
  pub secret : intent.contains_secret ≡ true → elem intent.destination secret_targets ≡ true
  pub authority :
      elem intent.capability authority_capabilities ≡ true
      → untrusted intent.provenance ≡ true
      → intent.derived_from_untrusted_content ≡ false

module _ (intent : EffectIntent) (grants destinations secret_targets : List String) where
  -- An effect is allowed exactly when its capability and its destination are granted, its
  -- destination may receive secrets if it carries one, and it is not a change of authority that
  -- was derived from content of an untrusted provenance.
  pub authorize-IsGranted :
      ((authorize intent grants destinations secret_targets).allowed ≡ true)
      ↔ IsGranted intent grants destinations secret_targets
  unfolding authorize
  authorize-IsGranted = (λ h. ground arith, λ g. ground arith)

-- Granting more never takes an allowed effect away.
pub authorize_mono :
    (intent : EffectIntent)
    (grants destinations secret_targets more_grants more_destinations more_targets : List String)
    → (authorize intent grants destinations secret_targets).allowed ≡ true
    → (authorize intent
        (grants ++ more_grants)
        (destinations ++ more_destinations)
        (secret_targets ++ more_targets)).allowed
      ≡ true
unfolding authorize
authorize_mono intent g d t mg md mt h = ground (
  arith,
  elem-append intent.capability g mg,
  elem-append intent.destination d md,
  elem-append intent.destination t mt,
)
