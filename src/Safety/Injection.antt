-- ===== src/Safety/Injection.antt =====
-- `EffectIntent`, `EffectDecision` and `InjectionGuard.authorize`.
pub mod Laws
use kris_ai.Base.{String, Bool, true, false, not, ◌&&◌, List, [], ◌∷◌, elem, if◌then◌else◌}
use kris_ai.Safety.Context.{Provenance, untrusted}

pub record EffectIntent : Type 0 where
  pub capability : String
  pub destination : String
  pub provenance : Provenance
  pub derived_from_untrusted_content : Bool
  pub contains_secret : Bool

pub record EffectDecision : Type 0 where
  pub allowed : Bool
  pub code : String

-- The capabilities that change who may do what.
abbrev pub authority_capabilities : List String
authority_capabilities = "grant_authority" ∷ "change_policy" ∷ "reveal_secret" ∷ []

abbrev deny : String → EffectDecision
deny code = record { allowed = false; code = code }

unfoldable pub authorize : EffectIntent → List String → List String → List String → EffectDecision
unfolding elem untrusted
authorize intent grants destinations secret_targets =
    if not (elem intent.capability grants)
    then deny "capability_not_granted"
    else if not (elem intent.destination destinations)
    then deny "destination_not_granted"
    else if intent.contains_secret && not (elem intent.destination secret_targets)
    then deny "secret_destination_not_granted"
    else if untrusted intent.provenance
        && intent.derived_from_untrusted_content
        && elem intent.capability authority_capabilities
    then deny "untrusted_content_cannot_change_authority"
    else record { allowed = true; code = "explicit_policy_grant" }
