-- ===== src/Release/Profiles/Laws.antt =====
-- Profiles as JSON, and the policy of a project.
use kris_ai.Base.{String, ◌≡◌, refl, ap, true, List, [], ◌∷◌, map, elem, sorted_set}
use kris_ai.Base.Outcome.{ok}
use kris_ai.Base.Json.{strings}
use kris_ai.Base.Json.Access.{to_list, py_str}
use kris_ai.Release.Profiles.{PolicyProfile, boundaries, network_policies, from_json, to_json}

-- A profile whose boundary and network policy are known and whose lists are sorted sets.
pub record IsValid (p : PolicyProfile) : Type 0 where
  pub boundary : elem p.data_boundary boundaries ≡ true
  pub network : elem p.network_policy network_policies ≡ true
  pub channels : sorted_set p.allowed_update_channels ≡ p.allowed_update_channels
  pub plugins : sorted_set p.required_plugin_allowlist ≡ p.required_plugin_allowlist

texts-strings : (xs : List String) → map py_str (to_list (strings xs)) ≡ xs
unfolding to_list strings py_str
texts-strings [] = refl
texts-strings (x ∷ xs) = ap (λ ys. x ∷ ys) (texts-strings xs)

-- A profile whose boundary and network policy are known, and whose channels and plugins are sorted
-- without duplicates, is read back unchanged from its JSON.
pub from_json-to_json : (p : PolicyProfile) → IsValid p → from_json (to_json p) ≡ ok p
unfolding from_json to_json
from_json-to_json p v =
    rw
      (
        v.boundary,
        v.network,
        texts-strings p.allowed_update_channels,
        texts-strings p.required_plugin_allowlist,
        v.channels,
        v.plugins,
      )
      refl
