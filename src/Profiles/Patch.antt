-- ===== src/Profiles/Patch.antt =====
-- `_set_dotted` and `apply_fixture_patch`. The keys of a patch are texts.
use kris_ai.Base.{String, List, [], ◌∷◌, split_at}
use kris_ai.Base.Outcome.{Outcome, ok, raise, ◌>>=◌}
use kris_ai.Base.Json.{Json, obj, Fields, end, field}
use kris_ai.Base.Json.Access.{get}
use kris_ai.Base.Json.Update.{set_key}

abbrev pub child_of : Json → Outcome Fields
child_of (obj child) = ok child
child_of _ = raise "cannot patch non-object path"

-- The assignment along the parts of a path; a path has at least one.
unfoldable pub set_parts : List String → Json → Fields → Outcome Fields
unfolding get set_key
set_parts [] value target = ok target
set_parts (part ∷ []) value target = ok (set_key part value target)
set_parts (part ∷ next ∷ parts) value target = do
  child ← child_of (get part target)
  patched ← set_parts (next ∷ parts) value child
  ok (set_key part (obj patched) target)

unfoldable pub set_dotted : Fields → String → Json → Outcome Fields
unfolding set_parts split_at
set_dotted target dotted value = set_parts (split_at b'.' dotted) value target

unfoldable pub apply_fixture_patch : Fields → Fields → Outcome Fields
unfolding set_dotted
apply_fixture_patch profile end = ok profile
apply_fixture_patch profile (field dotted replacement rest) =
    set_dotted profile dotted replacement >>= λ value. apply_fixture_patch value rest
