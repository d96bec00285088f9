-- ===== src/Profiles/Catalog.antt =====
-- `load_catalog`, from the value that the file holds.
use kris_ai.Base.{
  eqb, String, ◌==◌, Bool, true, false, not, ◌&&◌, ◌||◌, List, [], ◌∷◌, length, sorted_set,
}
use kris_ai.Base.Outcome.{Outcome, ok, raise, ◌>>=◌, ◌>>◌, refuse_if}
use kris_ai.Base.Dict.{Dict, keys, insert}
use kris_ai.Base.Json.{Json, arr, str, obj, nil, Fields, end, field}
use kris_ai.Base.Json.Access.{get, get_default, is_text, is_true, py_str, to_list, traverse}
use kris_ai.Profiles.Validate.{profile_ids, validate_profile}

-- `for value in raw.get("profiles", [])`; a text or an object gives its characters or keys, of which
-- none is a profile
abbrev pub values_in : Json → Outcome (List Json)
values_in (arr xs) = ok (to_list xs)
values_in (str String.[]) = ok []
values_in (str (String.◌∷◌ c s)) = ok (str (String.◌∷◌ c String.[]) ∷ [])
values_in (obj end) = ok []
values_in (obj (field k v fs)) = ok (str k ∷ [])
values_in _ = raise "TypeError: not iterable"

-- `AccessProfileV2.profile_id`
unfoldable pub profile_id : Fields → String
unfolding py_str get
profile_id profile = py_str (get "profileId" profile)

-- `{value.profile_id: value for value in profiles}`, from the entries so far
unfoldable pub by_id : List Fields → Dict Fields → Dict Fields
unfolding insert profile_id
by_id [] result = result
by_id (p ∷ ps) result = by_id ps (insert (profile_id p) p result)

abbrev pub same_texts : List String → List String → Bool
same_texts [] [] = true
same_texts (x ∷ xs) (y ∷ ys) = x == y && same_texts xs ys
same_texts _ _ = false

unfoldable pub load_catalog : Fields → Outcome (Dict Fields)
unfolding get get_default to_list traverse validate_profile by_id sorted_set keys
load_catalog raw = do
  refuse_if (not (is_text "2.0.0" (get "schemaVersion" raw))) "catalog schemaVersion must be 2.0.0"
  refuse_if (not (is_text "maximum_ceiling_not_capability_grant" (get "authoritySemantics" raw)))
      "catalog must declare ceiling-not-grant semantics"
  refuse_if (not (is_true (get "overlaysMayOnlyNarrow" raw))) "overlaysMayOnlyNarrow must be true"
  values ← values_in (get_default "profiles" (arr nil) raw)
  profiles ← traverse validate_profile values
  refuse_if
      (not (same_texts (sorted_set (keys (by_id profiles []))) (sorted_set profile_ids))
        || not (eqb (length profiles) (length (by_id profiles []))))
      "catalog must contain each canonical profile exactly once"
  refuse_if (not (is_text "chat" (get "defaultProfile" raw))) "defaultProfile must be chat"
  ok (by_id profiles [])
