-- ===== src/Policy/Values.antt =====
-- `_mapping`, `_string` and `_string_list`: a value of a wrong type raises `PolicyInputError`.
use kris_ai.Base.{String, ◌<>◌, List, [], strip, ◌==◌, if◌then◌else◌}
use kris_ai.Base.Outcome.{Outcome, ok, raise}
use kris_ai.Base.Json.{Json, null, str, arr, obj, Fields}
use kris_ai.Base.Json.Access.{to_list, traverse}

unfoldable pub mapping : Json → String → Outcome Fields
mapping (obj fs) label = ok fs
mapping _ label = raise (label <> " must be an object")

unfoldable pub text_of : Json → String → Outcome String
unfolding strip
text_of (str s) label =
    let text = strip s in
    if text == "" then raise (label <> " must be a non-empty string") else ok text
text_of _ label = raise (label <> " must be a non-empty string")

unfoldable pub text_list : Json → String → Outcome (List String)
unfolding text_of traverse to_list
text_list null label = ok []
text_list (arr xs) label = traverse (λ v. text_of v (label <> "[]")) (to_list xs)
text_list _ label = raise (label <> " must be an array")
