-- ===== src/Policy/Identity.antt =====
-- `_decision_id`: a digest of the request, its overlays in the order of their layers.
use kris_ai.Base.{ℕ, String, ◌<>◌, ◌==◌, Option, none, some, List, [], ◌∷◌, if◌then◌else◌}
use kris_ai.Base.Outcome.{Outcome, ok, raise, ◌>>=◌}
use kris_ai.Base.Dict.{lookup}
use kris_ai.Base.Json.{Json, str, arr, obj, Items, nil, item, Fields, end, field}
use kris_ai.Base.Json.Access.{get, get_default, py_str, to_list, traverse}
use kris_ai.Base.Json.Print.{dumps}
use kris_ai.Policy.Overlays.{layer_order, Keyed, sort_keyed}

-- `text[:n]`
take_text : ℕ → String → String
take_text Prim.Native.Nat.zero s = ""
take_text (Prim.Native.Nat.suc n) String.[] = ""
take_text (Prim.Native.Nat.suc n) (String.◌∷◌ c s) = String.◌∷◌ c (take_text n s)

rank_or_last : Option ℕ → ℕ
rank_or_last none = 99
rank_or_last (some rank) = rank

-- `_LAYER_ORDER.get(layer, 99)`
rank_at : Json → Outcome ℕ
unfolding lookup rank_or_last
rank_at (str layer) = ok (rank_or_last (lookup layer layer_order))
rank_at (arr xs) = raise "TypeError: unhashable type"
rank_at (obj fs) = raise "TypeError: unhashable type"
rank_at _ = ok 99

keyed_item : Json → Outcome (Keyed Json)
unfolding rank_at py_str get get_default
keyed_item (obj fs) = rank_at (get "layer" fs) >>= λ rank.
    ok (record {
      rank = rank;
      name = py_str (get_default "overlayId" (str "") fs);
      overlay = obj fs;
    })
keyed_item value = ok (record { rank = 99; name = ""; overlay = value })

items_of : List (Keyed Json) → Items
items_of [] = nil
items_of (k ∷ ks) = item k.overlay (items_of ks)

-- `d[key] = value` at a key that is there
assign : String → Json → Fields → Fields
assign key value end = end
assign key value (field other old rest) =
    let kept = field other old (assign key value rest) in
    if other == key then field key value rest else kept

-- The request with its overlays sorted, if they are an array.
sorted_request : Json → Fields → Outcome Fields
unfolding traverse to_list keyed_item sort_keyed items_of assign
sorted_request (arr xs) request = traverse keyed_item (to_list xs) >>= λ keyed.
    ok (assign "overlays" (arr (items_of (sort_keyed keyed))) request)
sorted_request _ request = ok request

module _ (sha256 : String → String) where
  -- `sha256` gives the digest of the UTF-8 bytes of a text, in hexadecimal digits.
  unfoldable pub decision_id : Fields → Fields → Outcome String
  unfolding sorted_request take_text dumps get
  decision_id request config = sorted_request (get "overlays" request) request >>= λ normalized.
      ok (
        "policy-"
        <> take_text 32 (
            sha256 (
              dumps (
                obj (
                  field "request" (obj normalized)
                    (field "policyRevision" (get "policyRevision" config) end))))))
