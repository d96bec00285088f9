-- ===== src/Safety/Models/Matrix.antt =====
-- What the built matrix says of a model.
use kris_ai.Base.{
  String, ◌≡◌, ◌↔◌, refl, sym, ap, ◌∙◌, ◌==◌, Bool, true, false, Option, none, some, List, [], ◌∷◌,
  elem, sorted_set, elem-sorted_set, filter, all, eq_iff, arith, if◌then◌else◌, inl, inr,
  Bool-cases,
}
use kris_ai.Base.Dict.{Dict, keys, lookup}
use kris_ai.Base.Outcome.{ok, >>=-elim, ok-injective}
use kris_ai.Base.Json.{Json, null, str, arr, obj, Items, nil, item}
use kris_ai.Base.Json.Access.{get, get_default, is_text}
use kris_ai.Safety.Models.{
  ModelSuiteResult, Suites, suites_of, add_results, required_model_suites, has_passed, is_supported,
  missing_suites, model_row, model_rows, matrix_fields, add_last, sealed, build_matrix,
}
use kris_ai.Safety.Models.Laws.{find_result, is_supported-find_result}

-- The text at a key of an object, and the first row of a list whose identity is a name.
abbrev pub at_key : String → Json → Json
at_key key (obj fs) = get key fs
at_key key _ = null

unfoldable pub row_of : String → Items → Json
row_of name nil = null
row_of name (item row rest) =
    let later = row_of name rest in if is_text name (at_key "identity" row) then row else later

abbrev pub items_of : Json → Items
items_of (arr xs) = xs
items_of _ = nil

-- What a matrix says of the support of a model.
abbrev pub support_of : String → Json → Json
support_of name matrix = at_key "support" (row_of name (items_of (at_key "models" matrix)))

is_known : Option Suites → Bool
is_known none = false
is_known (some suites) = true

elem-keys :
    (name : String) (rows : Dict Suites) → elem name (keys rows) ≡ is_known (lookup name rows)
unfolding elem keys lookup is_known
elem-keys name [] = refl
elem-keys name ((k, v) ∷ rows) = ground (arith, elem-keys name rows, eq_iff name k, eq_iff k name)

at_identity :
    (name other : String) (suites : Suites)
    → is_text name (at_key "identity" (model_row other suites)) ≡ (other == name)
unfolding model_row get get_default
at_identity name other suites = refl

at_support :
    (name : String) (suites : Suites)
    → (at_key "support" (model_row name suites) ≡ str "supported") ↔ (is_supported suites ≡ true)
unfolding model_row get get_default
at_support name suites = elim (Bool-cases (is_supported suites)) [
  | inl passed ↦ rw passed (λ _. refl, λ _. refl)
  | inr other ↦ rw other (λ said. ap (is_text "supported") said, λ wrong. cc)
]

row_of-model_rows :
    (name : String) (names : List String) (rows : Dict Suites)
    → row_of name (model_rows names rows)
      ≡ (if elem name names then model_row name (suites_of (lookup name rows)) else null)
unfolding row_of elem model_rows
row_of-model_rows name [] rows = refl
row_of-model_rows name (other ∷ names) rows = ground (
  arith,
  at_identity name other (suites_of (lookup other rows)),
  eq_iff other name,
  eq_iff name other,
  row_of-model_rows name names rows,
)

-- The same of the row that a lookup gives, which is missing where nothing is known.
at_support_lookup :
    (name : String) (found : Option Suites)
    → (at_key "support" (if is_known found then model_row name (suites_of found) else null)
        ≡ str "supported")
      ↔ (is_supported (suites_of found) ≡ true)
unfolding is_supported missing_suites lookup is_known filter all
at_support_lookup name none = (λ said. ap (is_text "supported") said, λ wrong. cc)
at_support_lookup name (some suites) = at_support name suites

-- The row of a name among the rows for all the names that have results.
support-model_rows :
    (rows : Dict Suites) (name : String)
    → (at_key "support" (row_of name (model_rows (sorted_set (keys rows)) rows)) ≡ str "supported")
      ↔ (is_supported (suites_of (lookup name rows)) ≡ true)
support-model_rows rows name =
    rw
      (
        row_of-model_rows name (sorted_set (keys rows)) rows,
        elem-sorted_set name (keys rows),
        elem-keys name rows,
      )
      (at_support_lookup name (lookup name rows))

module _ (sha256 : String → String) where
  -- In a matrix that was built, the first row whose identity is a given name says "supported" exactly
  -- when the input holds a result of each required suite for that model, and each of these passed.
  -- The row of a name that has none counts as one that does not say so.
  pub build_matrix-find_result :
      (rs : List ModelSuiteResult) (matrix : Json) (name : String)
      → build_matrix sha256 rs ≡ ok matrix
      → (support_of name matrix ≡ str "supported") ↔ (
          (s : String)
          → elem s required_model_suites ≡ true
          → has_passed (find_result name s rs) ≡ true)
  unfolding build_matrix sealed add_last get get_default
  build_matrix-find_result rs matrix name built =
      >>=-elim (add_results [] rs) _ built (λ rows added returned.
        let suites = suites_of (lookup name rows) in
        let ends =
          ok-injective
            (sealed sha256 (matrix_fields sha256 (model_rows (sorted_set (keys rows)) rows))) matrix
            returned in
        let (from, to) = is_supported-find_result rs rows name added in
        let (only, there) = support-model_rows rows name in
        let says = ap (support_of name) (sym ends) in
        (λ said. from (only (sym says ∙ said)), λ passed. says ∙ there (to passed)))
