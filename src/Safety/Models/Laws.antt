-- ===== src/Safety/Models/Laws.antt =====
-- What the compatibility matrix says of the results it was built from.
use kris_ai.Base.{
  String, ◌≡◌, ◌↔◌, refl, sym, ap, ap₂, ◌∙◌, true, not, ◌&&◌, ◌==◌, Option, none, some, List, [],
  ◌∷◌, elem, eq_iff, eq_refl, arith, if◌then◌else◌, inl, inr, Bool-cases, &&-true, all, all-elem,
  is_empty, filter,
}
use mathlib.Core.Option.{none-ne-some, or_else}
use kris_ai.Base.Dict.{Dict, lookup, insert, lookup-insert}
use kris_ai.Base.Outcome.{ok, >>=-eq-ok}
use kris_ai.Safety.Models.{
  ModelSuiteResult, identity, Suites, suites_of, add_result, add_results, required_model_suites,
  has_passed, is_present, is_supported,
}

-- The result of a suite for an identity, searched for in the input.
pub find_result : String → String → List ModelSuiteResult → Option ModelSuiteResult
find_result name suite [] = none
find_result name suite (r ∷ rs) =
    if identity r == name && r.suite == suite then some r else find_result name suite rs

-- The same, among the rows.
abbrev pub entry : String → String → Dict Suites → Option ModelSuiteResult
entry name suite rows = lookup suite (suites_of (lookup name rows))

or_else-none : (o : Option ModelSuiteResult) → or_else o none ≡ o
unfolding or_else
or_else-none none = refl
or_else-none (some r) = refl

-- What a successful round does.
module _ (rows next : Dict Suites) (r : ModelSuiteResult) (h : add_result rows r ≡ ok next) where
  abbrev old : Suites
  old = suites_of (lookup (identity r) rows)

  add_result_inv :
      (elem r.suite required_model_suites ≡ true)
      × (lookup r.suite old ≡ none)
      × (next ≡ insert (identity r) (insert r.suite r old) rows)
  unfolding add_result
  add_result_inv = ground arith

  -- A result that is added is found, and all else is found as before.
  entry-add_result :
      (name suite : String)
      → entry name suite next
        ≡ (if identity r == name && r.suite == suite then some r else entry name suite rows)
  entry-add_result name suite =
      let (_, _, e) = add_result_inv in
      rw e (
        ground (
          arith,
          lookup-insert (identity r) name (insert r.suite r old) rows,
          lookup-insert r.suite suite r old,
          eq_iff (identity r) name,
        ))

-- An entry that is there already is not in the input: it would be refused.
not_again :
    (rows final : Dict Suites) (rs : List ModelSuiteResult) (name suite : String)
    (x : ModelSuiteResult)
    → add_results rows rs ≡ ok final
    → entry name suite rows ≡ some x
    → find_result name suite rs ≡ none
unfolding add_results find_result
not_again rows final [] name suite x h e = refl
not_again rows final (r ∷ rs) name suite x h e =
    let (next, first, rest) = >>=-eq-ok (add_result rows r) (λ n. add_results n rs) h in
    let (_, fresh, _) = add_result_inv rows next r first in
    let kept = entry-add_result rows next r first name suite in
    elim (Bool-cases (identity r == name && r.suite == suite)) [
      | inl same ↦
          let (p, q) = &&-true (identity r == name) (r.suite == suite) same in
          let p' = (eq_iff (identity r) name).0 p in
          let q' = (eq_iff r.suite suite).0 q in
          let clash = sym fresh ∙ ap₂ (λ (n s : String). entry n s rows) p' q' ∙ e in
          absurd (none-ne-some x clash)
      | inr other ↦ rw other (not_again next final rs name suite x rest (kept ∙ rw other e))
    ]

-- Each entry of the rows is the input's result of that name and suite, or an old entry.
entry-add_results :
    (rows final : Dict Suites) (rs : List ModelSuiteResult) (name suite : String)
    → add_results rows rs ≡ ok final
    → entry name suite final ≡ or_else (find_result name suite rs) (entry name suite rows)
unfolding add_results find_result or_else
entry-add_results rows final [] name suite h = ground arith
entry-add_results rows final (r ∷ rs) name suite h =
    let (next, first, rest) = >>=-eq-ok (add_result rows r) (λ n. add_results n rs) h in
    let kept = entry-add_result rows next r first name suite in
    let ih = entry-add_results next final rs name suite rest in
    elim (Bool-cases (identity r == name && r.suite == suite)) [
      | inl same ↦
          let found : entry name suite next ≡ some r = kept ∙ rw same in
          let gone = not_again next final rs name suite r rest found in
          rw same (ih ∙ rw (gone, found))
      | inr other ↦
          let found : entry name suite next ≡ entry name suite rows = kept ∙ rw other in
          rw other (ih ∙ rw found)
    ]

-- All suites of a list are passed only if none of them is missing.
passed_none_missing :
    (suites : Suites) (names : List String)
    → (is_empty (filter (λ s. not (is_present (lookup s suites))) names)
        && all (λ s. has_passed (lookup s suites)) names)
      ≡ all (λ s. has_passed (lookup s suites)) names
unfolding filter all
passed_none_missing suites [] = refl
passed_none_missing suites (s ∷ names) = ground (arith, passed_none_missing suites names)

is_supported-all :
    (suites : Suites)
    → is_supported suites ≡ all (λ s. has_passed (lookup s suites)) required_model_suites
unfolding is_supported
is_supported-all suites = passed_none_missing suites required_model_suites

-- The suites that are collected for a model are all there and passed exactly when the input holds a
-- result of each required suite for that model, and each of these passed.
pub is_supported-find_result :
    (rs : List ModelSuiteResult) (rows : Dict Suites) (name : String)
    → add_results [] rs ≡ ok rows
    → (is_supported (suites_of (lookup name rows)) ≡ true) ↔ (
        (s : String)
        → elem s required_model_suites ≡ true
        → has_passed (find_result name s rs) ≡ true)
unfolding lookup
is_supported-find_result rs rows name h =
    let suites = suites_of (lookup name rows) in
    let passes = λ (s : String).
      ap has_passed
        (entry-add_results [] rows rs name s h ∙ or_else-none (find_result name s rs)) in
    rw (is_supported-all suites) (
      λ a s m. sym (passes s) ∙ (all-elem (λ s. has_passed (lookup s suites)) _).0 a s m,
      λ f.
          (all-elem (λ s. has_passed (lookup s suites)) required_model_suites).1
            (λ s m. passes s ∙ f s m),
    )

-- The input has only required suites, and at most one result of each suite for each model.
abbrev pub IsConsistent : List ModelSuiteResult → Type 0
IsConsistent [] = Unit
IsConsistent (r ∷ rs) =
    (elem r.suite required_model_suites ≡ true)
    × (find_result (identity r) r.suite rs ≡ none)
    × IsConsistent rs

-- No row holds a result that the input has as well.
abbrev Fresh : Dict Suites → List ModelSuiteResult → Type 0
Fresh rows [] = Unit
Fresh rows (r ∷ rs) = (entry (identity r) r.suite rows ≡ none) × Fresh rows rs

add_results-IsConsistent :
    (rows final : Dict Suites) (rs : List ModelSuiteResult)
    → add_results rows rs ≡ ok final
    → IsConsistent rs
unfolding add_results
add_results-IsConsistent rows final [] h = tt
add_results-IsConsistent rows final (r ∷ rs) h =
    let (next, first, rest) = >>=-eq-ok (add_result rows r) (λ n. add_results n rs) h in
    let (known, _, _) = add_result_inv rows next r first in
    let found =
      entry-add_result rows next r first (identity r) r.suite
      ∙ rw (eq_refl (identity r), eq_refl r.suite) in
    (
      known,
      not_again next final rs (identity r) r.suite r rest found,
      add_results-IsConsistent next final rs rest,
    )

add_result_fresh :
    (rows : Dict Suites) (r : ModelSuiteResult)
    → elem r.suite required_model_suites ≡ true
    → entry (identity r) r.suite rows ≡ none
    → (next : Dict Suites) × (add_result rows r ≡ ok next)
unfolding add_result
add_result_fresh rows r known fresh = (
  insert (identity r) (insert r.suite r (suites_of (lookup (identity r) rows))) rows,
  ground arith,
)

Fresh-add_result :
    (rows next : Dict Suites) (r : ModelSuiteResult) (rs : List ModelSuiteResult)
    → add_result rows r ≡ ok next
    → find_result (identity r) r.suite rs ≡ none
    → Fresh rows rs
    → Fresh next rs
unfolding find_result
Fresh-add_result rows next r [] h n f = tt
Fresh-add_result rows next r (s ∷ rs) h n (f, fs) = (
  ground (
    arith,
    entry-add_result rows next r h (identity s) s.suite,
    eq_iff (identity r) (identity s),
    eq_iff (identity s) (identity r),
    eq_iff r.suite s.suite,
    eq_iff s.suite r.suite,
  ),
  Fresh-add_result rows next r rs h (ground arith) fs,
)

IsConsistent-add_results :
    (rows : Dict Suites) (rs : List ModelSuiteResult)
    → IsConsistent rs
    → Fresh rows rs
    → (final : Dict Suites) × (add_results rows rs ≡ ok final)
unfolding add_results
IsConsistent-add_results rows [] c f = (rows, refl)
IsConsistent-add_results rows (r ∷ rs) (known, single, c) (f, fs) =
    let (next, first) = add_result_fresh rows r known f in
    let (final, rest) =
      IsConsistent-add_results next rs c (Fresh-add_result rows next r rs first single fs) in
    (final, rw first rest)

Fresh-empty : (rs : List ModelSuiteResult) → Fresh [] rs
unfolding lookup
Fresh-empty [] = tt
Fresh-empty (r ∷ rs) = (refl, Fresh-empty rs)

-- The matrix is built exactly when every result is of a required suite and no model has two results
-- of one suite; otherwise the build raises.
pub add_results_total :
    (rs : List ModelSuiteResult)
    → ((rows : Dict Suites) × (add_results [] rs ≡ ok rows)) ↔ IsConsistent rs
add_results_total rs = (
  λ (rows, h). add_results-IsConsistent [] rows rs h,
  λ c. IsConsistent-add_results [] rs c (Fresh-empty rs),
)
