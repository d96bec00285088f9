-- ===== src/Trust/Compatibility/Laws.antt =====
-- The three answers to a manifest.
use kris_ai.Base.{
  String, ◌≡◌, refl, sym, ◌∙◌, ◌==◌, Bool, true, false, not, List, [], ◌∷◌, elem, any, is_empty,
  filter, eq_iff, arith, none,
}
use kris_ai.Base.Outcome.{ok, ok-injective, refuse_if-eq-ok}
use kris_ai.Base.Json.{Fields}
use kris_ai.Base.Json.Access.{find, get}
use kris_ai.Trust.Manifest.{text_or_empty}
use kris_ai.Trust.Compatibility.{legacy_fields, old_versions, has, classify_manifest}

is_empty-filter : (p : String → Bool) (xs : List String) → not (is_empty (filter p xs)) ≡ any p xs
unfolding filter any
is_empty-filter p [] = refl
is_empty-filter p (x ∷ xs) = ground (arith, is_empty-filter p xs)

has-none : (d : Fields) (key : String) → has d key ≡ false → find key d ≡ none
unfolding has
has-none d key h = grind arith

any-false :
    (p : String → Bool) (x : String) (xs : List String)
    → any p xs ≡ false
    → elem x xs ≡ true
    → p x ≡ false
unfolding any elem
any-false p x [] h m = cc
any-false p x (y ∷ ys) h m = ground (arith, eq_iff x y, any-false p x ys)

-- A manifest that is classified at all is of version 2, has no legacy field, and is classified as a
-- signed manifest of version 2.
pub classify_manifest-ok :
    (value : Fields) (kind key : String)
    → classify_manifest value ≡ ok kind
    → elem key legacy_fields ≡ true
    → (kind ≡ "signed_manifest_v2")
      × (text_or_empty (get "schemaVersion" value) ≡ "2.0.0")
      × (find key value ≡ none)
unfolding classify_manifest
classify_manifest-ok value kind key h0 m =
    let version = text_or_empty (get "schemaVersion" value) in
    let (_, h1) = refuse_if-eq-ok (elem version old_versions) _ _ h0 in
    let (a, h2) = refuse_if-eq-ok (not (version == "2.0.0")) _ _ h1 in
    let (b, h3) = refuse_if-eq-ok (not (is_empty (filter (has value) legacy_fields))) _ _ h2 in
    (
      sym (ok-injective _ kind h3),
      ground (arith, eq_iff version "2.0.0"),
      has-none value key (
          any-false (has value) key legacy_fields
            (sym (is_empty-filter (has value) legacy_fields) ∙ b) m),
    )
