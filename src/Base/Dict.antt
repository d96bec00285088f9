-- ===== src/Base/Dict.antt =====
-- Python's `dict` with string keys, as an association list in insertion order.
use Prim.Native.String.{String}
use mathlib.Core.Path.{◌≡◌, refl, subst₂}
use mathlib.Core.Logic.{inl, inr}
use mathlib.Core.Option.{Option, none, some, some-injective}
use mathlib.Core.List.{List, [], ◌∷◌}
use native.Mathlib.Omega.{arith}
use text.Mathlib.Text.{◌==◌}
use text.Mathlib.TextEquality.{eq_iff}
use kris_ai.Base.Tests.{Bool-cases, if◌then◌else◌}

abbrev pub Dict {ℓ} : Type ℓ → Type ℓ
Dict V = List (String × V)

-- `list(d)`
unfoldable pub keys {ℓ} : {V : Type ℓ} → Dict V → List String
keys [] = []
keys ((k, v) ∷ d) = k ∷ keys d

module _ {ℓ} {V : Type ℓ} where
  -- `d.get(key)`
  unfoldable pub lookup : String → Dict V → Option V
  lookup key [] = none
  lookup key ((other, value) ∷ rest) = if other == key then some value else lookup key rest

  -- `d[key] = value`: an old entry keeps its place
  unfoldable pub insert : String → V → Dict V → Dict V
  insert key value [] = (key, value) ∷ []
  insert key value ((other, old) ∷ rest) =
      let kept = (other, old) ∷ insert key value rest in
      if other == key then (key, value) ∷ rest else kept

  pub lookup-insert :
      (k j : String) (v : V) (d : Dict V)
      → lookup j (insert k v d) ≡ (if k == j then some v else lookup j d)
  unfolding lookup insert
  lookup-insert k j v [] = refl
  lookup-insert k j v ((i, w) ∷ d) =
      ground (arith, eq_iff k j, eq_iff i k, eq_iff i j, lookup-insert k j v d)

  pub lookup-insert_same : (k : String) (v : V) (d : Dict V) → lookup k (insert k v d) ≡ some v
  lookup-insert_same k v d = ground (arith, lookup-insert k k v d, eq_iff k k)

  -- No key stands twice, as in every dict.
  abbrev pub NodupKeys : Dict V → Type ℓ
  NodupKeys [] = Unit
  NodupKeys ((k, _) ∷ d) = (lookup k d ≡ none) × NodupKeys d

  pub insert-NodupKeys : (k : String) (v : V) (d : Dict V) → NodupKeys d → NodupKeys (insert k v d)
  unfolding insert lookup
  insert-NodupKeys k v [] u = (refl, tt)
  insert-NodupKeys k v ((j, w) ∷ d) (fresh, u) =
      ground (arith, insert-NodupKeys k v d u, lookup-insert k j v d, eq_iff j k, eq_iff k j)

module _ {ℓ κ} {V : Type ℓ} where
  -- A property of every entry, as the loop over `d.items()` sees it.
  abbrev pub AllEntries : (String → V → Type κ) → Dict V → Type κ
  AllEntries P [] = Unit
  AllEntries P ((k, v) ∷ d) = P k v × AllEntries P d

module _ {ℓ} {V : Type ℓ} where
  -- A key that is not looked up with success differs from every key that is.
  pub lookup-cons_fresh :
      (j k : String) (v w : V) (d : Dict V)
      → lookup j d ≡ none
      → lookup k d ≡ some w
      → lookup k ((j, v) ∷ d) ≡ some w
  unfolding lookup
  lookup-cons_fresh j k v w d fresh h = ground (arith, eq_iff j k)

  -- In a dict, what holds of every lookup holds of every entry.
  pub AllEntries-lookup {κ} :
      (P : String → V → Type κ) (d : Dict V)
      → NodupKeys d
      → ((k : String) (v : V) → lookup k d ≡ some v → P k v)
      → AllEntries P d
  unfolding lookup
  AllEntries-lookup P [] u h = tt
  AllEntries-lookup P ((j, w) ∷ d) (fresh, u) h = (
    h j w (ground (arith, eq_iff j j)),
    AllEntries-lookup P d u (λ k v e. h k v (lookup-cons_fresh j k w v d fresh e)),
  )

  pub lookup-AllEntries {κ} :
      (P : String → V → Type κ) (d : Dict V) (k : String) (v : V)
      → AllEntries P d
      → lookup k d ≡ some v
      → P k v
  unfolding lookup
  lookup-AllEntries P [] k v a e = cc
  lookup-AllEntries P ((j, w) ∷ d) k v (p, a) e = elim (Bool-cases (j == k)) [
    | inl t ↦ subst₂ P ((eq_iff j k).0 t) (some-injective w v (rw (t, lookup) at e)) p
    | inr f ↦ lookup-AllEntries P d k v a (rw (f, lookup) at e)
  ]
