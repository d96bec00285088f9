-- ===== src/Release/Rollback/Sorting.antt =====
-- The order that `sorted` gives.
use mathlib.Core.Path.{subst}
use kris_ai.Base.{
  String, ◌≡◌, refl, ap, ◌==◌, Bool, true, false, ◌||◌, List, [], ◌∷◌, inl, inr, elem, Bool-cases,
  arith,
}
use kris_ai.Base.Outcome.{ok, >>=-elim, ok-injective}
use kris_ai.Base.Json.Access.{traverse}
use kris_ai.Release.Version.{Version, parse_version, at_least}
use kris_ai.Release.Version.Laws.{at_least_total, at_least_trans}
use kris_ai.Release.Rollback.{keyed, insert_newest, newest_first}

-- The versions of a list of pairs.
unfoldable pub has_version : String → List (Version × String) → Bool
has_version v [] = false
has_version v ((k, w) ∷ rest) = v == w || has_version v rest

insert_newest-has :
    (v : String) (a : Version × String) (xs : List (Version × String))
    → has_version v (insert_newest a xs) ≡ (v == a.1 || has_version v xs)
unfolding insert_newest has_version
insert_newest-has v a [] = refl
insert_newest-has v a (b ∷ xs) = ground (arith, insert_newest-has v a xs)

pub newest_first-has :
    (v : String) (xs : List (Version × String)) → has_version v (newest_first xs) ≡ has_version v xs
unfolding newest_first has_version
newest_first-has v [] = refl
newest_first-has v (a ∷ xs) =
    ground (arith, insert_newest-has v a (newest_first xs), newest_first-has v xs)

-- Every later version is no newer.
unfoldable pub AllBelow : Version → List (Version × String) → Type 0
AllBelow k [] = Unit
AllBelow k ((l, w) ∷ rest) = (at_least k l ≡ true) × AllBelow k rest

unfoldable pub Descending : List (Version × String) → Type 0
Descending [] = Unit
Descending ((k, v) ∷ rest) = AllBelow k rest × Descending rest

-- Every key is the parsed version.
unfoldable pub AllKeyed : List (Version × String) → Type 0
AllKeyed [] = Unit
AllKeyed ((k, v) ∷ rest) = (parse_version v ≡ ok k) × AllKeyed rest

AllBelow-trans :
    (k l : Version) (xs : List (Version × String))
    → at_least k l ≡ true
    → AllBelow l xs
    → AllBelow k xs
unfolding AllBelow
AllBelow-trans k l [] h a = tt
AllBelow-trans k l ((m, v) ∷ xs) h (b, a) = (at_least_trans k l m h b, AllBelow-trans k l xs h a)

AllBelow-insert_newest :
    (k : Version) (a : Version × String) (xs : List (Version × String))
    → at_least k a.0 ≡ true
    → AllBelow k xs
    → AllBelow k (insert_newest a xs)
unfolding AllBelow insert_newest
AllBelow-insert_newest k a [] h b = (h, tt)
AllBelow-insert_newest k a ((m, v) ∷ xs) h (c, b) =
    ground (arith, AllBelow-insert_newest k a xs h b)

Descending-insert_newest :
    (a : Version × String) (xs : List (Version × String))
    → Descending xs
    → Descending (insert_newest a xs)
unfolding Descending insert_newest AllBelow
Descending-insert_newest a [] d = (tt, tt)
Descending-insert_newest a ((m, v) ∷ xs) (b, d) = elim (Bool-cases (at_least a.0 m)) [
  | inl t ↦ rw t ((t, AllBelow-trans a.0 m xs t b), (b, d))
  | inr f ↦ rw f (
    AllBelow-insert_newest m a xs (ground (arith, at_least_total a.0 m)) b,
    Descending-insert_newest a xs d,
  )
]

pub Descending-newest_first : (xs : List (Version × String)) → Descending (newest_first xs)
unfolding newest_first Descending
Descending-newest_first [] = tt
Descending-newest_first (a ∷ xs) =
    Descending-insert_newest a (newest_first xs) (Descending-newest_first xs)

AllKeyed-insert_newest :
    (a : Version × String) (xs : List (Version × String))
    → parse_version a.1 ≡ ok a.0
    → AllKeyed xs
    → AllKeyed (insert_newest a xs)
unfolding AllKeyed insert_newest
AllKeyed-insert_newest a [] h k = (h, tt)
AllKeyed-insert_newest a ((m, v) ∷ xs) h (e, k) = elim (Bool-cases (at_least a.0 m)) [
  | inl t ↦ rw t (h, (e, k))
  | inr f ↦ rw f (e, AllKeyed-insert_newest a xs h k)
]

pub AllKeyed-newest_first :
    (xs : List (Version × String)) → AllKeyed xs → AllKeyed (newest_first xs)
unfolding newest_first AllKeyed
AllKeyed-newest_first [] k = tt
AllKeyed-newest_first (a ∷ xs) (e, k) =
    AllKeyed-insert_newest a (newest_first xs) e (AllKeyed-newest_first xs k)

-- The keys of the candidates.
pub traverse-keyed :
    (found : List String) (keys : List (Version × String))
    → traverse keyed found ≡ ok keys
    → AllKeyed keys × ((v : String) → has_version v keys ≡ elem v found)
unfolding traverse AllKeyed has_version elem keyed
traverse-keyed [] keys h =
    subst (λ ks. AllKeyed ks × ((v : String) → has_version v ks ≡ elem v []))
      (ok-injective [] keys h) (tt, λ v. refl)
traverse-keyed (w ∷ found) keys h0 = >>=-elim (keyed w) _ h0 (λ a e1 h1.
    >>=-elim (traverse keyed found) _ h1 (λ rest e2 h2. >>=-elim (parse_version w) _ e1 (λ k e3 h3.
      let same = ok-injective (k, w) a h3 in
      let (k_rest, has) = traverse-keyed found rest e2 in
      subst (λ ks. AllKeyed ks × ((v : String) → has_version v ks ≡ elem v (w ∷ found)))
        (ok-injective (a ∷ rest) keys h2)
        (subst
          (λ b.
            AllKeyed (b ∷ rest) × ((v : String) → has_version v (b ∷ rest) ≡ elem v (w ∷ found)))
          same ((e3, k_rest), λ v. ap (λ t. v == w || t) (has v))))))
