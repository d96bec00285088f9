-- ===== src/Release/Rollback/Candidates.antt =====
-- Which installed versions are candidates.
use mathlib.Core.Path.{subst}
use kris_ai.Base.{
  String, ◌≡◌, refl, sym, ap, ◌∙◌, ◌==◌, Bool, true, false, ◌||◌, ◌&&◌, List, [], ◌∷◌, inl, inr,
  elem, Bool-cases, eq_iff, arith,
}
use kris_ai.Base.Outcome.{ok, >>=-elim, ok-injective}
use kris_ai.Release.Update.{SupportLifecyclePolicy}
use kris_ai.Release.Rollback.{is_candidate, candidates, keep_if}

-- A version that can be gone back to.
abbrev pub IsCandidate : String → SupportLifecyclePolicy → String → Type 0
IsCandidate current lifecycle version = is_candidate current lifecycle version ≡ ok true

keep_if-elem :
    (kept : Bool) (v w : String) (rest : List String)
    → elem v (keep_if kept w rest) ≡ (kept && v == w || elem v rest)
unfolding elem
keep_if-elem true v w rest = refl
keep_if-elem false v w rest = refl

absurd_listed : {A : Type 0} (v : String) → elem v [] ≡ true → A
unfolding elem
absurd_listed v h = cc

module _ (current : String) (lifecycle : SupportLifecyclePolicy) where
  pub candidates-elem :
      (installed found : List String) (v : String)
      → candidates current lifecycle installed ≡ ok found
      → elem v found ≡ true
      → (elem v installed ≡ true) × IsCandidate current lifecycle v
  unfolding candidates elem
  candidates-elem [] found v h m =
      absurd_listed v (subst (λ xs. elem v xs ≡ true) (sym (ok-injective [] found h)) m)
  candidates-elem (w ∷ installed) found v h0 m =
      >>=-elim (is_candidate current lifecycle w) _ h0 (λ kept e1 h1.
        >>=-elim (candidates current lifecycle installed) _ h1 (λ rest e2 h2.
          let m' =
            subst (λ xs. elem v xs ≡ true) (sym (ok-injective (keep_if kept w rest) found h2)) m in
          elim (Bool-cases (elem v rest)) [
            | inl t ↦
                let (listed, c) = candidates-elem installed rest v e2 t in
                (ground (arith, listed), c)
            | inr f ↦
                let passed : kept ≡ true = ground (arith, keep_if-elem kept v w rest) in
                let same : w ≡ v = ground (arith, keep_if-elem kept v w rest, eq_iff v w) in
                (
                  ground (arith, keep_if-elem kept v w rest),
                  subst (IsCandidate current lifecycle) same (e1 ∙ ap ok passed),
                )
          ]))

  pub elem-candidates :
      (installed found : List String) (v : String)
      → candidates current lifecycle installed ≡ ok found
      → elem v installed ≡ true
      → IsCandidate current lifecycle v
      → elem v found ≡ true
  unfolding candidates elem
  elem-candidates [] found v h m c = cc
  elem-candidates (w ∷ installed) found v h0 m c =
      >>=-elim (is_candidate current lifecycle w) _ h0 (λ kept e1 h1.
        >>=-elim (candidates current lifecycle installed) _ h1 (λ rest e2 h2.
          subst (λ xs. elem v xs ≡ true) (ok-injective (keep_if kept w rest) found h2)
            (elim (Bool-cases (v == w)) [
              | inl t ↦
                  let same = (eq_iff v w).0 t in
                  let passed =
                    ok-injective kept true
                      (sym e1 ∙ subst (IsCandidate current lifecycle) same c) in
                  ground (arith, passed, t, keep_if-elem kept v w rest)
              | inr f ↦
                  let listed = elem-candidates installed rest v e2 (ground arith) c in
                  ground (arith, listed, keep_if-elem kept v w rest)
            ])))
