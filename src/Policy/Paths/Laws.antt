-- ===== src/Policy/Paths/Laws.antt =====
-- The intersection of two lists of path prefixes.
use mathlib.Core.Path.{subst}
use kris_ai.Base.{
  String, ◌≡◌, refl, sym, ap, ◌∙◌, Bool, true, false, List, [], ◌∷◌, ◌++◌, ◌⊎◌, inl, inr, elem,
  elem-append, elem-sorted_set, sorted_set, starts_with, Bool-cases, eq_iff, eq_refl, ◌==◌, arith,
  if◌then◌else◌,
}
use kris_ai.Base.Outcome.{ok, >>=-elim, ok-injective, ◌>>=◌}
use kris_ai.Policy.Paths.{
  normalize_path, lies_within, path_within, narrower, narrower_all, narrower_pairs,
  path_intersection,
}

-- The path lies within a prefix of each list, in normal form.
pub record IsCommon (path : String) (lefts rights : List String) : Type 0 where
  pub left : String
  pub right : String
  pub left_normal : String
  pub right_normal : String
  pub left_listed : elem left lefts ≡ true
  pub right_listed : elem right rights ≡ true
  pub left_eq : normalize_path left ≡ ok left_normal
  pub right_eq : normalize_path right ≡ ok right_normal
  pub in_left : lies_within path left_normal ≡ true
  pub in_right : lies_within path right_normal ≡ true

root_within : starts_with "/" "/" ≡ true
unfolding starts_with
root_within = refl

lies_within_refl : (path : String) → lies_within path path ≡ true
unfolding lies_within
lies_within_refl path = elim (Bool-cases (path == "/")) [
  | inl t ↦ rw ((eq_iff path "/").0 t) root_within
  | inr f ↦ ground (arith, eq_refl path)
]

path_within-lies :
    (path prefix : String)
    → path_within path prefix ≡ ok true
    → (p : String) × (q : String) × (normalize_path path ≡ ok p)
      × (normalize_path prefix ≡ ok q)
      × (lies_within p q ≡ true)
unfolding path_within
path_within-lies path prefix h0 = >>=-elim (normalize_path path) _ h0 (λ p e1 h1.
    >>=-elim (normalize_path prefix) _ h1
      (λ q e2 h2. (p, q, e1, e2, ok-injective (lies_within p q) true h2)))

common :
    (z left right p q : String) (lefts rights : List String)
    → elem left lefts ≡ true
    → elem right rights ≡ true
    → normalize_path left ≡ ok p
    → normalize_path right ≡ ok q
    → lies_within z p ≡ true
    → lies_within z q ≡ true
    → IsCommon z lefts rights
common z left right p q lefts rights hl hr e1 e2 i j = record {
  left = left;
  right = right;
  left_normal = p;
  right_normal = q;
  left_listed = hl;
  right_listed = hr;
  left_eq = e1;
  right_eq = e2;
  in_left = i;
  in_right = j;
}

singleton-elem : (z x : String) → elem z (x ∷ []) ≡ true → z ≡ x
unfolding elem
singleton-elem z x h = ground (arith, eq_iff z x)

absurd_elem : {A : Type 0} (z : String) → elem z [] ≡ true → A
unfolding elem
absurd_elem z e = cc

in_append :
    (z : String) (xs ys zs : List String)
    → (xs ++ ys) ≡ zs
    → elem z zs ≡ true
    → (elem z xs ≡ true) ⊎ (elem z ys ≡ true)
in_append z xs ys zs h e =
    let whole = sym (elem-append z xs ys) ∙ (ap (elem z) h ∙ e) in
    elim (Bool-cases (elem z xs)) [ inl t ↦ inl t | inr f ↦ inr (ground arith) ]

normal_unique : (x p q : String) → normalize_path x ≡ ok p → normalize_path x ≡ ok q → p ≡ q
normal_unique x p q e f = ok-injective p q (sym e ∙ f)

-- The normal form of a prefix that lies within the other one.
inner-lies :
    (z inner outer : String) (found : List String)
    → path_within inner outer ≡ ok true
    → (normalize_path inner >>= λ n. ok (n ∷ [])) ≡ ok found
    → elem z found ≡ true
    → (p : String) × (q : String) × (normalize_path inner ≡ ok p)
      × (normalize_path outer ≡ ok q)
      × (lies_within z p ≡ true)
      × (lies_within z q ≡ true)
inner-lies z inner outer found within h e = >>=-elim (normalize_path inner) _ h (λ n en h2.
    let (p, q, ep, eq, l) = path_within-lies inner outer within in
    let listed = subst (λ xs. elem z xs ≡ true) (sym (ok-injective (n ∷ []) found h2)) e in
    let z_p = singleton-elem z n listed ∙ normal_unique inner n p en ep in
    (p, q, ep, eq, rw z_p (lies_within_refl p), rw z_p l))

module _ (z left right : String) (lefts rights found : List String) (hl : elem left lefts ≡ true)
    (hr : elem right rights ≡ true) (e : elem z found ≡ true) where
  outer-IsCommon :
      (outer : Bool)
      → path_within right left ≡ ok outer
      → (if outer then normalize_path right >>= (λ n. ok (n ∷ [])) else ok []) ≡ ok found
      → IsCommon z lefts rights
  outer-IsCommon true w h =
      let (q, p, eq, ep, j, i) = inner-lies z right left found w h e in
      common z left right p q lefts rights hl hr ep eq i j
  outer-IsCommon false w h =
      absurd_elem z (subst (λ xs. elem z xs ≡ true) (sym (ok-injective [] found h)) e)

  narrower-IsCommon : narrower left right ≡ ok found → IsCommon z lefts rights
  unfolding narrower
  narrower-IsCommon h0 = >>=-elim (path_within left right) _ h0 (λ inner e1 h1.
      elim (Bool-cases inner) [
        | inl t ↦
            let (p, q, ep, eq, i, j) =
              inner-lies z left right found (e1 ∙ ap ok t) (rw t at h1) e in
            common z left right p q lefts rights hl hr ep eq i j
        | inr f ↦ >>=-elim (path_within right left) _ (rw f at h1) outer-IsCommon
      ])

narrower_all-IsCommon :
    (z left : String) (lefts rights rest found : List String)
    → elem left lefts ≡ true
    → ((r : String) → elem r rest ≡ true → elem r rights ≡ true)
    → narrower_all left rest ≡ ok found
    → elem z found ≡ true
    → IsCommon z lefts rights
unfolding narrower_all elem
narrower_all-IsCommon z left lefts rights [] found hl sub h e =
    absurd_elem z (subst (λ xs. elem z xs ≡ true) (sym (ok-injective [] found h)) e)
narrower_all-IsCommon z left lefts rights (r ∷ rest) found hl sub h0 e =
    >>=-elim (narrower left r) _ h0 (λ here e1 h1.
      >>=-elim (narrower_all left rest) _ h1 (λ others e2 h2.
        let either = in_append z here others found (ok-injective (here ++ others) found h2) e in
        elim either [
          | inl a ↦
              narrower-IsCommon z left r lefts rights here hl (sub r (ground (arith, eq_refl r))) a
                e1
          | inr b ↦
              narrower_all-IsCommon z left lefts rights rest others hl (λ x m. sub x (ground arith))
                e2 b
        ]))

narrower_pairs-IsCommon :
    (z : String) (lefts rights rest found : List String)
    → ((l : String) → elem l rest ≡ true → elem l lefts ≡ true)
    → narrower_pairs rest rights ≡ ok found
    → elem z found ≡ true
    → IsCommon z lefts rights
unfolding narrower_pairs elem
narrower_pairs-IsCommon z lefts rights [] found sub h e =
    absurd_elem z (subst (λ xs. elem z xs ≡ true) (sym (ok-injective [] found h)) e)
narrower_pairs-IsCommon z lefts rights (l ∷ rest) found sub h0 e =
    >>=-elim (narrower_all l rights) _ h0 (λ here e1 h1.
      >>=-elim (narrower_pairs rest rights) _ h1 (λ others e2 h2.
        let either = in_append z here others found (ok-injective (here ++ others) found h2) e in
        elim either [
          | inl a ↦
              narrower_all-IsCommon z l lefts rights rights here (sub l (ground (arith, eq_refl l)))
                (λ x m. m) e1 a
          | inr b ↦
              narrower_pairs-IsCommon z lefts rights rest others (λ x m. sub x (ground arith)) e2 b
        ]))

-- Every prefix in the result of `_path_intersection` lies within the normal form of a current prefix
-- and within that of a prefix of the constraint.
pub path_intersection-IsCommon :
    (z : String) (current constraint found : List String)
    → path_intersection current constraint ≡ ok found
    → elem z found ≡ true
    → IsCommon z current constraint
unfolding path_intersection
path_intersection-IsCommon z current constraint found h0 e =
    >>=-elim (narrower_pairs current constraint) _ h0 (λ pairs e1 h1.
      let listed =
        subst (λ xs. elem z xs ≡ true) (sym (ok-injective (sorted_set pairs) found h1)) e in
      narrower_pairs-IsCommon z current constraint current pairs (λ l m. m) e1
        (sym (elem-sorted_set z pairs) ∙ listed))
