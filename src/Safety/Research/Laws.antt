-- ===== src/Safety/Research/Laws.antt =====
-- When a research answer is accepted.
use kris_ai.Base.{
  ℕ, ◌+◌, ◌<◌, ℤ, pos, ◌+ℤ◌, ◌*ℤ◌, ◌≤ℤ◌, String, ◌≡◌, ◌↔◌, ◌≢◌, refl, sym, ap, ◌∙◌, true, false,
  ◌==◌, Option, none, some, List, [], ◌∷◌, elem, is_empty, is_empty-append, is_blank, eq_iff,
  &&-true, if◌then◌else◌, arith,
}
use kris_ai.Base.Dict.{
  Dict, lookup, lookup-insert, NodupKeys, insert-NodupKeys, AllEntries, AllEntries-lookup,
  lookup-AllEntries,
}
use kris_ai.Safety.Research.{
  ResearchClaim, Findings, source_types, get_or, count_group, undeclared, fetch_time, is_stale,
  dated_failures, claim_failures, check_claim, check_claims, verify,
}

-- How many claims name a group.
pub group_count : String → List ResearchClaim → ℕ
group_count g [] = 0
group_count g (claim ∷ claims) = (if claim.conflict_group == g then 1 else 0) + group_count g claims

-- The properties of an entry that the last loop accepts.
abbrev pub Surfaced : List String → String → ℕ → Type 0
Surfaced declared g n = 1 < n → elem g declared ≡ true

undeclared-AllEntries :
    (declared : List String) (d : Dict ℕ)
    → (is_empty (undeclared declared d) ≡ true) ↔ AllEntries (Surfaced declared) d
unfolding undeclared
undeclared-AllEntries declared [] = (λ _. tt, λ _. refl)
undeclared-AllEntries declared ((g, n) ∷ d) = ground (arith, undeclared-AllEntries declared d)

count_group-NodupKeys : (g : String) (d : Dict ℕ) → NodupKeys d → NodupKeys (count_group g d)
unfolding count_group
count_group-NodupKeys g d u = ground (arith, insert-NodupKeys g (get_or (lookup g d) 0 + 1) d u)

lookup-count_group :
    (g j : String) (d : Dict ℕ)
    → j ≢ ""
    → get_or (lookup j (count_group g d)) 0 ≡ (if g == j then 1 else 0) + get_or (lookup j d) 0
unfolding count_group
lookup-count_group g j d n =
    ground (arith, eq_iff g "", eq_iff g j, lookup-insert g j (get_or (lookup g d) 0 + 1) d)

count_group_nameless :
    (g : String) (d : Dict ℕ) → lookup "" d ≡ none → lookup "" (count_group g d) ≡ none
unfolding count_group
count_group_nameless g d h = ground (arith, lookup-insert g "" (get_or (lookup g d) 0 + 1) d)

Surfaced-lookup :
    (declared : List String) (d : Dict ℕ) (g : String)
    → AllEntries (Surfaced declared) d
    → 1 < get_or (lookup g d) 0
    → elem g declared ≡ true
Surfaced-lookup declared d g a = go (lookup g d) refl
  where
    go : (o : Option ℕ) → lookup g d ≡ o → 1 < get_or o 0 → elem g declared ≡ true
    go none e h = absurd (omega arith)
    go (some v) e h = lookup-AllEntries (Surfaced declared) d g v a e h

-- A key with an entry is not the empty name.
named : (k : String) (v : ℕ) (d : Dict ℕ) → lookup "" d ≡ none → lookup k d ≡ some v → k ≢ ""
named k v d absent e e' = cc (ap (λ (j : String). lookup j d) e')

module _ (from_iso : String → Option ℤ) where
  -- What an answer needs of each claim.
  pub record IsSupported (now : ℤ) (claim : ResearchClaim) : Type 0 where
    pub fetched : claim.fetched ≡ true
    pub whole : claim.snippet_only ≡ false
    pub cited : is_blank claim.citation_locator ≡ false
    pub fresh :
        (t : ℤ) × (fetch_time from_iso claim ≡ some t)
        × (now ≤ℤ t +ℤ claim.freshness_seconds *ℤ pos 1000000)
    pub source : elem claim.source_type source_types ≡ true

  is_stale-fresh :
      (now : ℤ) (claim : ResearchClaim) (t : ℤ)
      → (is_stale from_iso now claim t ≡ false)
        ↔ (now ≤ℤ t +ℤ claim.freshness_seconds *ℤ pos 1000000)
  unfolding is_stale
  is_stale-fresh now claim t = (λ h. ground arith, λ h. ground arith)

  dated-fresh :
      (now : ℤ) (claim : ResearchClaim) (o : Option ℤ)
      → is_empty (dated_failures from_iso now claim o) ≡ true
      → ((t : ℤ) × (o ≡ some t) × (is_stale from_iso now claim t ≡ false))
        × (elem claim.source_type source_types ≡ true)
  unfolding dated_failures
  dated-fresh now claim none h = cc
  dated-fresh now claim (some t) h = ((t, refl, ground arith), ground arith)

  fresh-dated :
      (now : ℤ) (claim : ResearchClaim) (o : Option ℤ) (t : ℤ)
      → o ≡ some t
      → is_stale from_iso now claim t ≡ false
      → elem claim.source_type source_types ≡ true
      → is_empty (dated_failures from_iso now claim o) ≡ true
  unfolding dated_failures
  fresh-dated now claim o t e f s = rw e (ground arith)

  claim_failures-IsSupported :
      (now : ℤ) (claim : ResearchClaim)
      → is_empty (claim_failures from_iso now claim) ≡ true
      → IsSupported now claim
  unfolding claim_failures
  claim_failures-IsSupported now claim h =
      let dated = dated_failures from_iso now claim (fetch_time from_iso claim) in
      let none_dated : is_empty dated ≡ true = ground arith in
      let ((t, e, f), s) = dated-fresh now claim (fetch_time from_iso claim) none_dated in
      record {
        fetched = ground arith;
        whole = ground arith;
        cited = ground arith;
        fresh = (t, e, (is_stale-fresh now claim t).0 f);
        source = s;
      }

  IsSupported-claim_failures :
      (now : ℤ) (claim : ResearchClaim)
      → IsSupported now claim
      → is_empty (claim_failures from_iso now claim) ≡ true
  unfolding claim_failures
  IsSupported-claim_failures now claim s =
      let (t, e, f) = s.fresh in
      let none_dated =
        fresh-dated now claim (fetch_time from_iso claim) t e ((is_stale-fresh now claim t).1 f)
          s.source in
      ground arith

  -- A claim without failures has a date, so its group is counted.
  count_supported :
      (now : ℤ) (f : Findings) (claim : ResearchClaim)
      → IsSupported now claim
      → (check_claim from_iso now f claim).conflicts ≡ count_group claim.conflict_group f.conflicts
  unfolding check_claim
  count_supported now f claim s = let (t, e, _) = s.fresh in rw e

  abbrev AllSupported : ℤ → List ResearchClaim → Type 0
  AllSupported now [] = Unit
  AllSupported now (claim ∷ claims) = IsSupported now claim × AllSupported now claims

  failures-check_claims :
      (now : ℤ) (f : Findings) (claims : List ResearchClaim)
      → (is_empty (check_claims from_iso now f claims).failures ≡ true)
        ↔ ((is_empty f.failures ≡ true) × AllSupported now claims)
  unfolding check_claims
  failures-check_claims now f [] = (λ h. (h, tt), λ h. h.0)
  failures-check_claims now f (claim ∷ claims) =
      let rest = failures-check_claims now (check_claim from_iso now f claim) claims in
      (
        λ h.
            let (a, more) = rest.0 h in
            let (x, y) =
              &&-true _ _
                (sym (is_empty-append f.failures (claim_failures from_iso now claim)) ∙ a) in
            (x, (claim_failures-IsSupported now claim y, more)),
        λ (x, (s, more)). rest.1 (
          is_empty-append f.failures (claim_failures from_iso now claim)
              ∙ rw x (IsSupported-claim_failures now claim s),
          more,
        ),
      )

  -- The dictionary of conflicts is a dict, has no empty group, and holds the number of claims of
  -- each group.
  conflicts-NodupKeys :
      (now : ℤ) (f : Findings) (claims : List ResearchClaim)
      → AllSupported now claims
      → NodupKeys f.conflicts
      → NodupKeys (check_claims from_iso now f claims).conflicts
  unfolding check_claims
  conflicts-NodupKeys now f [] s u = u
  conflicts-NodupKeys now f (claim ∷ claims) (s, ss) u =
      conflicts-NodupKeys now (check_claim from_iso now f claim) claims ss
        (rw (count_supported now f claim s) (count_group-NodupKeys claim.conflict_group _ u))

  conflicts_no_empty :
      (now : ℤ) (f : Findings) (claims : List ResearchClaim)
      → AllSupported now claims
      → lookup "" f.conflicts ≡ none
      → lookup "" (check_claims from_iso now f claims).conflicts ≡ none
  unfolding check_claims
  conflicts_no_empty now f [] s u = u
  conflicts_no_empty now f (claim ∷ claims) (s, ss) u =
      conflicts_no_empty now (check_claim from_iso now f claim) claims ss
        (rw (count_supported now f claim s) (count_group_nameless claim.conflict_group _ u))

  conflicts_count :
      (now : ℤ) (f : Findings) (claims : List ResearchClaim) (g : String)
      → AllSupported now claims
      → g ≢ ""
      → get_or (lookup g (check_claims from_iso now f claims).conflicts) 0
        ≡ group_count g claims + get_or (lookup g f.conflicts) 0
  unfolding check_claims group_count
  conflicts_count now f [] g s n = omega arith
  conflicts_count now f (claim ∷ claims) g (s, ss) n = omega (
    arith,
    conflicts_count now (check_claim from_iso now f claim) claims g ss n,
    ap (λ (d : Dict ℕ). get_or (lookup g d) 0) (count_supported now f claim s),
    lookup-count_group claim.conflict_group g f.conflicts n,
  )

  -- What the policy asks of an answer.
  pub record IsAnswerable (now : ℤ) (claims : List ResearchClaim) (declared : List String)
      : Type 0 where
    pub supported : AllSupported now claims
    pub surfaced : (g : String) → g ≢ "" → 1 < group_count g claims → elem g declared ≡ true

  abbrev start : Findings
  start = record { failures = []; conflicts = [] }

  verify-IsAnswerable_of :
      (now : ℤ) (claims : List ResearchClaim) (declared : List String)
      → (verify from_iso claims now declared).0 ≡ true
      → IsAnswerable now claims declared
  unfolding verify lookup
  verify-IsAnswerable_of now claims declared h =
      let f = check_claims from_iso now start claims in
      let (x, y) =
        &&-true _ _ (sym (is_empty-append f.failures (undeclared declared f.conflicts)) ∙ h) in
      let (_, s) = (failures-check_claims now start claims).0 x in
      record {
        supported = s;
        surfaced = λ g n many.
            Surfaced-lookup declared f.conflicts g
              ((undeclared-AllEntries declared f.conflicts).0 y)
              (omega (arith, conflicts_count now start claims g s n));
      }

  IsAnswerable-verify :
      (now : ℤ) (claims : List ResearchClaim) (declared : List String)
      → IsAnswerable now claims declared
      → (verify from_iso claims now declared).0 ≡ true
  unfolding verify lookup
  IsAnswerable-verify now claims declared a =
      let f = check_claims from_iso now start claims in
      let no_failures = (failures-check_claims now start claims).1 (refl, a.supported) in
      let absent = conflicts_no_empty now start claims a.supported refl in
      let entries =
        AllEntries-lookup (Surfaced declared) f.conflicts
          (conflicts-NodupKeys now start claims a.supported tt)
          (λ k v e many.
            let n : k ≢ "" = λ e'. named k v f.conflicts absent e e' in
            a.surfaced k n (
              omega (
                arith,
                conflicts_count now start claims k a.supported n,
                ap (λ (o : Option ℕ). get_or o 0) e,
              ))) in
      is_empty-append f.failures (undeclared declared f.conflicts)
      ∙ rw no_failures ((undeclared-AllEntries declared f.conflicts).1 entries)

  -- An answer is accepted exactly when each of its claims was fetched as a whole, is cited, is no
  -- older than it allows and has a known source type, and every group that several claims name is
  -- declared as a disagreement.
  pub verify-IsAnswerable :
      (now : ℤ) (claims : List ResearchClaim) (declared : List String)
      → ((verify from_iso claims now declared).0 ≡ true) ↔ IsAnswerable now claims declared
  verify-IsAnswerable now claims declared =
      (verify-IsAnswerable_of now claims declared, IsAnswerable-verify now claims declared)
