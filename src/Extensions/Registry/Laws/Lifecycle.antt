-- ===== src/Extensions/Registry/Laws/Lifecycle.antt =====
-- What holds of a registry whatever is called.
use mathlib.Core.Path.{subst}
use mathlib.Core.Option.{some-injective}
use kris_ai.Base.{
  ℤ, String, ◌≡◌, refl, sym, ap, ◌∙◌, ◌==◌, Bool, true, false, Option, none, some, [], Bool-cases,
  inl, inr, eq_iff, arith,
}
use kris_ai.Base.Outcome.{ok, raise}
use kris_ai.Base.Dict.{lookup, insert, lookup-insert, lookup-insert_same}
use kris_ai.Trust.Ed25519.{Ed25519}
use kris_ai.Extensions.Manifest.{ExtensionManifestV2, identity}
use kris_ai.Extensions.Registry.{
  InstalledExtension, Registry, Candidate, required, enable, disable, revoke, install, updated,
  update,
}
use kris_ai.Extensions.Registry.Laws.{
  enable-IsChanged, disable-IsChanged, revoke-IsChanged, install-IsInstalled, update-IsUpdated,
}

-- An extension stored under a name has it as its identity, and is on only if it was not revoked and
-- waits for no review of its capabilities.
pub record IsSound (name : String) (e : InstalledExtension) : Type 0 where
  pub named : identity e.manifest ≡ name
  pub on : e.enabled ≡ true → (e.revoked ≡ false) × (e.capability_review_required ≡ false)

abbrev pub AllSound : Registry → Type 0
AllSound r = (name : String) (e : InstalledExtension) → lookup name r ≡ some e → IsSound name e

insert-AllSound :
    (r : Registry) (name : String) (e : InstalledExtension)
    → AllSound r
    → IsSound name e
    → AllSound (insert name e r)
insert-AllSound r name e all sound other f h = elim (Bool-cases (name == other)) [
  | inl t ↦
      let k = (eq_iff name other).0 t in
      let same = some-injective e f (rw (lookup-insert name other e r, t) at h) in
      subst (λ x. IsSound x f) k (subst (IsSound name) same sound)
  | inr n ↦ all other f (rw (lookup-insert name other e r, n) at h)
]

-- The extension of a name was revoked.
pub record IsRevoked (name : String) (r : Registry) : Type 0 where
  pub extension : InstalledExtension
  pub known : lookup name r ≡ some extension
  pub is_revoked : extension.revoked ≡ true

insert-IsRevoked :
    (r : Registry) (name other : String) (e : InstalledExtension)
    → IsRevoked name r
    → (other ≡ name → e.revoked ≡ true)
    → IsRevoked name (insert other e r)
insert-IsRevoked r name other e i keep = elim (Bool-cases (other == name)) [
  | inl t ↦ record {
    extension = e;
    known = rw (lookup-insert other name e r, t) refl;
    is_revoked = keep ((eq_iff other name).0 t);
  }
  | inr n ↦ record {
    extension = i.extension;
    known = rw (lookup-insert other name e r, n) i.known;
    is_revoked = i.is_revoked;
  }
]

-- What is looked up is revoked, so it cannot be found not revoked or missing.
clash :
    (r : Registry) (name other : String) (prior : InstalledExtension) (e : InstalledExtension)
    → IsRevoked name r
    → lookup other r ≡ some prior
    → prior.revoked ≡ false
    → other ≡ name
    → e.revoked ≡ true
clash r name other prior e i known live same =
    let found = some-injective i.extension prior (sym i.known ∙ (rw same at known)) in
    absurd (differ (sym i.is_revoked ∙ (ap InstalledExtension.revoked found ∙ live)))
  where
    differ : true ≡ false → ⊥
    differ p = cc

missing :
    (r : Registry) (name other : String) (e : InstalledExtension)
    → IsRevoked name r
    → lookup other r ≡ none
    → other ≡ name
    → e.revoked ≡ true
missing r name other e i free same = absurd (differ (sym i.known ∙ (rw same at free)))
  where
    differ : some i.extension ≡ none → ⊥
    differ p = cc

updated_on :
    (prior : InstalledExtension) (manifest : ExtensionManifestV2) (digest : String)
    → (updated prior manifest digest).enabled ≡ true
    → (false ≡ false) × ((updated prior manifest digest).capability_review_required ≡ false)
unfolding updated
updated_on prior manifest digest h = (refl, ground arith)

module _ (library : Ed25519) (from_iso : String → Option ℤ) (sha256 : String → String) where
  -- One call that changes the registry.
  pub data Step : Registry → Registry → Type 0 where
    installed :
        (c : Candidate) {e : InstalledExtension} {r s : Registry}
        → install library from_iso sha256 r c ≡ ok (e, s)
        → Step r s
    renewed :
        (name : String) (c : Candidate) {e : InstalledExtension} {r s : Registry}
        → update library from_iso sha256 r name c ≡ ok (e, s)
        → Step r s
    enabled :
        (name : String) (approved : Bool) {e : InstalledExtension} {r s : Registry}
        → enable r name approved ≡ ok (e, s)
        → Step r s
    disabled :
        (name : String) {e : InstalledExtension} {r s : Registry}
        → disable r name ≡ ok (e, s)
        → Step r s
    revoked :
        (name : String) {e : InstalledExtension} {r s : Registry}
        → revoke r name ≡ ok (e, s)
        → Step r s

  pub data Reaches : Registry → Registry → Type 0 where
    done : {r : Registry} → Reaches r r
    after : {r s t : Registry} → Step r s → Reaches s t → Reaches r t

  Step-AllSound : {r s : Registry} → Step r s → AllSound r → AllSound s
  unfolding updated
  Step-AllSound {r} {s} (installed c {e} h) all =
      let i = install-IsInstalled library from_iso sha256 r s c e h in
      subst AllSound (sym i.stored) (
        insert-AllSound r (identity e.manifest) e all
          (record { named = refl; on = λ on. ground (arith, i.off) }))
  Step-AllSound {r} {s} (renewed name c {e} h) all =
      let u = update-IsUpdated library from_iso sha256 r s name c e h in
      subst AllSound (sym u.stored) (
        insert-AllSound r name e all (record {
          named = u.same_identity;
          on =
              subst
                (λ x.
                  x.enabled ≡ true → (x.revoked ≡ false) × (x.capability_review_required ≡ false))
                (sym u.changed) (updated_on u.prior e.manifest e.manifest_sha256);
        }))
  Step-AllSound {r} {s} (enabled name approved {e} h) all =
      let (c, live, same) = enable-IsChanged r s name approved e h in
      subst AllSound (sym c.stored) (
        insert-AllSound r name e all (
          subst (IsSound name) (sym same)
            (record { named = (all name c.prior c.known).named; on = λ _. (live, refl) })))
  Step-AllSound {r} {s} (disabled name {e} h) all =
      let (c, same) = disable-IsChanged r s name e h in
      subst AllSound (sym c.stored) (
        insert-AllSound r name e all (
          subst (IsSound name) (sym same)
            (record { named = (all name c.prior c.known).named; on = λ on. cc })))
  Step-AllSound {r} {s} (revoked name {e} h) all =
      let (c, same) = revoke-IsChanged r s name e h in
      subst AllSound (sym c.stored) (
        insert-AllSound r name e all (
          subst (IsSound name) (sym same)
            (record { named = (all name c.prior c.known).named; on = λ on. cc })))

  Reaches-AllSound : {r s : Registry} → Reaches r s → AllSound r → AllSound s
  Reaches-AllSound done all = all
  Reaches-AllSound (after step rest) all = Reaches-AllSound rest (Step-AllSound step all)

  -- In every registry that is reached from the empty one, an extension is stored under its own
  -- identity, and one that is on was not revoked and waits for no review of its capabilities.
  pub empty-IsSound :
      (r : Registry) (name : String) (e : InstalledExtension)
      → Reaches [] r
      → lookup name r ≡ some e
      → IsSound name e
  unfolding lookup
  empty-IsSound r name e steps known = Reaches-AllSound steps (λ other f h. cc) name e known

  Step-IsRevoked : (name : String) {r s : Registry} → Step r s → IsRevoked name r → IsRevoked name s
  Step-IsRevoked name {r} {s} (installed c {e} h) i =
      let j = install-IsInstalled library from_iso sha256 r s c e h in
      subst (IsRevoked name) (sym j.stored) (
        insert-IsRevoked r name (identity e.manifest) e i
          (missing r name (identity e.manifest) e i j.free))
  Step-IsRevoked name {r} {s} (renewed other c {e} h) i =
      let u = update-IsUpdated library from_iso sha256 r s other c e h in
      subst (IsRevoked name) (sym u.stored)
        (insert-IsRevoked r name other e i (clash r name other u.prior e i u.known u.not_revoked))
  Step-IsRevoked name {r} {s} (enabled other approved {e} h) i =
      let (c, live, _) = enable-IsChanged r s other approved e h in
      subst (IsRevoked name) (sym c.stored)
        (insert-IsRevoked r name other e i (clash r name other c.prior e i c.known live))
  Step-IsRevoked name {r} {s} (disabled other {e} h) i =
      let (c, same) = disable-IsChanged r s other e h in
      subst (IsRevoked name) (sym c.stored) (
        insert-IsRevoked r name other e i (λ k.
          ap InstalledExtension.revoked same
          ∙ (ap InstalledExtension.revoked
                (some-injective c.prior i.extension (sym (rw k at c.known) ∙ i.known))
              ∙ i.is_revoked)))
  Step-IsRevoked name {r} {s} (revoked other {e} h) i =
      let (c, same) = revoke-IsChanged r s other e h in
      subst (IsRevoked name) (sym c.stored)
        (insert-IsRevoked r name other e i (λ k. ap InstalledExtension.revoked same))

  Reaches-IsRevoked :
      (name : String) {r s : Registry} → Reaches r s → IsRevoked name r → IsRevoked name s
  Reaches-IsRevoked name done i = i
  Reaches-IsRevoked name (after step rest) i =
      Reaches-IsRevoked name rest (Step-IsRevoked name step i)

  revoke-IsRevoked :
      (r s : Registry) (name : String) (e : InstalledExtension)
      → revoke r name ≡ ok (e, s)
      → IsRevoked name s
  revoke-IsRevoked r s name e h =
      let (c, same) = revoke-IsChanged r s name e h in
      record {
        extension = e;
        known = rw c.stored (lookup-insert_same name e r);
        is_revoked = ap InstalledExtension.revoked same;
      }

  -- An extension that was revoked is never switched on or updated again, with or without an approval
  -- of its capabilities, whatever is called in between.
  pub revoke-enable :
      (r s t : Registry) (name : String) (e : InstalledExtension) (approved : Bool) (c : Candidate)
      → revoke r name ≡ ok (e, s)
      → Reaches s t
      → (enable t name approved ≡ raise "extension_revoked")
        × (update library from_iso sha256 t name c ≡ raise "extension_identity_revoked")
  unfolding enable update required
  revoke-enable r s t name e approved c h steps =
      let i = Reaches-IsRevoked name steps (revoke-IsRevoked r s name e h) in
      (
        rw (enable, required, i.known, i.is_revoked) refl,
        rw (update, required, i.known, i.is_revoked) refl,
      )
