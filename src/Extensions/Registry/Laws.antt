-- ===== src/Extensions/Registry/Laws.antt =====
-- What each operation of the registry that returns has done.
pub mod Lifecycle
pub mod Update
use mathlib.Core.Path.{subst}
use kris_ai.Base.{
  ℤ, String, ◌≡◌, refl, sym, ap, ◌∙◌, ◌==◌, Bool, true, false, not, ◌&&◌, Option, none, some, List,
  is_empty, eq_iff, arith, if◌then◌else◌,
}
use kris_ai.Base.Outcome.{Outcome, ok, raise, >>=-elim, ok-injective, refuse_if-eq-ok}
use kris_ai.Base.Dict.{lookup, insert}
use kris_ai.Trust.Ed25519.{Ed25519}
use kris_ai.Extensions.Manifest.{
  ExtensionManifestV2, identity, VersionTuple, version_tuple, at_most,
}
use kris_ai.Extensions.Registry.{
  InstalledExtension, Registry, Candidate, required, with_flags, store, check_absent, enable,
  disable, revoke, verify_candidate, install, updated, update,
}

required-known :
    (r : Registry) (name : String) (e : InstalledExtension)
    → required r name ≡ ok e
    → lookup name r ≡ some e
unfolding required
required-known r name e h = grind arith

-- An operation on an installed extension stored a new state of it.
pub record IsChanged (r : Registry) (name : String) (e : InstalledExtension) (s : Registry)
    : Type 0 where
  pub prior : InstalledExtension
  pub known : lookup name r ≡ some prior
  pub stored : s ≡ insert name e r

stored_as :
    (name : String) (made e : InstalledExtension) (r s : Registry)
    → ◌≡◌ {A = Outcome (InstalledExtension × Registry)} (ok (store name made r)) (ok (e, s))
    → (e ≡ made) × (s ≡ insert name e r)
unfolding store
stored_as name made e r s h =
    let same = sym (ok-injective _ (e, s) h) in
    (ap (λ p. p.0) same, ap (λ p. p.1) same ∙ ap (λ x. insert name x r) (sym (ap (λ p. p.0) same)))

pub enable-IsChanged :
    (r s : Registry) (name : String) (approved : Bool) (e : InstalledExtension)
    → enable r name approved ≡ ok (e, s)
    → (c : IsChanged r name e s) × (c.prior.revoked ≡ false)
      × (e ≡ with_flags c.prior true c.prior.revoked false)
unfolding enable
enable-IsChanged r s name approved e h0 = >>=-elim (required r name) _ h0 (λ prior a h1.
    let (b, h2) = refuse_if-eq-ok prior.revoked _ _ h1 in
    let (_, h3) = refuse_if-eq-ok (prior.capability_review_required && not approved) _ _ h2 in
    let (same, stored) = stored_as name (with_flags prior true prior.revoked false) e r s h3 in
    (record { prior = prior; known = required-known r name prior a; stored = stored }, b, same))

pub disable-IsChanged :
    (r s : Registry) (name : String) (e : InstalledExtension)
    → disable r name ≡ ok (e, s)
    → (c : IsChanged r name e s) × (e
        ≡ with_flags c.prior false c.prior.revoked c.prior.capability_review_required)
unfolding disable
disable-IsChanged r s name e h0 = >>=-elim (required r name) _ h0 (λ prior a h1.
    let (same, stored) =
      stored_as name (with_flags prior false prior.revoked prior.capability_review_required) e r s
        h1 in
    (record { prior = prior; known = required-known r name prior a; stored = stored }, same))

pub revoke-IsChanged :
    (r s : Registry) (name : String) (e : InstalledExtension)
    → revoke r name ≡ ok (e, s)
    → (c : IsChanged r name e s) × (e ≡ with_flags c.prior false true false)
unfolding revoke
revoke-IsChanged r s name e h0 = >>=-elim (required r name) _ h0 (λ prior a h1.
    let (same, stored) = stored_as name (with_flags prior false true false) e r s h1 in
    (record { prior = prior; known = required-known r name prior a; stored = stored }, same))

check_absent-none :
    (o : Option InstalledExtension) (done : Unit {0}) → check_absent o ≡ ok done → o ≡ none
check_absent-none none done h = refl
check_absent-none (some e) done h = cc

module _ (library : Ed25519) (from_iso : String → Option ℤ) (sha256 : String → String) where
  -- An installation stored an extension that is off under an identity that was free.
  pub record IsInstalled (r : Registry) (c : Candidate) (e : InstalledExtension) (s : Registry)
      : Type 0 where
    pub verified : verify_candidate library from_iso sha256 c ≡ ok (e.manifest, e.manifest_sha256)
    pub free : lookup (identity e.manifest) r ≡ none
    pub off : e.enabled ≡ false
    pub reviewed : e.capability_review_required ≡ not (is_empty e.manifest.requested_capabilities)
    pub stored : s ≡ insert (identity e.manifest) e r

  pub install-IsInstalled :
      (r s : Registry) (c : Candidate) (e : InstalledExtension)
      → install library from_iso sha256 r c ≡ ok (e, s)
      → IsInstalled r c e s
  unfolding install
  install-IsInstalled r s c e h0 =
      >>=-elim (verify_candidate library from_iso sha256 c) _ h0 (λ (manifest, digest) a h1.
        >>=-elim (check_absent (lookup (identity manifest) r)) _ h1 (λ absent b h2.
          let (same, stored) = stored_as (identity manifest) _ e r s h2 in
          subst (λ x. (s ≡ insert (identity manifest) x r) → IsInstalled r c x s) (sym same)
            (λ q. record {
              verified = a;
              free = check_absent-none (lookup (identity manifest) r) absent b;
              off = refl;
              reviewed = refl;
              stored = q;
            })
            stored))

  -- An update stored the new state of an extension that was not revoked.
  pub record IsUpdated (r : Registry) (name : String) (c : Candidate) (e : InstalledExtension)
      (s : Registry) : Type 0 where
    pub prior : InstalledExtension
    pub new : VersionTuple
    pub old : VersionTuple
    pub known : lookup name r ≡ some prior
    pub not_revoked : prior.revoked ≡ false
    pub verified : verify_candidate library from_iso sha256 c ≡ ok (e.manifest, e.manifest_sha256)
    pub same_identity : identity e.manifest ≡ name
    pub is_new : version_tuple e.manifest.version ≡ ok new
    pub is_old : version_tuple prior.manifest.version ≡ ok old
    pub newer : at_most new old ≡ false
    pub changed : e ≡ updated prior e.manifest e.manifest_sha256
    pub stored : s ≡ insert name e r

  pub update-IsUpdated :
      (r s : Registry) (name : String) (c : Candidate) (e : InstalledExtension)
      → update library from_iso sha256 r name c ≡ ok (e, s)
      → IsUpdated r name c e s
  unfolding update
  update-IsUpdated r s name c e h0 = >>=-elim (required r name) _ h0 (λ prior a h1.
      let (b, h2) = refuse_if-eq-ok prior.revoked _ _ h1 in
      >>=-elim (verify_candidate library from_iso sha256 c) _ h2 (λ (manifest, digest) d h3.
        let (f, h4) = refuse_if-eq-ok (not (identity manifest == name)) _ _ h3 in
        >>=-elim (version_tuple manifest.version) _ h4 (λ new g h5.
          >>=-elim (version_tuple prior.manifest.version) _ h5 (λ old i h6.
            let (j, h7) = refuse_if-eq-ok (at_most new old) _ _ h6 in
            let (same, stored) = stored_as name (updated prior manifest digest) e r s h7 in
            subst (λ x. (s ≡ insert name x r) → IsUpdated r name c x s) (sym same)
              (λ q. record {
                prior = prior;
                new = new;
                old = old;
                known = required-known r name prior a;
                not_revoked = b;
                verified = d;
                same_identity = ground (arith, eq_iff (identity manifest) name);
                is_new = g;
                is_old = i;
                newer = j;
                changed = refl;
                stored = q;
              })
              stored))))
