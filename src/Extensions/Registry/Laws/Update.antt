-- ===== src/Extensions/Registry/Laws/Update.antt =====
-- What is installed and updated comes from a trusted manifest; and what an update does to a review.
use mathlib.Core.Path.{subst}
use mathlib.Core.Option.{some-injective}
use kris_ai.Base.{
  &&-true, ap₂, not-true, ◌↔◌, List, [], ◌∷◌, ℤ, String, ◌≡◌, refl, sym, ap, ◌∙◌, ◌==◌, true, false,
  not, Option, some, eq_iff, arith,
}
use kris_ai.Base.Outcome.{ok, >>=-elim, ok-injective, refuse_if-eq-ok}
use kris_ai.Base.Dict.{insert, lookup, lookup-insert_same}
use kris_ai.Base.Json.{obj}
use kris_ai.Base.Json.Access.{get}
use kris_ai.Trust.Ed25519.{Ed25519}
use kris_ai.Trust.Canonical.{canonical_json}
use kris_ai.Trust.Manifest.{verify_manifest}
use kris_ai.Trust.Manifest.Laws.{IsTrusted, verify_manifest_complete}
use kris_ai.Extensions.Manifest.{ExtensionManifestV2, from_payload}
use kris_ai.Extensions.Registry.{
  InstalledExtension, Registry, Candidate, required, payload_of, with_flags, store, enable,
  verify_candidate, install, updated, same_texts, update,
}
use kris_ai.Extensions.Registry.Laws.{IsInstalled, install-IsInstalled, IsUpdated, update-IsUpdated}

-- What an update keeps of the extension before it.
pub record IsRenewed (prior e : InstalledExtension) : Type 0 where
  pub on : (e.enabled ≡ true) ↔ (
      (prior.enabled ≡ true)
      × (e.manifest.requested_capabilities ≡ prior.manifest.requested_capabilities))
  pub reviewed :
      (e.capability_review_required ≡ false)
      ↔ (e.manifest.requested_capabilities ≡ prior.manifest.requested_capabilities)
  pub live : e.revoked ≡ false

same_texts_iff : (xs ys : List String) → (same_texts xs ys ≡ true) ↔ (xs ≡ ys)
same_texts_iff [] [] = (λ h. refl, λ h. refl)
same_texts_iff [] (y ∷ ys) = (λ h. cc, λ h. cc)
same_texts_iff (x ∷ xs) [] = (λ h. cc, λ h. cc)
same_texts_iff (x ∷ xs) (y ∷ ys) = (
  λ h.
      let (head, tail) = &&-true (x == y) (same_texts xs ys) h in
      ap₂ (λ z zs. z ∷ zs) ((eq_iff x y).0 head) ((same_texts_iff xs ys).0 tail),
  λ h.
      let head : x ≡ y = cc in
      let tail : xs ≡ ys = cc in rw ((eq_iff x y).1 head) ((same_texts_iff xs ys).1 tail),
)

updated-IsRenewed :
    (prior : InstalledExtension) (manifest : ExtensionManifestV2) (digest : String)
    → IsRenewed prior (updated prior manifest digest)
unfolding updated
updated-IsRenewed prior manifest digest =
    let same =
      same_texts_iff manifest.requested_capabilities prior.manifest.requested_capabilities in
    record {
      on = (
        λ h.
            let (was, equal) =
              &&-true prior.enabled
                (same_texts manifest.requested_capabilities prior.manifest.requested_capabilities)
                h in
            (was, same.0 equal),
        λ (was, equal). rw (was, same.1 equal) refl,
      );
      reviewed = (λ h. same.0 (not-true _ h), λ equal. rw (same.1 equal) refl);
      live = refl;
    }

module _ (library : Ed25519) (from_iso : String → Option ℤ) (sha256 : String → String) where
  -- What stands behind the manifest of a candidate: a trusted envelope for extensions, and the
  -- digests of the code and the tests that are there.
  pub record IsGenuine (c : Candidate) (manifest : ExtensionManifestV2) : Type 0 where
    pub trusted :
        IsTrusted library from_iso c.envelope c.keyring c.now
          (some "kristin_extension")
          (some "kristin.extensions")
    pub code : manifest.code_sha256 ≡ c.actual_code_sha256
    pub tests : manifest.tests_sha256 ≡ c.actual_tests_sha256

  verify_candidate-IsGenuine :
      (c : Candidate) (manifest : ExtensionManifestV2) (digest : String)
      → verify_candidate library from_iso sha256 c ≡ ok (manifest, digest)
      → IsGenuine c manifest
  unfolding verify_candidate
  verify_candidate-IsGenuine c manifest digest h0 =
      >>=-elim
        (verify_manifest library from_iso c.envelope c.keyring c.now (some "kristin_extension")
          (some "kristin.extensions"))
        _ h0
        (λ body a h1. >>=-elim (payload_of (get "payload" body)) _ h1 (λ payload _ h2.
          >>=-elim (from_payload payload) _ h2 (λ found _ h3.
            let (d, h4) =
              refuse_if-eq-ok (not (found.code_sha256 == c.actual_code_sha256)) _ _ h3 in
            let (e, h5) =
              refuse_if-eq-ok (not (found.tests_sha256 == c.actual_tests_sha256)) _ _ h4 in
            >>=-elim (canonical_json (obj body)) _ h5 (λ text _ h6.
              let (trusted, _) =
                (verify_manifest_complete library from_iso c.envelope c.keyring c.now
                    (some "kristin_extension") (some "kristin.extensions") body).0
                  a in
              subst (IsGenuine c)
                (ap (λ p. p.0) (ok-injective (found, sha256 text) (manifest, digest) h6))
                (record {
                  trusted = trusted;
                  code = ground (arith, eq_iff found.code_sha256 c.actual_code_sha256);
                  tests = ground (arith, eq_iff found.tests_sha256 c.actual_tests_sha256);
                })))))

  -- An extension that is installed is genuine: its manifest is signed for extensions by a trusted
  -- key and has the digests of the code and the tests that are there. Its identity was free, it is
  -- off, and it waits for a review exactly when it asks for capabilities.
  pub install-IsGenuine :
      (r s : Registry) (c : Candidate) (e : InstalledExtension)
      → install library from_iso sha256 r c ≡ ok (e, s)
      → IsGenuine c e.manifest × IsInstalled library from_iso sha256 r c e s
  install-IsGenuine r s c e h =
      let i = install-IsInstalled library from_iso sha256 r s c e h in
      (verify_candidate-IsGenuine c e.manifest e.manifest_sha256 i.verified, i)

  -- An extension that is updated is genuine in the same way, keeps its identity, was not revoked, and
  -- is of a newer version. It is on exactly when it was on before and asks for the same capabilities
  -- as before, it waits for no review exactly when they are the same, and it is not revoked.
  pub update-IsGenuine :
      (r s : Registry) (name : String) (c : Candidate) (e : InstalledExtension)
      → update library from_iso sha256 r name c ≡ ok (e, s)
      → IsGenuine c e.manifest
        × ((u : IsUpdated library from_iso sha256 r name c e s) × IsRenewed u.prior e)
  update-IsGenuine r s name c e h =
      let u = update-IsUpdated library from_iso sha256 r s name c e h in
      (
        verify_candidate-IsGenuine c e.manifest e.manifest_sha256 u.verified,
        (
          u,
          subst (IsRenewed u.prior) (sym u.changed)
              (updated-IsRenewed u.prior e.manifest e.manifest_sha256),
        ),
      )

  -- After an update that asks for the same capabilities as before, `enable` without an approval
  -- succeeds and the extension runs with its new manifest, whatever the extension was before the
  -- update: also where the review of its capabilities was still due.
  pub update-enable :
      (r s : Registry) (name : String) (c : Candidate) (prior e : InstalledExtension)
      → lookup name r ≡ some prior
      → update library from_iso sha256 r name c ≡ ok (e, s)
      → e.manifest.requested_capabilities ≡ prior.manifest.requested_capabilities
      → (running : InstalledExtension) × (enable s name false ≡ ok (running, insert name running s))
        × (running.manifest ≡ e.manifest)
        × (running.enabled ≡ true)
  unfolding enable required store
  update-enable r s name c prior e known h same =
      let u = update-IsUpdated library from_iso sha256 r s name c e h in
      let i =
        subst (IsRenewed u.prior) (sym u.changed)
          (updated-IsRenewed u.prior e.manifest e.manifest_sha256) in
      let here : prior ≡ u.prior = some-injective prior u.prior (sym known ∙ u.known) in
      let found : lookup name s ≡ some e = rw u.stored (lookup-insert_same name e r) in
      let review = i.reviewed.1 (same ∙ ap (λ p. p.manifest.requested_capabilities) here) in
      (
        with_flags e true e.revoked false,
        rw (enable, required, found, i.live, review) refl,
        refl,
        refl,
      )
