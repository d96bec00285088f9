-- ===== src/Profiles/Validate/Laws.antt =====
-- What a profile that is validated cannot authorize.
use mathlib.Core.Path.{subst}
use kris_ai.Base.{
  not-true, String, ◌≡◌, refl, sym, Bool, true, false, not, elem, Bool-cases, inl, inr, eq_iff,
  arith,
}
use kris_ai.Base.Outcome.{ok, >>=-elim, ok-injective, refuse_if, refuse_if-eq-ok}
use kris_ai.Base.Json.{Json, str, obj, Fields}
use kris_ai.Base.Json.Access.{get, is_text, is_false, as_int}
use kris_ai.Profiles.Validate.{
  profile_ids, approval_policies, require_bool, is_among, at_least_one, Sections, sections_of,
  has_effect, check_chat, check_kind, validate_fields, validate_profile,
}
use kris_ai.Profiles.Validate.Limits.{
  IsChat, has_effect-IsChat, IsProject, IsOwner, IsUnattended, IsIsolated, check_project-IsProject,
  check_owner-IsOwner, check_unattended-IsUnattended, check_isolated-IsIsolated,
}

-- Every profile is of one of the five kinds and keeps to its limits.
pub data IsLimited (profile : Fields) (s : Sections) : Type 0 where
  chat : get "profileId" profile ≡ str "chat" → IsChat s → IsLimited profile s
  project : get "profileId" profile ≡ str "project" → IsProject s → IsLimited profile s
  owner : get "profileId" profile ≡ str "owner" → IsOwner profile s → IsLimited profile s
  unattended :
      get "profileId" profile ≡ str "owner_unattended"
      → IsUnattended profile s
      → IsLimited profile s
  isolated :
      get "profileId" profile ≡ str "isolated_untrusted"
      → IsIsolated profile s
      → IsLimited profile s

is_text-str : (text : String) (j : Json) → is_text text j ≡ true → j ≡ str text
is_text-str text j h = grind (arith, eq_iff)

not_refused :
    (bad : Bool) (message : String) (done : Unit {0})
    → refuse_if bad message ≡ ok done
    → bad ≡ false
not_refused false message done h = refl
not_refused true message done h = cc

-- There is no sixth kind.
no_other :
    {A : Type 0} (kind : Json)
    → is_among profile_ids kind ≡ true
    → is_text "chat" kind ≡ false
    → is_text "project" kind ≡ false
    → is_text "owner" kind ≡ false
    → is_text "owner_unattended" kind ≡ false
    → is_text "isolated_untrusted" kind ≡ false
    → A
unfolding is_among elem
no_other (str s) h a b c d e = absurd (ground arith)
no_other (obj fs) h a b c d e = cc
no_other Json.null h a b c d e = cc
no_other (Json.bool x) h a b c d e = cc
no_other (Json.int x) h a b c d e = cc
no_other (Json.real x) h a b c d e = cc
no_other (Json.arr x) h a b c d e = cc

check_kind-IsLimited :
    (profile : Fields) (s : Sections) (done : Unit {0})
    → is_among profile_ids (get "profileId" profile) ≡ true
    → check_kind profile s ≡ ok done
    → IsLimited profile s
unfolding check_kind check_chat
check_kind-IsLimited profile s done known h =
    let kind = get "profileId" profile in
    elim (Bool-cases (is_text "chat" kind)) [
      | inl t ↦ chat (is_text-str "chat" kind t) (
          has_effect-IsChat s
            (not_refused (has_effect s) "chat profile cannot authorize effects" done (rw t at h)))
      | inr a ↦ elim (Bool-cases (is_text "project" kind)) [
        | inl t ↦
            project (is_text-str "project" kind t) (check_project-IsProject s done (rw (a, t) at h))
        | inr b ↦ elim (Bool-cases (is_text "owner" kind)) [
          | inl t ↦
              owner (is_text-str "owner" kind t)
                (check_owner-IsOwner profile s done (rw (a, b, t) at h))
          | inr c ↦ elim (Bool-cases (is_text "owner_unattended" kind)) [
            | inl t ↦
                unattended (is_text-str "owner_unattended" kind t)
                  (check_unattended-IsUnattended profile s done (rw (a, b, c, t) at h))
            | inr d ↦ elim (Bool-cases (is_text "isolated_untrusted" kind)) [
              | inl t ↦
                  isolated (is_text-str "isolated_untrusted" kind t)
                    (check_isolated-IsIsolated profile s done (rw (a, b, c, d, t) at h))
              | inr e ↦ no_other kind known a b c d e
            ]
          ]
        ]
      ]
    ]

-- A profile that is validated is returned as it was given, its content never becomes authority, and
-- it is of one of five kinds and within the limits of its kind. A chat does not read, write or
-- delete files, has no finite commands and no interactive terminal, and its network and browser
-- scopes and its credential mode are none; its other fields are not limited. A project has roots and
-- project scope, without absolute paths, elevation and services. An owner is interactive, not
-- unattended and not sandboxed, with the current account's scope, and reveals a secret never or by
-- an interactive break-glass. An unattended owner is unattended, not interactive and not sandboxed,
-- with the current account's scope and brokered leases, and neither elevates nor reveals. An isolated
-- profile has sandboxed files and processes, and no absolute paths, elevation, credentials, secret
-- reveal, private addresses, listening and authenticated browser profiles.
pub validate_profile-IsLimited :
    (value profile : Fields)
    → validate_profile (obj value) ≡ ok profile
    → (profile ≡ value)
      × ((s : Sections) × (sections_of profile ≡ ok s)
          × (is_false (get "contentMayBecomeAuthority" s.boundary) ≡ true)
          × IsLimited profile s)
unfolding validate_profile validate_fields
validate_profile-IsLimited value profile h0 =
    let (_, h1) = refuse_if-eq-ok (not (is_text "2.0.0" (get "schemaVersion" value))) _ _ h0 in
    let (known, h2) = refuse_if-eq-ok (not (is_among profile_ids (get "profileId" value))) _ _ h1 in
    let (_, h3) =
      refuse_if-eq-ok (not (at_least_one (as_int (get "profileRevision" value)))) _ _ h2 in
    let (_, h4) =
      refuse_if-eq-ok (not (is_among approval_policies (get "approvalPolicy" value))) _ _ h3 in
    >>=-elim (require_bool (get "sandboxed" value) "sandboxed") _ h4 (λ sandboxed _ h5.
      >>=-elim (require_bool (get "interactive" value) "interactive") _ h5 (λ interactive _ h6.
        >>=-elim (require_bool (get "unattendedAllowed" value) "unattendedAllowed") _ h6
          (λ allowed _ h7. >>=-elim (sections_of value) _ h7 (λ s a h8.
            let (content, h9) =
              refuse_if-eq-ok (not (is_false (get "contentMayBecomeAuthority" s.boundary))) _ _
                h8 in
            >>=-elim (check_kind value s) _ h9 (λ done b h10.
              let same = ok-injective value profile h10 in
              (
                sym same,
                subst
                    (λ p.
                      (t : Sections) × (sections_of p ≡ ok t)
                      × (is_false (get "contentMayBecomeAuthority" t.boundary) ≡ true)
                      × IsLimited p t)
                    same
                    (
                      s,
                      a,
                      not-true (is_false (get "contentMayBecomeAuthority" s.boundary)) content,
                      check_kind-IsLimited value s done
                          (not-true (is_among profile_ids (get "profileId" value)) known) b,
                    ),
              ))))))
