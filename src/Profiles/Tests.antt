-- ===== src/Profiles/Tests.antt =====
-- Runs of tool/access_profile_v2.py, and its theorem at a concrete input.
use kris_ai.Base.{pos, ◌≡◌, refl, Bool, true, false}
use kris_ai.Base.Outcome.{ok, raise}
use kris_ai.Base.Json.{Json, bool, int, str, arr, obj, nil, item, Fields, end, field}
use kris_ai.Base.Json.Access.{get, is_false}
use kris_ai.Profiles.Validate.{Sections, sections_of, validate_profile}
use kris_ai.Profiles.Validate.Laws.{IsLimited, validate_profile-IsLimited}
use kris_ai.Profiles.Catalog.{load_catalog}
use kris_ai.Profiles.Patch.{apply_fixture_patch}

abbrev boundary : Json
boundary = obj (field "contentMayBecomeAuthority" (bool false) end)

abbrev isolated_at : Bool → Fields
isolated_at listens = field "profileId" (str "isolated_untrusted") (
    field "schemaVersion" (str "2.0.0") (
      field "profileRevision" (int (pos 3)) (
        field "approvalPolicy" (str "always") (
          field "sandboxed" (bool true) (
            field "interactive" (bool false) (
              field "unattendedAllowed" (bool false) (
                field "filesystem"
                  (obj (field "scope" (str "sandbox") (field "absolutePaths" (bool false) end)))
                  (field "process"
                    (obj (field "scope" (str "sandbox") (field "elevation" (str "none") end)))
                    (field "network"
                      (obj
                        (field "privateAddresses" (bool false) (field "listen" (bool listens) end)))
                      (field "browser" (obj (field "authenticatedProfiles" (bool false) end)) (
                        field "credentials"
                          (obj (field "mode" (str "none") (field "rawReveal" (str "never") end)))
                          (field "dataBoundary" boundary end))))))))))))

-- A chat profile that installs packages, controls services and is elevated.
abbrev busy_chat : Fields
busy_chat = field "profileId" (str "chat") (
    field "schemaVersion" (str "2.0.0") (
      field "profileRevision" (int (pos 1)) (
        field "approvalPolicy" (str "always") (
          field "sandboxed" (bool false) (
            field "interactive" (bool true) (
              field "unattendedAllowed" (bool false) (
                field "filesystem" (obj (field "scope" (str "none") end)) (
                  field "process"
                    (obj (
                      field "packages" (bool true)
                        (field "services" (bool true) (field "elevation" (str "interactive") end))))
                    (field "network" (obj (field "scope" (str "none") end)) (
                      field "browser" (obj (field "scope" (str "none") end)) (
                        field "credentials" (obj (field "mode" (str "none") end))
                          (field "dataBoundary" boundary end))))))))))))

busy_chat_valid : validate_profile (obj busy_chat) ≡ ok busy_chat
unfolding validate_profile
busy_chat_valid = refl

listening :
    validate_profile (obj (isolated_at true))
    ≡ raise "isolated_untrusted network must reject private/listening access"
unfolding validate_profile
listening = refl

patched :
    apply_fixture_patch (isolated_at true) (field "network.listen" (bool false) end)
    ≡ ok (isolated_at false)
unfolding apply_fixture_patch
patched = refl

not_object :
    apply_fixture_patch (isolated_at true) (field "profileId.x" (bool false) end)
    ≡ raise "cannot patch non-object path"
unfolding apply_fixture_patch
not_object = refl

one_profile :
    load_catalog (
      field "schemaVersion" (str "2.0.0") (
        field "authoritySemantics" (str "maximum_ceiling_not_capability_grant") (
          field "overlaysMayOnlyNarrow"
            (bool true)
            (field "profiles" (arr (item (obj (isolated_at false)) nil)) end))))
    ≡ raise "catalog must contain each canonical profile exactly once"
unfolding load_catalog
one_profile = refl

validate_profile-IsLimited_example :
    (isolated_at false ≡ isolated_at false)
    × ((s : Sections) × (sections_of (isolated_at false) ≡ ok s)
        × (is_false (get "contentMayBecomeAuthority" s.boundary) ≡ true)
        × IsLimited (isolated_at false) s)
unfolding validate_profile
validate_profile-IsLimited_example =
    validate_profile-IsLimited (isolated_at false) (isolated_at false) refl
