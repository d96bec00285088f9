-- ===== src/Extensions/Tests.antt =====
-- Runs of tool/extension_registry_v2.py, and its theorems at concrete inputs.
use kris_ai.Base.{pos, ℤ, String, ◌≡◌, refl, Bool, true, false, Option, none, some, List, [], ◌∷◌}
use kris_ai.Base.Outcome.{ok, raise}
use kris_ai.Base.Dict.{insert, lookup}
use kris_ai.Base.Json.{str, arr, obj, nil, Items, item, Fields, end, field}
use kris_ai.Trust.Ed25519.{Ed25519}
use kris_ai.Extensions.Registry.{
  InstalledExtension, Registry, Candidate, install, update, enable, revoke,
}
use kris_ai.Extensions.Registry.Laws.{IsUpdated}
use kris_ai.Extensions.Registry.Laws.Lifecycle.{
  IsSound, done, after, installed, enabled, empty-IsSound, revoke-enable,
}
use kris_ai.Extensions.Registry.Laws.Update.{IsGenuine, IsRenewed, update-enable, update-IsGenuine}

-- A library that accepts every signature.
abbrev toy : Ed25519
toy = record {
  derive = λ seed. [];
  make = λ seed message. [];
  check = λ public message signature. true;
}

abbrev read_time : String → Option ℤ
read_time String.[] = none
read_time (String.◌∷◌ c s) = some (pos (Prim.Native.Char.code c))

abbrev hash_text : String → String
hash_text s = "#"

abbrev digits : String
digits = "0123456789abcdef0123456789abcdef0123456789abcdef0123456789abcdef"

abbrev payload_at : String → Items → Fields
payload_at version capabilities = field "schemaVersion" (str "2.0.0") (
    field "extensionType" (str "plugin") (
      field "id" (str "notes") (
        field "publisher" (str "acme") (
          field "version" (str version) (
            field "entryPoint" (str "main.py") (
              field "codeSha256" (str digits) (
                field "testsSha256" (str digits) (
                  field "requestedCapabilities" (arr capabilities)
                    (field "compatibility" (arr (item (str "kristin-2") nil)) end)))))))))

abbrev candidate_at : String → Items → Candidate
candidate_at version capabilities = record {
  envelope = field "schemaVersion" (str "2.0.0") (
      field "keyId" (str "k") (
        field "intendedUse" (str "kristin_extension") (
          field "trustDomain" (str "kristin.extensions") (
            field "issuedAt" (str "a") (
              field "expiresAt" (str "c") (
                field "payload" (obj (payload_at version capabilities))
                  (field "signature" (str "20") end)))))));
  keyring =
      (
        "k",
        record {
          public_key = [];
          intended_uses = "kristin_extension" ∷ [];
          trust_domains = "kristin.extensions" ∷ [];
          revoked = false;
        },
      )
      ∷ [];
  now = pos 98;
  actual_code_sha256 = digits;
  actual_tests_sha256 = digits;
}

abbrev reads : Items
reads = item (str "files.read") nil

abbrev extension_at : String → List String → Bool → Bool → Bool → InstalledExtension
extension_at version capabilities is_enabled is_revoked needs_review = record {
  manifest = record {
    extension_type = "plugin";
    identifier = "notes";
    publisher = "acme";
    version = version;
    code_sha256 = digits;
    requested_capabilities = capabilities;
    compatibility = "kristin-2" ∷ [];
    entry_point = "main.py";
    tests_sha256 = digits;
  };
  manifest_sha256 = "#";
  enabled = is_enabled;
  revoked = is_revoked;
  capability_review_required = needs_review;
}

abbrev fresh : InstalledExtension
fresh = extension_at "1.0.0" ("files.read" ∷ []) false false true

abbrev running : InstalledExtension
running = extension_at "1.0.0" ("files.read" ∷ []) true false false

abbrev newer : InstalledExtension
newer = extension_at "1.0.1-rc.1" ("files.read" ∷ []) false false false

abbrev gone : InstalledExtension
gone = extension_at "1.0.0" ("files.read" ∷ []) false true false

abbrev with_fresh : Registry
with_fresh = ("acme/notes", fresh) ∷ []

installed_once :
    install toy read_time hash_text [] (candidate_at "1.0.0" reads) ≡ ok (fresh, with_fresh)
unfolding install
installed_once = refl

needs_review : enable with_fresh "acme/notes" false ≡ raise "extension_capability_review_required"
unfolding enable
needs_review = refl

not_newer :
    update toy read_time hash_text with_fresh "acme/notes" (candidate_at "1.0.0" reads)
    ≡ raise "extension_update_version_not_newer"
unfolding update
not_newer = refl

-- The review that was due is no longer due after an update with the same capabilities.
review_lost :
    update toy read_time hash_text with_fresh "acme/notes" (candidate_at "1.0.1-rc.1" reads)
    ≡ ok (newer, ("acme/notes", newer) ∷ [])
unfolding update
review_lost = refl

empty-IsSound_example : IsSound "acme/notes" running
unfolding install enable lookup
empty-IsSound_example =
    empty-IsSound toy read_time hash_text (("acme/notes", running) ∷ []) "acme/notes" running
      (after (installed (candidate_at "1.0.0" reads) {r = []} {s = with_fresh} refl) (
        after (enabled "acme/notes" true {r = with_fresh} {s = ("acme/notes", running) ∷ []} refl)
          done))
      refl

revoke-enable_example :
    (enable (("acme/notes", gone) ∷ []) "acme/notes" true ≡ raise "extension_revoked")
    × (update toy read_time hash_text
          (("acme/notes", gone) ∷ [])
          "acme/notes"
          (candidate_at "2.0.0" nil)
        ≡ raise "extension_identity_revoked")
unfolding revoke
revoke-enable_example =
    revoke-enable toy read_time hash_text with_fresh (("acme/notes", gone) ∷ [])
      (("acme/notes", gone) ∷ []) "acme/notes" gone true (candidate_at "2.0.0" nil) refl done

abbrev with_running : Registry
with_running = ("acme/notes", running) ∷ []

abbrev newer_running : InstalledExtension
newer_running = extension_at "1.0.1-rc.1" ("files.read" ∷ []) true false false

abbrev greedy : InstalledExtension
greedy = extension_at "1.0.1" ("files.write" ∷ []) false false true

-- An update that asks for another capability switches a running extension off.
switched_off :
    update toy read_time hash_text with_running "acme/notes"
      (candidate_at "1.0.1" (item (str "files.write") nil))
    ≡ ok (greedy, ("acme/notes", greedy) ∷ [])
unfolding update
switched_off = refl

update-IsGenuine_example :
    IsGenuine toy read_time hash_text (candidate_at "1.0.1-rc.1" reads) newer_running.manifest
    × ((u : IsUpdated toy read_time hash_text with_running "acme/notes"
          (candidate_at "1.0.1-rc.1" reads)
          newer_running
          (("acme/notes", newer_running) ∷ []))
        × IsRenewed u.prior newer_running)
unfolding update
update-IsGenuine_example =
    update-IsGenuine toy read_time hash_text with_running (("acme/notes", newer_running) ∷ [])
      "acme/notes" (candidate_at "1.0.1-rc.1" reads) newer_running refl

update-enable_example :
    (now_running : InstalledExtension) × (enable (("acme/notes", newer) ∷ []) "acme/notes" false
      ≡ ok (now_running, insert "acme/notes" now_running (("acme/notes", newer) ∷ [])))
    × (now_running.manifest ≡ newer.manifest)
    × (now_running.enabled ≡ true)
unfolding update lookup
update-enable_example =
    update-enable toy read_time hash_text with_fresh (("acme/notes", newer) ∷ []) "acme/notes"
      (candidate_at "1.0.1-rc.1" reads) fresh newer refl refl refl
