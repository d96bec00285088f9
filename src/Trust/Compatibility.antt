-- ===== src/Trust/Compatibility.antt =====
-- tool/manifest_compatibility_v2.py. A `ManifestCompatibilityError` is held by its code.
pub mod Laws
use kris_ai.Base.{
  String, ◌==◌, Bool, true, false, not, Option, none, some, List, [], ◌∷◌, elem, is_empty, filter,
  if◌then◌else◌,
}
use kris_ai.Base.Outcome.{Outcome, ok, raise, ◌>>=◌, ◌>>◌, refuse_if}
use kris_ai.Base.Json.{Fields}
use kris_ai.Base.Json.Access.{find, get}
use kris_ai.Trust.Manifest.{text_or_empty}

abbrev pub legacy_fields : List String
legacy_fields = "hmac" ∷ "secret" ∷ "keyMaterial" ∷ "signingKey" ∷ "algorithm" ∷ []

abbrev pub old_versions : List String
old_versions = "1" ∷ "1.0" ∷ "1.0.0" ∷ "v1" ∷ []

-- `key in d`
unfoldable pub has : Fields → String → Bool
unfolding find
has d key = elim (find key d) [ none ↦ false | some _ ↦ true ]

unfoldable pub classify_manifest : Fields → Outcome String
unfolding text_or_empty get elem has filter
classify_manifest value = do
  refuse_if (elem (text_or_empty (get "schemaVersion" value)) old_versions) "v1_trust_disabled"
  refuse_if (not (text_or_empty (get "schemaVersion" value) == "2.0.0"))
      "unsupported_manifest_version"
  refuse_if (not (is_empty (filter (has value) legacy_fields))) "mixed_format_rejected"
  ok "signed_manifest_v2"
