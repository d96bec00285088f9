-- ===== src/Extensions/Manifest.antt =====
-- `ExtensionManifestV2` with `_digest_field` and `_version_tuple`. Digits are ASCII.
use Prim.Native.Char.{Char, code}
use Prim.Native.String.{compare}
use Prim.Native.Nat.{Ordering}
use kris_ai.Base.{
  ℕ, leb, ltb, eqb, String, ◌<>◌, ◌==◌, Bool, true, false, not, ◌&&◌, ◌||◌, Option, none, some,
  List, [], ◌∷◌, elem, is_empty, filter, sorted_set, strip, lower, all_chars, char_count,
  if◌then◌else◌,
}
use kris_ai.Base.Outcome.{Outcome, ok, raise, ◌>>=◌, ◌>>◌, refuse_if}
use kris_ai.Base.Json.{Json, arr, nil, Fields}
use kris_ai.Base.Json.Access.{get, truthy, is_text}
use kris_ai.Trust.Manifest.{text_or_empty}
use kris_ai.Release.Version.{is_digit, number_from}
use kris_ai.Release.Profiles.{texts_in}

pub record ExtensionManifestV2 : Type 0 where
  pub extension_type : String
  pub identifier : String
  pub publisher : String
  pub version : String
  pub code_sha256 : String
  pub requested_capabilities : List String
  pub compatibility : List String
  pub entry_point : String
  pub tests_sha256 : String

-- `ExtensionManifestV2.identity`
unfoldable pub identity : ExtensionManifestV2 → String
identity m = m.publisher <> ("/" <> m.identifier)

pub record VersionTuple : Type 0 where
  pub major : ℕ
  pub minor : ℕ
  pub patch : ℕ
  pub suffix : String

-- The digits at the start of a text, and the rest.
abbrev pub cut_digits : Bool → Char → String → String × String → String × String
cut_digits true c s (digits, rest) = (String.◌∷◌ c digits, rest)
cut_digits false c s parts = ("", String.◌∷◌ c s)

unfoldable pub leading_digits : String → String × String
leading_digits String.[] = ("", "")
leading_digits (String.◌∷◌ c s) =
    let parts = leading_digits s in cut_digits (is_digit (code c)) c s parts

-- `(\d+)` at the start of a text
unfoldable pub match_number : String → Option (ℕ × String)
unfolding leading_digits number_from
match_number text =
    let (digits, rest) = leading_digits text in
    if digits == "" then none else some (number_from 0 digits, rest)

abbrev pub match_dot : String → Option String
match_dot String.[] = none
match_dot (String.◌∷◌ c s) = if eqb (code c) b'.' then some s else none

-- `[0-9A-Za-z.-]`
abbrev pub is_suffix_char : ℕ → Bool
is_suffix_char c =
    (leb 48 c && leb c 57)
    || ((leb 65 c && leb c 90) || ((leb 97 c && leb c 122) || (eqb c 46 || eqb c 45)))

-- `(?:[-+]([0-9A-Za-z.-]+))?` up to the end of the text
unfoldable pub match_suffix : String → Option String
unfolding all_chars
match_suffix String.[] = some ""
match_suffix (String.◌∷◌ c s) =
    if (eqb (code c) 45 || eqb (code c) 43) && (not (s == "") && all_chars is_suffix_char s)
    then some s
    else none

infixl 5 ◌>>?◌
abbrev ◌>>?◌ {κ ℓ} : {B : Type κ} {A : Type ℓ} → Option A → (A → Option B) → Option B
none >>? next = none
some a >>? next = next a

unfoldable pub match_version : String → Option VersionTuple
unfolding match_number match_suffix
match_version value = match_number value >>? λ (major, s). match_dot s >>? λ t.
    match_number t >>? λ (minor, u). match_dot u >>? λ v. match_number v >>? λ (patch, w).
    match_suffix w >>? λ suffix.
    some (record { major = major; minor = minor; patch = patch; suffix = suffix })

unfoldable pub version_tuple : String → Outcome VersionTuple
unfolding match_version
version_tuple value = elim (match_version value) [
  | none ↦ raise "extension_version_invalid"
  | some v ↦ ok v
]

abbrev pub text_at_most : String → String → Bool
text_at_most a b = elim (compare a b) [
  | Ordering.lt ↦ true
  | Ordering.eq ↦ true
  | Ordering.gt ↦ false
]

-- `a <= b` for the tuples
unfoldable pub at_most : VersionTuple → VersionTuple → Bool
at_most a b =
    ltb a.major b.major
    || (eqb a.major b.major
        && (ltb a.minor b.minor
            || (eqb a.minor b.minor
                && (ltb a.patch b.patch
                    || (eqb a.patch b.patch && text_at_most a.suffix b.suffix)))))

abbrev pub is_hex_digit : ℕ → Bool
is_hex_digit c = (leb 48 c && leb c 57) || (leb 97 c && leb c 102)

unfoldable pub digest_field : Json → String → Outcome String
unfolding text_or_empty lower char_count all_chars
digest_field value failure =
    let digest = lower (text_or_empty value) in
    refuse_if (not (eqb (char_count digest) 64) || not (all_chars is_hex_digit digest)) failure
    >> ok digest

-- The texts of `value or []`, without the blank ones.
unfoldable pub texts_of : Json → Outcome (List String)
unfolding truthy texts_in filter strip
texts_of value = texts_in (if truthy value then value else arr nil) >>= λ texts.
    ok (filter (λ text. not (strip text == "")) texts)

-- `str(payload.get(key) or "").strip()`
unfoldable pub stripped : String → Fields → String
unfolding strip text_or_empty get
stripped key payload = strip (text_or_empty (get key payload))

-- `ExtensionManifestV2.from_payload`
unfoldable pub from_payload : Fields → Outcome ExtensionManifestV2
unfolding text_or_empty elem stripped digest_field texts_of sorted_set version_tuple get
from_payload payload = do
  refuse_if (not (is_text "2.0.0" (get "schemaVersion" payload)))
      "extension_manifest_version_invalid"
  refuse_if (not (elem (text_or_empty (get "extensionType" payload)) ("plugin" ∷ "skill" ∷ [])))
      "extension_manifest_type_invalid"
  code_sha256 ← digest_field (get "codeSha256" payload) "extension_code_digest_invalid"
  tests_sha256 ← digest_field (get "testsSha256" payload) "extension_tests_digest_invalid"
  capabilities ← texts_of (get "requestedCapabilities" payload)
  compatibility ← texts_of (get "compatibility" payload)
  refuse_if
      (stripped "id" payload == ""
        || (stripped "publisher" payload == ""
            || (stripped "version" payload == "" || stripped "entryPoint" payload == "")))
      "extension_manifest_identity_incomplete"
  version ← version_tuple (stripped "version" payload)
  refuse_if (is_empty compatibility) "extension_manifest_compatibility_missing"
  ok (record {
    extension_type = text_or_empty (get "extensionType" payload);
    identifier = stripped "id" payload;
    publisher = stripped "publisher" payload;
    version = stripped "version" payload;
    code_sha256 = code_sha256;
    requested_capabilities = sorted_set capabilities;
    compatibility = compatibility;
    entry_point = stripped "entryPoint" payload;
    tests_sha256 = tests_sha256;
  })
