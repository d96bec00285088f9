-- ===== src/Grants/Validate.antt =====
-- `validate_grant_json` with its parts. An exception is held by its message, without the names that
-- Python puts into it; a `TypeError`'s begins with its name. An instant is a number of microseconds
-- in UTC. Where Python iterates over a set of names, the names are taken in the order of the source.
pub mod Laws
use kris_ai.Base.{
  ℕ, ◌+◌, ℤ, pos, leb_ℤ, ltb_ℤ, String, ◌<>◌, ◌==◌, Bool, true, false, not, ◌&&◌, ◌||◌, eqb, leb,
  Option, none, some, List, [], ◌∷◌, elem, is_empty, filter, difference, ends_with, strip,
  all_chars, char_count, without_last, if◌then◌else◌,
}
use kris_ai.Base.Outcome.{Outcome, ok, raise, ◌>>=◌, ◌>>◌, refuse_if}
use kris_ai.Base.Json.{
  Json, null, bool, int, real, str, arr, obj, Items, nil, item, Fields, end, field,
}
use kris_ai.Base.Json.Access.{find, get, get_default, is_text, is_false}
use kris_ai.Grants.Ledger.{require_string}

-- What `datetime.fromisoformat` reads: an instant, or a time without a timezone.
pub data Stamp : Type 0 where
  naive : Stamp
  aware : ℤ → Stamp

abbrev pub allowed_top_level : List String
allowed_top_level =
    "schemaVersion" ∷ "grantId" ∷ "issuer" ∷ "binding" ∷ "scope" ∷ "budgets" ∷ "validity" ∷ "nonce"
    ∷ "auth" ∷ []

abbrev pub forbidden_embedded_keys : List String
forbidden_embedded_keys =
    "keyMaterial" ∷ "secretValue" ∷ "rawSecret" ∷ "privateKey" ∷ "signingKey" ∷ []

abbrev pub allowed_actors : List String
allowed_actors =
    "desktop_host" ∷ "owner_executor" ∷ "automation_host" ∷ "research_worker" ∷ "sandbox_worker"
    ∷ []

abbrev pub allowed_profiles : List String
allowed_profiles = "chat" ∷ "project" ∷ "owner" ∷ "owner_unattended" ∷ "isolated_untrusted" ∷ []

abbrev pub require_map : Json → String → Outcome Fields
require_map (obj fs) name = ok fs
require_map _ name = raise (name <> " must be an object")

-- Whether a key of the value or of a part of it is forbidden.
unfoldable mutual
  unfolding elem

  pub embeds : Json → Bool
  embeds (obj fs) = embeds_field fs
  embeds (arr xs) = embeds_item xs
  embeds _ = false

  pub embeds_item : Items → Bool
  embeds_item nil = false
  embeds_item (item v xs) = embeds v || embeds_item xs

  pub embeds_field : Fields → Bool
  embeds_field end = false
  embeds_field (field k v fs) = elem k forbidden_embedded_keys || (embeds v || embeds_field fs)

unfoldable pub walk_forbidden_keys : Json → Outcome (Unit {0})
unfolding embeds
walk_forbidden_keys value = refuse_if (embeds value) "embeds forbidden key material"

-- `set(d)`
abbrev pub names_of : Fields → List String
names_of end = []
names_of (field k v fs) = k ∷ names_of fs

-- `required - set(d)` is not empty
unfoldable pub lacks_any : List String → Fields → Bool
unfolding difference
lacks_any required d = not (is_empty (difference required (names_of d)))

-- `d[name]`, which is there
unfoldable pub required_map : String → Fields → String → Outcome Fields
unfolding get
required_map name d message = require_map (get name d) message

-- The loop over the leases of a list, a text or an object.
abbrev pub require_items : Items → Outcome (Unit {0})
require_items nil = ok tt
require_items (item v xs) =
    require_string v "scope.secrets.leaseIds[]" >>= λ lease. require_items xs

abbrev pub require_chars : String → Outcome (Unit {0})
require_chars String.[] = ok tt
require_chars (String.◌∷◌ c s) =
    require_string (str (String.◌∷◌ c String.[])) "scope.secrets.leaseIds[]" >>= λ lease.
    require_chars s

abbrev pub require_names : Fields → Outcome (Unit {0})
require_names end = ok tt
require_names (field k v fs) =
    require_string (str k) "scope.secrets.leaseIds[]" >>= λ lease. require_names fs

abbrev pub require_leases : Json → Outcome (Unit {0})
require_leases (arr xs) = require_items xs
require_leases (str s) = require_chars s
require_leases (obj fs) = require_names fs
require_leases _ = raise "TypeError: not iterable"

-- `value in (False, None)`, where zero equals `False`
abbrev pub may_listen_not : Json → Bool
may_listen_not null = true
may_listen_not (bool b) = not b
may_listen_not (int (pos Prim.Native.Nat.zero)) = true
may_listen_not (real text) = text == "0.0" || text == "-0.0"
may_listen_not _ = false

unfoldable pub validate_scope : Fields → Outcome (Unit {0})
unfolding lacks_any required_map get get_default
validate_scope scope = do
  refuse_if (lacks_any ("paths" ∷ "process" ∷ "network" ∷ "browser" ∷ "secrets" ∷ []) scope)
      "scope missing"
  paths ← required_map "paths" scope "scope.paths"
  process ← required_map "process" scope "scope.process"
  network ← required_map "network" scope "scope.network"
  browser ← required_map "browser" scope "scope.browser"
  secrets ← required_map "secrets" scope "scope.secrets"
  refuse_if (not (is_false (get "rawReveal" secrets))) "scope.secrets.rawReveal must be false"
  leases ← require_leases (get_default "leaseIds" (arr nil) secrets)
  refuse_if (not (may_listen_not (get "listen" network))) "scope.network.listen must be false"
  ok tt

abbrev pub budget_names : List String
budget_names =
    "wallClockMs" ∷ "maxOutputBytes" ∷ "maxNetworkBytes" ∷ "maxCostMicros" ∷ "maxMutations" ∷ []

-- `isinstance(value, int) and not isinstance(value, bool) and value >= least`
abbrev pub is_count : ℕ → Json → Bool
is_count least (int n) = leb_ℤ (pos least) n
is_count least _ = false

unfoldable pub check_budgets : List String → Fields → Outcome (Unit {0})
unfolding get
check_budgets [] budgets = ok tt
check_budgets (name ∷ names) budgets =
    refuse_if (not (is_count 0 (get name budgets))) "budgets must be non-negative integers"
    >> check_budgets names budgets

unfoldable pub validate_budgets : Fields → Outcome (Unit {0})
unfolding lacks_any check_budgets
validate_budgets budgets =
    refuse_if (lacks_any budget_names budgets) "budgets missing"
    >> check_budgets budget_names budgets

abbrev pub binding_names : List String
binding_names = "runId" ∷ "taskId" ∷ "actorId" ∷ "toolId" ∷ "accessProfileId" ∷ []

unfoldable pub check_strings : List String → Fields → Outcome (Unit {0})
unfolding get
check_strings [] binding = ok tt
check_strings (name ∷ names) binding =
    require_string (get name binding) ("binding." <> name) >>= λ value. check_strings names binding

-- `value in names`, for a set of texts
abbrev pub is_one_of : List String → Json → Bool
is_one_of names (str s) = elem s names
is_one_of names _ = false

unfoldable pub check_issuer : Fields → Outcome (Unit {0})
unfolding get
check_issuer issuer =
    refuse_if
      (not (is_text "desktop_host" (get "actorId" issuer))
        || not (is_text "desktop_host:deterministic_policy" (get "authority" issuer)))
      "issuer must be desktop_host deterministic policy"

unfoldable pub check_binding : Fields → Outcome (Unit {0})
unfolding check_strings get elem
check_binding binding = do
  present ← check_strings binding_names binding
  refuse_if (not (is_one_of allowed_actors (get "actorId" binding)))
      "binding.actorId is not a registered runtime actor"
  refuse_if (not (is_one_of allowed_profiles (get "accessProfileId" binding)))
      "binding.accessProfileId is not canonical"
  ok tt

abbrev pub is_hex_digit : ℕ → Bool
is_hex_digit c = (leb 48 c && leb c 57) || (leb 97 c && leb c 102)

-- A text of 64 lowercase hexadecimal digits.
unfoldable pub is_digest : Json → Bool
unfolding char_count all_chars
is_digest (str s) = eqb (char_count s) 64 && all_chars is_hex_digit s
is_digest _ = false

-- `mac in (None, "")`, or a text of 64 characters
unfoldable pub has_mac_shape : Json → Bool
unfolding char_count
has_mac_shape null = true
has_mac_shape (str s) = s == "" || eqb (char_count s) 64
has_mac_shape _ = false

unfoldable pub check_auth : Fields → Bool → Outcome (Unit {0})
unfolding get is_digest has_mac_shape
check_auth auth require_mac = do
  refuse_if (not (is_text "hmac-sha256" (get "algorithm" auth)))
      "auth.algorithm must be hmac-sha256"
  key_id ← require_string (get "keyId" auth) "auth.keyId"
  refuse_if (require_mac && not (is_digest (get "mac" auth)))
      "auth.mac must be a lowercase SHA-256 hex digest"
  refuse_if (not require_mac && not (has_mac_shape (get "mac" auth))) "auth.mac has invalid shape"
  ok tt

abbrev pub instant_of : Option Stamp → String → Outcome ℤ
instant_of none name = raise (name <> " must be RFC3339")
instant_of (some naive) name = raise (name <> " must include a timezone")
instant_of (some (aware t)) name = ok t

-- The text with a final `Z` written as an offset.
unfoldable pub with_offset : String → String
unfolding ends_with without_last
with_offset text = if ends_with text "Z" then without_last text <> "+00:00" else text

-- The parameter is `datetime.fromisoformat`.
module _ (from_iso : String → Option Stamp) where
  unfoldable pub parse_utc : Json → String → Outcome ℤ
  unfolding strip with_offset
  parse_utc (str s) name =
      refuse_if (strip s == "") (name <> " must be a non-empty RFC3339 timestamp")
      >> instant_of (from_iso (with_offset (strip s))) name
  parse_utc _ name = raise (name <> " must be a non-empty RFC3339 timestamp")

  unfoldable pub check_validity : Fields → Outcome (Unit {0})
  unfolding parse_utc get
  check_validity validity = do
    issued ← parse_utc (get "issuedAt" validity) "validity.issuedAt"
    not_before ← parse_utc (get "notBefore" validity) "validity.notBefore"
    expires ← parse_utc (get "expiresAt" validity) "validity.expiresAt"
    refuse_if (not (leb_ℤ issued not_before && ltb_ℤ not_before expires))
        "validity timestamps must satisfy issuedAt <= notBefore < expiresAt"
    refuse_if (not (is_count 1 (get "maxUses" validity)))
        "validity.maxUses must be a positive integer"
    ok tt

  -- The grant that is returned is a copy of the one that is given.
  unfoldable pub validate_fields : Fields → Bool → Outcome Fields
  unfolding difference lacks_any get required_map check_issuer check_binding validate_scope
      validate_budgets check_validity check_auth walk_forbidden_keys
  validate_fields grant require_mac = do
    refuse_if (not (is_empty (difference (names_of grant) allowed_top_level)))
        "unknown top-level grant fields"
    refuse_if (lacks_any allowed_top_level grant) "grant missing"
    refuse_if (not (is_text "2.0.0" (get "schemaVersion" grant))) "schemaVersion must be 2.0.0"
    grant_id ← require_string (get "grantId" grant) "grantId"
    nonce ← require_string (get "nonce" grant) "nonce"
    issuer ← required_map "issuer" grant "issuer"
    issued ← check_issuer issuer
    binding ← required_map "binding" grant "binding"
    bound ← check_binding binding
    scope ← required_map "scope" grant "scope"
    scoped ← validate_scope scope
    budgets ← required_map "budgets" grant "budgets"
    counted ← validate_budgets budgets
    validity ← required_map "validity" grant "validity"
    timed ← check_validity validity
    auth ← required_map "auth" grant "auth"
    authentic ← check_auth auth require_mac
    walked ← walk_forbidden_keys (obj grant)
    ok grant

  unfoldable pub validate_grant_json : Json → Bool → Outcome Fields
  unfolding validate_fields
  validate_grant_json (obj grant) require_mac = validate_fields grant require_mac
  validate_grant_json _ require_mac = raise "grant must be an object"
