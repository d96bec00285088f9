-- ===== src/Grants/Issue.antt =====
-- `signing_payload`, `compute_mac`, `sign_grant` and `verify_and_consume`. The HMAC-SHA256 of the
-- UTF-8 bytes of a text under a key of bytes, in hexadecimal digits, is a parameter.
pub mod Laws
use kris_ai.Base.{
  ℕ, ℤ, leb_ℤ, ltb_ℤ, ltb, String, ◌<>◌, ◌==◌, Bool, true, false, not, Option, none, some, List, [],
  ◌∷◌, length, starts_with, if◌then◌else◌,
}
use kris_ai.Base.Outcome.{Outcome, ok, raise, ◌>>=◌, ◌>>◌, refuse_if}
use kris_ai.Base.Dict.{Dict, lookup}
use kris_ai.Base.Json.{Json, str, obj, Fields, end, field}
use kris_ai.Base.Json.Access.{get, is_text}
use kris_ai.Base.Json.Print.{dumps}
use kris_ai.Base.Json.Update.{set_key, remove_key}
use kris_ai.Grants.Ledger.{require_string, GrantUseLedger, consume}
use kris_ai.Grants.Validate.{Stamp, required_map, parse_utc, validate_grant_json}

abbrev pub domain_separator : String
domain_separator = "kristin.capability-grant.v2\0"

-- What the caller of `verify_and_consume` expects of the binding.
pub record Expected : Type 0 where
  pub run_id : String
  pub task_id : String
  pub actor_id : String
  pub tool_id : String
  pub access_profile_id : String

-- `except GrantValidationError`: any other exception passes
unfoldable pub as_invalid : Outcome Fields → Outcome Fields
unfolding starts_with
as_invalid (raise message) =
    raise (if starts_with message "TypeError" then message else "grant_invalid")
as_invalid (ok value) = ok value

abbrev pub known_key : Option (List ℕ) → Outcome (List ℕ)
known_key none = raise "unknown_grant_key"
known_key (some key) = ok key

-- `keyring.get(auth["keyId"])`
unfoldable pub key_of : Dict (List ℕ) → Json → Outcome (List ℕ)
unfolding lookup
key_of keyring (str key_id) = known_key (lookup key_id keyring)
key_of keyring _ = raise "unknown_grant_key"

unfoldable pub check_expected : Expected → Fields → Outcome (Unit {0})
unfolding get
check_expected expected binding = do
  refuse_if (not (is_text expected.run_id (get "runId" binding))) "wrong_run"
  refuse_if (not (is_text expected.task_id (get "taskId" binding))) "wrong_task"
  refuse_if (not (is_text expected.actor_id (get "actorId" binding))) "wrong_actor"
  refuse_if (not (is_text expected.tool_id (get "toolId" binding))) "wrong_tool"
  refuse_if (not (is_text expected.access_profile_id (get "accessProfileId" binding)))
      "wrong_access_profile"
  ok tt

module _ (from_iso : String → Option Stamp) where
  unfoldable pub signing_payload : Json → Outcome Fields
  unfolding validate_grant_json required_map set_key remove_key
  signing_payload grant = do
    value ← validate_grant_json from_iso grant false
    auth ← required_map "auth" value "auth"
    ok (set_key "auth" (obj (remove_key "mac" auth)) value)

module _ (from_iso : String → Option Stamp) (hmac : List ℕ → String → String) where
  unfoldable pub compute_mac : Json → List ℕ → Outcome String
  unfolding signing_payload dumps
  compute_mac grant key = do
    refuse_if (ltb (length key) 8) "issuer key must be external bytes with at least 8 bytes"
    payload ← signing_payload from_iso grant
    ok (hmac key (domain_separator <> dumps (obj payload)))

  -- The `auth` object of a grant that is signed.
  unfoldable pub auth_with : String → String → Json
  auth_with key_id mac = obj (
      field "algorithm" (str "hmac-sha256")
        (field "keyId" (str key_id) (field "mac" (str mac) end)))

  unfoldable pub sign_grant : Fields → String → List ℕ → Outcome Fields
  unfolding require_string set_key auth_with compute_mac validate_grant_json
  sign_grant grant key_id key = do
    name ← require_string (str key_id) "keyId"
    mac ← compute_mac (obj (set_key "auth" (auth_with name "") grant)) key
    validate_grant_json from_iso (obj (set_key "auth" (auth_with name mac) grant)) true

  unfoldable pub check_now : Fields → ℤ → Outcome (Unit {0})
  unfolding parse_utc get
  check_now validity current = do
    not_before ← parse_utc from_iso (get "notBefore" validity) "validity.notBefore"
    expires ← parse_utc from_iso (get "expiresAt" validity) "validity.expiresAt"
    refuse_if (ltb_ℤ current not_before) "grant_not_yet_valid"
    refuse_if (leb_ℤ expires current) "grant_expired"
    ok tt

  -- The grant, with the ledger after the call.
  unfoldable pub verify_and_consume :
      Json
      → Dict (List ℕ)
      → GrantUseLedger
      → Expected
      → String
      → ℤ
      → Outcome (Fields × GrantUseLedger)
  unfolding as_invalid validate_grant_json required_map key_of compute_mac check_expected check_now
      consume get
  verify_and_consume grant keyring ledger expected invocation_id now = do
    value ← as_invalid (validate_grant_json from_iso grant true)
    auth ← required_map "auth" value "auth"
    key ← key_of keyring (get "keyId" auth)
    expected_mac ← compute_mac (obj value) key
    refuse_if (not (is_text expected_mac (get "mac" auth))) "grant_integrity_mismatch"
    binding ← required_map "binding" value "binding"
    matched ← check_expected expected binding
    validity ← required_map "validity" value "validity"
    timely ← check_now validity now
    later ← consume ledger value invocation_id
    ok (value, later)
