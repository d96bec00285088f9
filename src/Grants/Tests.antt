-- ===== src/Grants/Tests.antt =====
-- Runs of the ledger of tool/capability_grant_v2.py, and its theorems at concrete inputs.
use kris_ai.Base.{
  ℕ, pos, false, Option, none, some, ◌+◌, ◌≤◌, max, String, ◌≡◌, refl, List, [], ◌∷◌,
}
use kris_ai.Base.Outcome.{ok, raise}
use kris_ai.Base.Json.{Json, bool, int, str, arr, nil, obj, Fields, end, field}
use kris_ai.Base.Json.Access.{get}
use kris_ai.Grants.Validate.{Stamp, aware}
use kris_ai.Grants.Issue.{Expected, sign_grant, verify_and_consume}
use kris_ai.Grants.Issue.Laws.{IsAuthorized, verify_and_consume-IsAuthorized}
use kris_ai.Grants.Ledger.{require_string, max_uses, GrantUseLedger, new_ledger, uses, consume}
use kris_ai.Grants.Ledger.Laws.{stay, used, present, present-uses, consume-Later}

abbrev grant : Fields
grant =
    field "grantId" (str "g-1")
      (field "nonce" (str "n-1") (field "validity" (obj (field "maxUses" (int (pos 2)) end)) end))

abbrev other_grant : Fields
other_grant =
    field "grantId" (str "g-2")
      (field "nonce" (str "n-1") (field "validity" (obj (field "maxUses" (int (pos 2)) end)) end))

abbrev ledger_1 : GrantUseLedger
ledger_1 = record {
  uses_by_grant = ("g-1", 1) ∷ [];
  invocations = ("g-1", "i-1") ∷ [];
  nonce_owner = ("n-1", "g-1") ∷ [];
}

abbrev ledger_2 : GrantUseLedger
ledger_2 = record {
  uses_by_grant = ("g-1", 2) ∷ [];
  invocations = ("g-1", "i-2") ∷ ("g-1", "i-1") ∷ [];
  nonce_owner = ("n-1", "g-1") ∷ [];
}

first_use : consume new_ledger grant " i-1 " ≡ ok ledger_1
unfolding consume
first_use = refl

second_use : consume ledger_1 grant "i-2" ≡ ok ledger_2
unfolding consume
second_use = refl

third_use : consume ledger_2 grant "i-3" ≡ raise "grant_exhausted"
unfolding consume
third_use = refl

stolen_nonce : consume ledger_1 other_grant "i-9" ≡ raise "grant_replayed"
unfolding consume
stolen_nonce = refl

consume-Later_example : consume ledger_2 grant " i-1 " ≡ raise "grant_replayed"
consume-Later_example =
    consume-Later new_ledger ledger_1 ledger_2 grant " i-1 " first_use
      (used ledger_1 ledger_2 ledger_2 grant "i-2" second_use (stay ledger_2))

abbrev ids : List String
ids = "i-1" ∷ "i-1" ∷ "i-2" ∷ "i-3" ∷ []

is_g1 : require_string (get "grantId" grant) "grantId" ≡ ok "g-1"
unfolding require_string get
is_g1 = refl

two_uses : max_uses grant ≡ ok (pos 2)
unfolding max_uses
two_uses = refl

present_all : present grant new_ledger ids ≡ (ledger_2, 2)
unfolding present
present_all = refl

present-uses_example :
    (uses (present grant new_ledger ids).0 "g-1"
      ≡ uses new_ledger "g-1" + (present grant new_ledger ids).1)
    × (uses (present grant new_ledger ids).0 "g-1" ≤ max (uses new_ledger "g-1") 2)
present-uses_example = present-uses grant "g-1" 2 is_g1 two_uses new_ledger ids

-- A grant that is signed with a code of sixty-four digits.
abbrev digits : String
digits = "0123456789abcdef0123456789abcdef0123456789abcdef0123456789abcdef"

abbrev code_text : List ℕ → String → String
code_text key message = digits

abbrev read_time : String → Option Stamp
read_time String.[] = none
read_time (String.◌∷◌ c s) = some (aware (pos (Prim.Native.Char.code c)))

abbrev key : List ℕ
key = 1 ∷ 2 ∷ 3 ∷ 4 ∷ 5 ∷ 6 ∷ 7 ∷ 8 ∷ []

abbrev full_scope : Fields
full_scope = field "paths" (obj end) (
    field "process" (obj end) (
      field "network" (obj end) (
        field "browser" (obj end)
          (field "secrets" (obj (field "rawReveal" (bool false) end)) end))))

abbrev full_budgets : Fields
full_budgets = field "wallClockMs" (int (pos 5)) (
    field "maxOutputBytes" (int (pos 5)) (
      field "maxNetworkBytes" (int (pos 0))
        (field "maxCostMicros" (int (pos 0)) (field "maxMutations" (int (pos 1)) end))))

abbrev full_binding : Fields
full_binding = field "runId" (str "r") (
    field "taskId" (str "t") (
      field "actorId" (str "sandbox_worker")
        (field "toolId" (str "shell") (field "accessProfileId" (str "project") end))))

abbrev full_validity : Fields
full_validity =
    field "issuedAt" (str "a") (
      field "notBefore" (str "b") (field "expiresAt" (str "e") (field "maxUses" (int (pos 1)) end)))

abbrev with_auth : Json → Fields
with_auth auth = field "schemaVersion" (str "2.0.0") (
    field "grantId" (str "g-1") (
      field "issuer"
        (obj (
          field "actorId" (str "desktop_host")
            (field "authority" (str "desktop_host:deterministic_policy") end)))
        (field "binding" (obj full_binding) (
          field "scope" (obj full_scope) (
            field "budgets" (obj full_budgets) (
              field "validity" (obj full_validity)
                (field "nonce" (str "n-1") (field "auth" auth end))))))))

abbrev full_grant : Fields
full_grant = with_auth (
    obj (
      field "algorithm" (str "hmac-sha256")
        (field "keyId" (str "k") (field "mac" (str digits) end))))

abbrev expected : Expected
expected = record {
  run_id = "r";
  task_id = "t";
  actor_id = "sandbox_worker";
  tool_id = "shell";
  access_profile_id = "project";
}

signed_grant : sign_grant read_time code_text (with_auth (obj end)) " k " key ≡ ok full_grant
unfolding sign_grant
signed_grant = refl

wrong_run :
    verify_and_consume read_time code_text
      (obj full_grant)
      (("k", key) ∷ [])
      new_ledger
      (record {
        run_id = "other";
        task_id = "t";
        actor_id = "sandbox_worker";
        tool_id = "shell";
        access_profile_id = "project";
      })
      "i-1"
      (pos 99)
    ≡ raise "wrong_run"
unfolding verify_and_consume
wrong_run = refl

no_leases :
    verify_and_consume read_time code_text
      (arr nil)
      (("k", key) ∷ [])
      new_ledger
      expected
      "i-1"
      (pos 99)
    ≡ raise "grant_invalid"
unfolding verify_and_consume
no_leases = refl

verify_and_consume-IsAuthorized_example :
    (full_grant ≡ full_grant)
    × IsAuthorized read_time code_text full_grant
        (("k", key) ∷ [])
        new_ledger
        expected
        "i-1"
        (pos 99)
        ledger_1
unfolding verify_and_consume
verify_and_consume-IsAuthorized_example =
    verify_and_consume-IsAuthorized read_time code_text full_grant full_grant (("k", key) ∷ [])
      new_ledger ledger_1 expected "i-1" (pos 99) refl
