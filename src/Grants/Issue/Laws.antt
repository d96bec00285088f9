-- ===== src/Grants/Issue/Laws.antt =====
-- What a grant that is verified and consumed has.
use mathlib.Core.Path.{subst}
use kris_ai.Base.{
  not-true, ℕ, ℤ, leb_ℤ, ltb_ℤ, ltb, String, ◌<>◌, ◌≡◌, ◌≢◌, refl, sym, ap, ◌∙◌, true, false, not,
  Option, none, some, List, length, eq_iff, arith,
}
use kris_ai.Base.Outcome.{Outcome, ok, raise, >>=-elim, ok-injective, refuse_if-eq-ok}
use kris_ai.Base.Dict.{Dict, lookup}
use kris_ai.Base.Json.{Json, str, obj, Fields}
use kris_ai.Base.Json.Access.{get, is_text}
use kris_ai.Base.Json.Print.{dumps}
use kris_ai.Grants.Ledger.{GrantUseLedger, consume}
use kris_ai.Grants.Ledger.Laws.{Later, consume-Later}
use kris_ai.Grants.Validate.{Stamp, required_map, parse_utc, validate_fields, validate_grant_json}
use kris_ai.Grants.Validate.Laws.{IsWellFormed, required_map-obj, validate_fields-IsWellFormed}
use kris_ai.Grants.Issue.{
  domain_separator, Expected, as_invalid, known_key, key_of, check_expected, signing_payload,
  compute_mac, check_now, verify_and_consume,
}

is_text-str : (text : String) (j : Json) → is_text text j ≡ true → j ≡ str text
is_text-str text j h = grind (arith, eq_iff)

as_invalid-ok : (o : Outcome Fields) (value : Fields) → as_invalid o ≡ ok value → o ≡ ok value
unfolding as_invalid
as_invalid-ok (raise m) value h = cc
as_invalid-ok (ok v) value h = h

-- The binding names the run, task, actor, tool and access profile that are expected.
pub record IsBound (expected : Expected) (binding : Fields) : Type 0 where
  pub run : get "runId" binding ≡ str expected.run_id
  pub task : get "taskId" binding ≡ str expected.task_id
  pub actor : get "actorId" binding ≡ str expected.actor_id
  pub tool : get "toolId" binding ≡ str expected.tool_id
  pub profile : get "accessProfileId" binding ≡ str expected.access_profile_id

check_expected-IsBound :
    (expected : Expected) (binding : Fields) (done : Unit {0})
    → check_expected expected binding ≡ ok done
    → IsBound expected binding
unfolding check_expected
check_expected-IsBound expected binding done h0 =
    let (a, h1) = refuse_if-eq-ok (not (is_text expected.run_id (get "runId" binding))) _ _ h0 in
    let (b, h2) = refuse_if-eq-ok (not (is_text expected.task_id (get "taskId" binding))) _ _ h1 in
    let (c, h3) =
      refuse_if-eq-ok (not (is_text expected.actor_id (get "actorId" binding))) _ _ h2 in
    let (d, h4) = refuse_if-eq-ok (not (is_text expected.tool_id (get "toolId" binding))) _ _ h3 in
    let (e, _) =
      refuse_if-eq-ok (not (is_text expected.access_profile_id (get "accessProfileId" binding))) _ _
        h4 in
    record {
      run =
          is_text-str expected.run_id (get "runId" binding)
            (not-true (is_text expected.run_id (get "runId" binding)) a);
      task =
          is_text-str expected.task_id (get "taskId" binding)
            (not-true (is_text expected.task_id (get "taskId" binding)) b);
      actor =
          is_text-str expected.actor_id (get "actorId" binding)
            (not-true (is_text expected.actor_id (get "actorId" binding)) c);
      tool =
          is_text-str expected.tool_id (get "toolId" binding)
            (not-true (is_text expected.tool_id (get "toolId" binding)) d);
      profile =
          is_text-str expected.access_profile_id (get "accessProfileId" binding)
            (not-true (is_text expected.access_profile_id (get "accessProfileId" binding)) e);
    }

key_of-known :
    (keyring : Dict (List ℕ)) (j : Json) (key : List ℕ)
    → key_of keyring j ≡ ok key
    → (key_id : String) × (j ≡ str key_id) × (lookup key_id keyring ≡ some key)
unfolding key_of
key_of-known keyring (str key_id) key h = (key_id, refl, found (lookup key_id keyring) h)
  where
    found : (o : Option (List ℕ)) → known_key o ≡ ok key → o ≡ some key
    found none e = cc
    found (some k) e = cc
key_of-known keyring Json.null key h = cc
key_of-known keyring (Json.bool b) key h = cc
key_of-known keyring (Json.int n) key h = cc
key_of-known keyring (Json.real r) key h = cc
key_of-known keyring (Json.arr xs) key h = cc
key_of-known keyring (obj fs) key h = cc

module _ (from_iso : String → Option Stamp) (hmac : List ℕ → String → String) where
  -- What a verified use needs: a well-formed grant; the code of its payload under a known key of at
  -- least eight bytes; the expected binding; an instant within the validity; and a use that the
  -- ledger accepts.
  pub record IsAuthorized (grant : Fields) (keyring : Dict (List ℕ)) (ledger : GrantUseLedger)
      (expected : Expected) (invocation_id : String) (now : ℤ) (later : GrantUseLedger)
      : Type 0 where
    pub key_id : String
    pub key : List ℕ
    pub auth : Fields
    pub binding : Fields
    pub validity : Fields
    pub payload : Fields
    pub not_before : ℤ
    pub expires : ℤ
    pub well_formed : IsWellFormed from_iso grant
    pub is_auth : get "auth" grant ≡ obj auth
    pub is_binding : get "binding" grant ≡ obj binding
    pub is_validity : get "validity" grant ≡ obj validity
    pub signer : get "keyId" auth ≡ str key_id
    pub known : lookup key_id keyring ≡ some key
    pub long_key : ltb (length key) 8 ≡ false
    pub is_payload : signing_payload from_iso (obj grant) ≡ ok payload
    pub authentic : get "mac" auth ≡ str (hmac key (domain_separator <> dumps (obj payload)))
    pub bound : IsBound expected binding
    pub is_not_before :
        parse_utc from_iso (get "notBefore" validity) "validity.notBefore" ≡ ok not_before
    pub is_expires : parse_utc from_iso (get "expiresAt" validity) "validity.expiresAt" ≡ ok expires
    pub is_timely : (ltb_ℤ now not_before ≡ false) × (leb_ℤ expires now ≡ false)
    pub consumed : consume ledger grant invocation_id ≡ ok later

  -- The code of a grant, and what it is made of.
  record IsMac (grant : Fields) (key : List ℕ) (mac : String) : Type 0 where
    payload : Fields
    long_key : ltb (length key) 8 ≡ false
    is_payload : signing_payload from_iso (obj grant) ≡ ok payload
    is_mac : hmac key (domain_separator <> dumps (obj payload)) ≡ mac

  compute_mac-IsMac :
      (grant : Fields) (key : List ℕ) (mac : String)
      → compute_mac from_iso hmac (obj grant) key ≡ ok mac
      → IsMac grant key mac
  unfolding compute_mac
  compute_mac-IsMac grant key mac h0 =
      let (a, h1) = refuse_if-eq-ok (ltb (length key) 8) _ _ h0 in
      >>=-elim (signing_payload from_iso (obj grant)) _ h1 (λ payload b h2. record {
        payload = payload;
        long_key = a;
        is_payload = b;
        is_mac = ok-injective _ mac h2;
      })

  record IsTimely (validity : Fields) (now : ℤ) : Type 0 where
    not_before : ℤ
    expires : ℤ
    is_not_before :
        parse_utc from_iso (get "notBefore" validity) "validity.notBefore" ≡ ok not_before
    is_expires : parse_utc from_iso (get "expiresAt" validity) "validity.expiresAt" ≡ ok expires
    is_timely : (ltb_ℤ now not_before ≡ false) × (leb_ℤ expires now ≡ false)

  check_now-IsTimely :
      (validity : Fields) (now : ℤ) (done : Unit {0})
      → check_now from_iso hmac validity now ≡ ok done
      → IsTimely validity now
  unfolding check_now
  check_now-IsTimely validity now done h0 =
      >>=-elim (parse_utc from_iso (get "notBefore" validity) "validity.notBefore") _ h0
        (λ not_before a h1.
          >>=-elim (parse_utc from_iso (get "expiresAt" validity) "validity.expiresAt") _ h1
            (λ expires b h2.
              let (c, h3) = refuse_if-eq-ok (ltb_ℤ now not_before) _ _ h2 in
              let (d, _) = refuse_if-eq-ok (leb_ℤ expires now) _ _ h3 in
              record {
                not_before = not_before;
                expires = expires;
                is_not_before = a;
                is_expires = b;
                is_timely = (c, d);
              }))

  -- A grant that is verified and consumed is returned as it was given, and is authorized: it is well
  -- formed, its code is the one of its payload under a known key of at least eight bytes, it is bound
  -- to the expected run, task, actor, tool and access profile, the instant lies within its validity,
  -- and the ledger accepted the use.
  pub verify_and_consume-IsAuthorized :
      (grant value : Fields) (keyring : Dict (List ℕ)) (ledger later : GrantUseLedger)
      (expected : Expected) (invocation_id : String) (now : ℤ)
      → verify_and_consume from_iso hmac (obj grant) keyring ledger expected invocation_id now
        ≡ ok (value, later)
      → (value ≡ grant) × IsAuthorized value keyring ledger expected invocation_id now later
  unfolding verify_and_consume validate_grant_json
  verify_and_consume-IsAuthorized grant value keyring ledger later expected invocation_id now h0 =
      >>=-elim (as_invalid (validate_fields from_iso grant true)) _ h0 (λ v a h1.
        >>=-elim (required_map "auth" v "auth") _ h1 (λ auth b h2.
          >>=-elim (key_of keyring (get "keyId" auth)) _ h2 (λ key c h3.
            >>=-elim (compute_mac from_iso hmac (obj v) key) _ h3 (λ mac d h4.
              let (e, h5) = refuse_if-eq-ok (not (is_text mac (get "mac" auth))) _ _ h4 in
              >>=-elim (required_map "binding" v "binding") _ h5 (λ binding f h6.
                >>=-elim (check_expected expected binding) _ h6 (λ matched g h7.
                  >>=-elim (required_map "validity" v "validity") _ h7 (λ validity i h8.
                    >>=-elim (check_now from_iso hmac validity now) _ h8 (λ timely j h9.
                      >>=-elim (consume ledger v invocation_id) _ h9 (λ after k h10.
                        let (same, formed) =
                          validate_fields-IsWellFormed from_iso grant v true
                            (as_invalid-ok (validate_fields from_iso grant true) v a) in
                        let m = compute_mac-IsMac v key mac d in
                        let t = check_now-IsTimely validity now timely j in
                        let (key_id, signer, known) =
                          key_of-known keyring (get "keyId" auth) key c in
                        let returned = ok-injective (v, after) (value, later) h10 in
                        subst
                          (λ r.
                            (r.0 ≡ grant)
                            × IsAuthorized r.0 keyring ledger expected invocation_id now r.1)
                          returned
                          (
                            same,
                            record {
                              key_id = key_id;
                              key = key;
                              auth = auth;
                              binding = binding;
                              validity = validity;
                              payload = m.payload;
                              not_before = t.not_before;
                              expires = t.expires;
                              well_formed = subst (IsWellFormed from_iso) (sym same) formed;
                              is_auth = required_map-obj "auth" _ v auth b;
                              is_binding = required_map-obj "binding" _ v binding f;
                              is_validity = required_map-obj "validity" _ v validity i;
                              signer = signer;
                              known = known;
                              long_key = m.long_key;
                              is_payload = m.is_payload;
                              authentic =
                                  is_text-str mac (get "mac" auth)
                                    (not-true (is_text mac (get "mac" auth)) e)
                                  ∙ ap str (sym m.is_mac);
                              bound = check_expected-IsBound expected binding matched g;
                              is_not_before = t.is_not_before;
                              is_expires = t.is_expires;
                              is_timely = t.is_timely;
                              consumed = k;
                            },
                          ))))))))))

  -- A use that was verified and consumed is consumed no second time: whatever grants are used in
  -- between, the same invocation of the grant does not return.
  pub verify_and_consume-replayed :
      (grant value again : Fields) (keyring other_keyring : Dict (List ℕ))
      (ledger later now_ledger last : GrantUseLedger) (expected other_expected : Expected)
      (invocation_id : String) (now other_now : ℤ)
      → verify_and_consume from_iso hmac (obj grant) keyring ledger expected invocation_id now
        ≡ ok (value, later)
      → Later later now_ledger
      → verify_and_consume from_iso hmac
          (obj grant)
          other_keyring
          now_ledger
          other_expected
          invocation_id
          other_now
        ≢ ok (again, last)
  verify_and_consume-replayed grant value again keyring other_keyring ledger later now_ledger last
        expected other_expected invocation_id now other_now h steps g =
      let (same, a) =
        verify_and_consume-IsAuthorized grant value keyring ledger later expected invocation_id now
          h in
      let (same_again, b) =
        verify_and_consume-IsAuthorized grant again other_keyring now_ledger last other_expected
          invocation_id other_now g in
      let refused = consume-Later ledger later now_ledger value invocation_id a.consumed steps in
      let accepted =
        subst (λ v. consume now_ledger v invocation_id ≡ ok last) (same_again ∙ sym same)
          b.consumed in
      raised (sym refused ∙ accepted)
    where
      raised : (◌≡◌ {A = Outcome GrantUseLedger} (raise "grant_replayed") (ok last)) → ⊥
      raised e = cc
