-- ===== src/Grants/Validate/Laws.antt =====
-- What a validated grant has.
use kris_ai.Base.{
  not-true, ℤ, leb_ℤ, ltb_ℤ, String, ◌≡◌, sym, Bool, true, false, not, ◌&&◌, Option, List, [], ◌∷◌,
  elem, is_empty, difference, eq_iff, arith, &&-true,
}
use kris_ai.Base.Outcome.{ok, >>=-elim, ok-injective, refuse_if-eq-ok}
use kris_ai.Base.Json.{Json, arr, obj, nil, Fields}
use kris_ai.Base.Json.Access.{get, get_default, is_text, is_false}
use kris_ai.Grants.Ledger.{require_string}
use kris_ai.Grants.Validate.{
  Stamp, allowed_top_level, names_of, lacks_any, required_map, require_map, check_issuer,
  check_binding, validate_scope, validate_budgets, check_budgets, budget_names, is_count, parse_utc,
  check_validity, check_auth, walk_forbidden_keys, embeds, validate_fields, require_leases,
  may_listen_not,
}

pub required_map-obj :
    (name message : String) (d fs : Fields)
    → required_map name d message ≡ ok fs
    → get name d ≡ obj fs
unfolding required_map
required_map-obj name message d fs h = object_of (get name d) h
  where
    object_of : (j : Json) → require_map j message ≡ ok fs → j ≡ obj fs
    object_of j e = grind arith

-- Every budget is a whole number that is not negative.
check_budgets-counts :
    (names : List String) (budgets : Fields) (done : Unit {0}) (name : String)
    → check_budgets names budgets ≡ ok done
    → elem name names ≡ true
    → is_count 0 (get name budgets) ≡ true
unfolding check_budgets elem
check_budgets-counts [] budgets done name h m = cc
check_budgets-counts (n ∷ names) budgets done name h m =
    let (a, rest) = refuse_if-eq-ok (not (is_count 0 (get n budgets))) _ _ h in
    ground (
      arith,
      eq_iff name n,
      check_budgets-counts names budgets done name rest,
      not-true (is_count 0 (get n budgets)) a,
    )

-- What the validation of a grant promises: its instants are in order, it has at least one use, no
-- part of it embeds key material, its secrets are not revealed, it does not listen, and its budgets
-- are whole numbers that are not negative.
pub record IsWellFormed (from_iso : String → Option Stamp) (grant : Fields) : Type 0 where
  pub scope : Fields
  pub secrets : Fields
  pub network : Fields
  pub budgets : Fields
  pub validity : Fields
  pub issued : ℤ
  pub not_before : ℤ
  pub expires : ℤ
  pub is_scope : get "scope" grant ≡ obj scope
  pub is_secrets : get "secrets" scope ≡ obj secrets
  pub is_network : get "network" scope ≡ obj network
  pub is_budgets : get "budgets" grant ≡ obj budgets
  pub is_validity : get "validity" grant ≡ obj validity
  pub only_known : is_empty (difference (names_of grant) allowed_top_level) ≡ true
  pub no_reveal : is_false (get "rawReveal" secrets) ≡ true
  pub no_listen : may_listen_not (get "listen" network) ≡ true
  pub counts :
      (name : String) → elem name budget_names ≡ true → is_count 0 (get name budgets) ≡ true
  pub is_issued : parse_utc from_iso (get "issuedAt" validity) "validity.issuedAt" ≡ ok issued
  pub is_not_before :
      parse_utc from_iso (get "notBefore" validity) "validity.notBefore" ≡ ok not_before
  pub is_expires : parse_utc from_iso (get "expiresAt" validity) "validity.expiresAt" ≡ ok expires
  pub in_order : (leb_ℤ issued not_before ≡ true) × (ltb_ℤ not_before expires ≡ true)
  pub has_uses : is_count 1 (get "maxUses" validity) ≡ true
  pub no_key_material : embeds (obj grant) ≡ false

record IsScope (scope : Fields) : Type 0 where
  secrets : Fields
  network : Fields
  is_secrets : get "secrets" scope ≡ obj secrets
  is_network : get "network" scope ≡ obj network
  no_reveal : is_false (get "rawReveal" secrets) ≡ true
  no_listen : may_listen_not (get "listen" network) ≡ true

validate_scope-IsScope :
    (scope : Fields) (done : Unit {0}) → validate_scope scope ≡ ok done → IsScope scope
unfolding validate_scope
validate_scope-IsScope scope done h0 =
    let (_, h1) =
      refuse_if-eq-ok
        (lacks_any ("paths" ∷ "process" ∷ "network" ∷ "browser" ∷ "secrets" ∷ []) scope) _ _ h0 in
    >>=-elim (required_map "paths" scope "scope.paths") _ h1 (λ paths _ h2.
      >>=-elim (required_map "process" scope "scope.process") _ h2 (λ process _ h3.
        >>=-elim (required_map "network" scope "scope.network") _ h3 (λ network a h4.
          >>=-elim (required_map "browser" scope "scope.browser") _ h4 (λ browser _ h5.
            >>=-elim (required_map "secrets" scope "scope.secrets") _ h5 (λ secrets b h6.
              let (c, h7) = refuse_if-eq-ok (not (is_false (get "rawReveal" secrets))) _ _ h6 in
              >>=-elim (require_leases (get_default "leaseIds" (arr nil) secrets)) _ h7
                (λ leases _ h8.
                  let (d, _) =
                    refuse_if-eq-ok (not (may_listen_not (get "listen" network))) _ _ h8 in
                  record {
                    secrets = secrets;
                    network = network;
                    is_secrets = required_map-obj "secrets" _ scope secrets b;
                    is_network = required_map-obj "network" _ scope network a;
                    no_reveal = not-true (is_false (get "rawReveal" secrets)) c;
                    no_listen = not-true (may_listen_not (get "listen" network)) d;
                  }))))))

module _ (from_iso : String → Option Stamp) where
  record IsTimed (validity : Fields) : Type 0 where
    issued : ℤ
    not_before : ℤ
    expires : ℤ
    is_issued : parse_utc from_iso (get "issuedAt" validity) "validity.issuedAt" ≡ ok issued
    is_not_before :
        parse_utc from_iso (get "notBefore" validity) "validity.notBefore" ≡ ok not_before
    is_expires : parse_utc from_iso (get "expiresAt" validity) "validity.expiresAt" ≡ ok expires
    in_order : (leb_ℤ issued not_before ≡ true) × (ltb_ℤ not_before expires ≡ true)
    has_uses : is_count 1 (get "maxUses" validity) ≡ true

  check_validity-IsTimed :
      (validity : Fields) (done : Unit {0})
      → check_validity from_iso validity ≡ ok done
      → IsTimed validity
  unfolding check_validity
  check_validity-IsTimed validity done h0 =
      >>=-elim (parse_utc from_iso (get "issuedAt" validity) "validity.issuedAt") _ h0
        (λ issued a h1.
          >>=-elim (parse_utc from_iso (get "notBefore" validity) "validity.notBefore") _ h1
            (λ not_before b h2.
              >>=-elim (parse_utc from_iso (get "expiresAt" validity) "validity.expiresAt") _ h2
                (λ expires c h3.
                  let (d, h4) =
                    refuse_if-eq-ok (not (leb_ℤ issued not_before && ltb_ℤ not_before expires)) _ _
                      h3 in
                  let (e, _) = refuse_if-eq-ok (not (is_count 1 (get "maxUses" validity))) _ _ h4 in
                  record {
                    issued = issued;
                    not_before = not_before;
                    expires = expires;
                    is_issued = a;
                    is_not_before = b;
                    is_expires = c;
                    in_order =
                        &&-true (leb_ℤ issued not_before) (ltb_ℤ not_before expires)
                          (not-true (leb_ℤ issued not_before && ltb_ℤ not_before expires) d);
                    has_uses = not-true (is_count 1 (get "maxUses" validity)) e;
                  })))

  -- A grant that is validated is well formed, and is returned as it was given: its instants are in
  -- order, it has at least one use, only known fields and no embedded key material, its secrets are
  -- not revealed, it does not listen, and its budgets are whole numbers that are not negative.
  pub validate_fields-IsWellFormed :
      (grant value : Fields) (require_mac : Bool)
      → validate_fields from_iso grant require_mac ≡ ok value
      → (value ≡ grant) × IsWellFormed from_iso grant
  unfolding validate_fields validate_budgets walk_forbidden_keys
  validate_fields-IsWellFormed grant value require_mac h0 =
      let (known, h1) =
        refuse_if-eq-ok (not (is_empty (difference (names_of grant) allowed_top_level))) _ _ h0 in
      let (_, h2) = refuse_if-eq-ok (lacks_any allowed_top_level grant) _ _ h1 in
      let (_, h3) = refuse_if-eq-ok (not (is_text "2.0.0" (get "schemaVersion" grant))) _ _ h2 in
      >>=-elim (require_string (get "grantId" grant) "grantId") _ h3 (λ grant_id _ h4.
        >>=-elim (require_string (get "nonce" grant) "nonce") _ h4 (λ nonce _ h5.
          >>=-elim (required_map "issuer" grant "issuer") _ h5 (λ issuer _ h6.
            >>=-elim (check_issuer issuer) _ h6 (λ issued _ h7.
              >>=-elim (required_map "binding" grant "binding") _ h7 (λ binding _ h8.
                >>=-elim (check_binding binding) _ h8 (λ bound _ h9.
                  >>=-elim (required_map "scope" grant "scope") _ h9 (λ scope a h10.
                    >>=-elim (validate_scope scope) _ h10 (λ scoped b h11.
                      >>=-elim (required_map "budgets" grant "budgets") _ h11 (λ budgets c h12.
                        >>=-elim (validate_budgets budgets) _ h12 (λ counted d h13.
                          >>=-elim (required_map "validity" grant "validity") _ h13
                            (λ validity e h14.
                              >>=-elim (check_validity from_iso validity) _ h14 (λ timed f h15.
                                >>=-elim (required_map "auth" grant "auth") _ h15 (λ auth _ h16.
                                  >>=-elim (check_auth auth require_mac) _ h16 (λ authentic _ h17.
                                    let (clean, h18) =
                                      refuse_if-eq-ok (embeds (obj grant)) _ _ h17 in
                                    let s = validate_scope-IsScope scope scoped b in
                                    let t = check_validity-IsTimed validity timed f in
                                    let (_, budgets_checked) =
                                      refuse_if-eq-ok (lacks_any budget_names budgets) _ _ d in
                                    (
                                      sym (ok-injective grant value h18),
                                      record {
                                        scope = scope;
                                        secrets = s.secrets;
                                        network = s.network;
                                        budgets = budgets;
                                        validity = validity;
                                        issued = t.issued;
                                        not_before = t.not_before;
                                        expires = t.expires;
                                        is_scope = required_map-obj "scope" _ grant scope a;
                                        is_secrets = s.is_secrets;
                                        is_network = s.is_network;
                                        is_budgets = required_map-obj "budgets" _ grant budgets c;
                                        is_validity =
                                            required_map-obj "validity" _ grant validity e;
                                        only_known =
                                            not-true
                                              (is_empty
                                                (difference (names_of grant) allowed_top_level))
                                              known;
                                        no_reveal = s.no_reveal;
                                        no_listen = s.no_listen;
                                        counts = λ name m.
                                            check_budgets-counts budget_names budgets counted name
                                              budgets_checked m;
                                        is_issued = t.is_issued;
                                        is_not_before = t.is_not_before;
                                        is_expires = t.is_expires;
                                        in_order = t.in_order;
                                        has_uses = t.has_uses;
                                        no_key_material = clean;
                                      },
                                    )))))))))))))))
