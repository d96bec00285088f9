-- ===== src/Trust/KeyRegistry/Laws.antt =====
-- What the registry answers over time.
use kris_ai.Base.{
  String, ◌≡◌, refl, sym, ap, ◌==◌, false, not, Option, none, some, elem, any, lower, has_substring,
  ◌||◌, Bool-cases, inl, inr, eq_iff, arith,
}
use kris_ai.Base.Outcome.{ok, raise, >>=-elim, ok-injective, refuse_if-eq-ok}
use kris_ai.Base.Dict.{lookup, insert, lookup-insert, lookup-insert_same}
use kris_ai.Trust.KeyRegistry.{
  ProtectedKeyHandle, Registry, is_known, required, register, resolve, as_revoked, revoke,
  providers, secret_markers,
}

-- One call that changes the registry.
pub data Step : Registry → Registry → Type 0 where
  registered : (handle : ProtectedKeyHandle) {r s : Registry} → register handle r ≡ ok s → Step r s
  revoked :
      (key_id : String) {handle : ProtectedKeyHandle} {r s : Registry}
      → revoke key_id r ≡ ok (handle, s)
      → Step r s

-- Any number of such calls.
pub data Reaches : Registry → Registry → Type 0 where
  done : {r : Registry} → Reaches r r
  after : {r s t : Registry} → Step r s → Reaches s t → Reaches r t

-- The identifier is known, and its handle was revoked.
pub record IsRevoked (key_id : String) (r : Registry) : Type 0 where
  pub handle : ProtectedKeyHandle
  pub known : lookup key_id r ≡ some handle
  pub is_revoked : handle.status ≡ "revoked"

required-known :
    (key_id : String) (r : Registry) (handle : ProtectedKeyHandle)
    → required key_id r ≡ ok handle
    → lookup key_id r ≡ some handle
unfolding required
required-known key_id r handle h = grind arith

register-fresh :
    (handle : ProtectedKeyHandle) (r s : Registry)
    → register handle r ≡ ok s
    → (is_known (lookup handle.key_id r) ≡ false) × (s ≡ insert handle.key_id handle r)
unfolding register
register-fresh handle r s h0 =
    let (a, h1) = refuse_if-eq-ok (is_known (lookup handle.key_id r)) _ _ h0 in
    let (_, h2) = refuse_if-eq-ok (not (elem handle.provider providers)) _ _ h1 in
    let (_, h3) =
      refuse_if-eq-ok
        (handle.reference == ""
          || any (λ marker. has_substring marker (lower handle.reference)) secret_markers)
        _ _ h2 in
    (a, sym (ok-injective _ s h3))

revoke-insert :
    (key_id : String) (r s : Registry) (handle : ProtectedKeyHandle)
    → revoke key_id r ≡ ok (handle, s)
    → (old : ProtectedKeyHandle) × (lookup key_id r ≡ some old)
      × (s ≡ insert key_id (as_revoked old) r)
unfolding revoke
revoke-insert key_id r s handle h = >>=-elim (required key_id r) _ h (λ old e g.
    (old, required-known key_id r old e, ap (λ p. p.1) (sym (ok-injective _ (handle, s) g))))

unknown-known :
    (o : Option ProtectedKeyHandle) (handle : ProtectedKeyHandle)
    → is_known o ≡ false
    → o ≡ some handle
    → ⊥
unknown-known none handle h e = cc
unknown-known (some x) handle h e = cc

-- A later registration or revocation leaves a revoked key revoked.
Step-IsRevoked :
    (key_id : String) (r s : Registry) → Step r s → IsRevoked key_id r → IsRevoked key_id s
Step-IsRevoked key_id r s (registered handle h) i =
    let (fresh, made) = register-fresh handle r s h in
    elim (Bool-cases (handle.key_id == key_id)) [
      | inl t ↦ absurd (
          unknown-known (lookup handle.key_id r) i.handle fresh
            (rw ((eq_iff handle.key_id key_id).0 t) i.known))
      | inr f ↦ record {
        handle = i.handle;
        known = rw (made, lookup-insert handle.key_id key_id handle r, f) i.known;
        is_revoked = i.is_revoked;
      }
    ]
Step-IsRevoked key_id r s (revoked other {handle} h) i =
    let (old, known, made) = revoke-insert other r s handle h in
    elim (Bool-cases (other == key_id)) [
      | inl t ↦ record {
        handle = as_revoked old;
        known = rw (made, lookup-insert other key_id (as_revoked old) r, t) refl;
        is_revoked = refl;
      }
      | inr f ↦ record {
        handle = i.handle;
        known = rw (made, lookup-insert other key_id (as_revoked old) r, f) i.known;
        is_revoked = i.is_revoked;
      }
    ]

Reaches-IsRevoked :
    (key_id : String) {r s : Registry} → Reaches r s → IsRevoked key_id r → IsRevoked key_id s
Reaches-IsRevoked key_id done i = i
Reaches-IsRevoked key_id (after step rest) i =
    Reaches-IsRevoked key_id rest (Step-IsRevoked key_id _ _ step i)

revoke-IsRevoked :
    (key_id : String) (r s : Registry) (handle : ProtectedKeyHandle)
    → revoke key_id r ≡ ok (handle, s)
    → IsRevoked key_id s
revoke-IsRevoked key_id r s handle h =
    let (old, known, made) = revoke-insert key_id r s handle h in
    record {
      handle = as_revoked old;
      known = rw made (lookup-insert_same key_id (as_revoked old) r);
      is_revoked = refl;
    }

-- A key that was revoked is refused as revoked for every purpose and domain, whatever is registered
-- and revoked afterwards: its identifier is never free again.
pub revoke-resolve :
    (key_id purpose trust_domain : String) (handle : ProtectedKeyHandle) (r s t : Registry)
    → revoke key_id r ≡ ok (handle, s)
    → Reaches s t
    → resolve key_id purpose trust_domain t ≡ raise "key_revoked"
unfolding resolve required
revoke-resolve key_id purpose trust_domain handle r s t h steps =
    let i = Reaches-IsRevoked key_id steps (revoke-IsRevoked key_id r s handle h) in
    rw (resolve, required, i.known, i.is_revoked) refl
