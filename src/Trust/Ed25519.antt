-- ===== src/Trust/Ed25519.antt =====
-- tool/ed25519_ref.py: the signatures of the library `cryptography` are parameters. A message is the
-- text whose UTF-8 bytes are signed.
pub mod Laws
use kris_ai.Base.{ℕ, eqb, String, Bool, true, false, not, List, length, if◌then◌else◌}
use kris_ai.Base.Outcome.{Outcome, ok, raise, ◌>>=◌, ◌>>◌, refuse_if}

-- The library: the public key of a seed, the signature of a message with a seed, and whether a
-- signature of a message is valid for a public key.
pub record Ed25519 : Type 0 where
  pub derive : List ℕ → List ℕ
  pub make : List ℕ → String → List ℕ
  pub check : List ℕ → String → List ℕ → Bool

module _ (library : Ed25519) where
  unfoldable pub private_of : List ℕ → Outcome (List ℕ)
  private_of seed =
      if eqb (length seed) 32 then ok seed else raise "Ed25519 seed must be exactly 32 bytes"

  unfoldable pub public_key : List ℕ → Outcome (List ℕ)
  unfolding private_of
  public_key seed = private_of seed >>= λ key. ok (library.derive key)

  unfoldable pub sign : List ℕ → String → Outcome (List ℕ)
  unfolding private_of
  sign seed message = private_of seed >>= λ key. ok (library.make key message)

  -- An exception of the library counts as an invalid signature.
  unfoldable pub verify : List ℕ → String → List ℕ → Bool
  verify public message signature = library.check public message signature
