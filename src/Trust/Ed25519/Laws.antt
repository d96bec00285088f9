-- ===== src/Trust/Ed25519/Laws.antt =====
-- What the library promises, and what signing with a seed gives.
use kris_ai.Base.{ℕ, String, ◌≡◌, true, List, arith}
use kris_ai.Base.Outcome.{ok}
use kris_ai.Trust.Bytes.Laws.{AllBytes}
use kris_ai.Trust.Ed25519.{Ed25519, private_of, sign}

-- What the library promises of a seed: a signature made with it is a sequence of bytes that is valid
-- for its public key.
pub record SignsWith (library : Ed25519) (seed : List ℕ) : Type 0 where
  pub are_bytes : (message : String) → AllBytes (library.make seed message)
  pub is_valid :
      (message : String)
      → library.check (library.derive seed) message (library.make seed message) ≡ true

pub made_by :
    (library : Ed25519) (seed : List ℕ) (message : String) (signature : List ℕ)
    → sign library seed message ≡ ok signature
    → library.make seed message ≡ signature
unfolding sign private_of
made_by library seed message signature h = ground arith
