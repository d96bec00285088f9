-- ===== src/Release/Version/Laws.antt =====
-- The order of the versions.
use kris_ai.Base.{◌≡◌, true, ◌||◌, arith}
use kris_ai.Release.Version.{Version, at_least}

pub at_least_total : (a b : Version) → (at_least a b || at_least b a) ≡ true
unfolding at_least
at_least_total a b = ground arith

pub at_least_trans :
    (a b c : Version) → at_least a b ≡ true → at_least b c ≡ true → at_least a c ≡ true
unfolding at_least
at_least_trans a b c p q = ground arith

pub at_least_antisym : (a b : Version) → at_least a b ≡ true → at_least b a ≡ true → a ≡ b
unfolding at_least
at_least_antisym a b p q = ground arith
