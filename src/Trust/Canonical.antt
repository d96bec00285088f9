-- ===== src/Trust/Canonical.antt =====
-- `canonical_json`, which refuses floats.
use kris_ai.Base.{String, Bool, true, false, ◌||◌, if◌then◌else◌}
use kris_ai.Base.Outcome.{Outcome, ok, raise}
use kris_ai.Base.Json.{
  Json, null, bool, int, real, str, arr, obj, Items, nil, item, Fields, end, field,
}
use kris_ai.Base.Json.Print.{dumps}

-- Whether `normalize` meets a float.
unfoldable mutual
  pub has_real : Json → Bool
  has_real null = false
  has_real (bool b) = false
  has_real (int n) = false
  has_real (real r) = true
  has_real (str s) = false
  has_real (arr xs) = has_real_item xs
  has_real (obj fs) = has_real_field fs

  pub has_real_item : Items → Bool
  has_real_item nil = false
  has_real_item (item v xs) = has_real v || has_real_item xs

  pub has_real_field : Fields → Bool
  has_real_field end = false
  has_real_field (field k v fs) = has_real v || has_real_field fs

unfoldable pub canonical_json : Json → Outcome String
unfolding has_real dumps
canonical_json value = if has_real value then raise "non_canonical_number" else ok (dumps value)
