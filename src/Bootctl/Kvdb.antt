-- ===== src/Bootctl/Kvdb.antt =====
-- The key-value database (kvdb.h) that bootctl/bootctl.c keeps its flags in. It is another
-- component of the system, so it is a parameter: its operations, and apart from them what the
-- program relies on.
use text.Mathlib.Text.{◌==◌ as str_eq}
use frameworks_system_ota.Prelude.{String, Bool, false, ◌≡◌, if◌then◌else◌}
use frameworks_system_ota.Prelude.Int.{ℤ, pos, ltb_ℤ}

pub record Kvdb : Type 1 where
  pub Db : Type 0
  -- Key and value; the returned number is negative on failure.
  pub property_set_bool : String → Bool → Db → ℤ × Db
  -- Key, and the value of a missing key.
  pub property_get_bool : String → Bool → Db → Bool
  pub property_commit : Db → ℤ × Db

-- `ret < 0`
unfoldable pub failed : ℤ → Bool
failed ret = ltb_ℤ ret (pos 0)

-- What a successful set and a commit do to later reads. Nothing is assumed of a failed set.
pub record IsKvdb (kv : Kvdb) : Type 0 where
  pub get-set :
      (k j : String) (v d : Bool) (db : kv.Db)
      → failed (kv.property_set_bool k v db).0 ≡ false
      → kv.property_get_bool j d (kv.property_set_bool k v db).1
        ≡ (if str_eq k j then v else kv.property_get_bool j d db)
  pub get-commit :
      (j : String) (d : Bool) (db : kv.Db)
      → kv.property_get_bool j d (kv.property_commit db).1 ≡ kv.property_get_bool j d db
