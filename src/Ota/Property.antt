-- ===== src/Ota/Property.antt =====
-- The properties that ui/ui_ota.c reads and, in its test mode, sets.
use frameworks_system_ota.Prelude.{ℕ, String, Option, none, some, List, [], ◌∷◌, get_elem?}
use frameworks_system_ota.Prelude.Int.{ℤ, pos}
use frameworks_system_ota.Ota.Progress.{UpgradeProgress}

-- The database (kvdb.h) and the C library's conversions, which are other components: a missing key
-- reads as `none`. A value fits in the 16 bytes that `ota_upgrade_prop_get` has for it, its end
-- included: `property_get` is not told the size, and what a longer value overwrites is not modelled.
-- `strtol` and `strtoul` are at base 10, and `long` is 32 bits wide.
pub record Properties : Type 1 where
  pub Db : Type 0
  pub property_get : String → Db → Option String
  pub property_set : String → String → Db → Db
  pub strtol : String → ℤ
  pub strtoul : String → ℕ

abbrev pub key_current : String
key_current = "ota.progress.current"

abbrev pub key_next : String
key_next = "ota.progress.next"

module _ (props : Properties) where
  open props use {Db, property_get, property_set, strtol}

  unfoldable pub ota_upgrade_prop_get : String → Db → ℤ
  ota_upgrade_prop_get key db = elim (property_get key db) [ none ↦ pos 0 | some buf ↦ strtol buf ]

  unfoldable pub ota_sync_upgrade_progress : Db → UpgradeProgress → UpgradeProgress
  ota_sync_upgrade_progress db progress = record progress {
    prev_node = ota_upgrade_prop_get key_current db;
    next_node = ota_upgrade_prop_get key_next db;
  }

  abbrev pub prev_list : List String
  prev_list = "0" ∷ "20" ∷ "40" ∷ "60" ∷ "90" ∷ "100" ∷ "-1" ∷ []

  abbrev pub next_list : List String
  next_list = "20" ∷ "40" ∷ "60" ∷ "90" ∷ "100" ∷ "100" ∷ "100" ∷ []

  -- A value without a line in the lists changes nothing.
  unfoldable pub set_both : Option String → Option String → Db → Db
  set_both (some prev) (some next) db =
      property_set key_next next (property_set key_current prev db)
  set_both _ _ db = db

  unfoldable pub set_test_value : ℕ → Db → Db
  unfolding set_both
  set_test_value val db = set_both (get_elem? prev_list val) (get_elem? next_list val) db
