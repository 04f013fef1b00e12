-- ===== src/Bootctl/Config.antt =====
-- `bootctl_write_config` and `bootctl_read_config` of bootctl/bootctl.c.
pub mod Roundtrip
use frameworks_system_ota.Prelude.{String, Bool, true, false, if◌then◌else◌}
use frameworks_system_ota.Prelude.Int.{ℤ}
use frameworks_system_ota.Bootctl.Kvdb.{Kvdb, failed}
use frameworks_system_ota.Bootctl.State.{
  Bootctl, key_a_active, key_a_bootable, key_a_successful, key_b_active, key_b_bootable,
  key_b_successful, key_try,
}

module _ (kv : Kvdb) where
  open kv use {Db, property_set_bool, property_get_bool, property_commit}

  -- `ret = property_set_bool(key, value); if (ret < 0) return ret;` and then the rest.
  unfoldable pub set_or_return : String → Bool → (Db → ℤ × Db) → Db → ℤ × Db
  set_or_return key value rest db =
      let (ret, db') = property_set_bool key value db in if failed ret then (ret, db') else rest db'

  unfoldable pub bootctl_write_config : Bootctl → Db → ℤ × Db
  unfolding set_or_return
  bootctl_write_config boot = set_or_return key_a_active boot.slot_a.active (
      set_or_return key_a_bootable boot.slot_a.bootable (
        set_or_return key_a_successful boot.slot_a.successful (
          set_or_return key_b_active boot.slot_b.active (
            set_or_return key_b_bootable boot.slot_b.bootable (
              set_or_return key_b_successful boot.slot_b.successful
                (set_or_return key_try boot.try property_commit))))))

  unfoldable pub bootctl_read_config : Db → Bootctl
  bootctl_read_config db = record {
    slot_a = record {
      active = property_get_bool key_a_active false db;
      bootable = property_get_bool key_a_bootable false db;
      successful = property_get_bool key_a_successful false db;
    };
    slot_b = record {
      active = property_get_bool key_b_active false db;
      bootable = property_get_bool key_b_bootable false db;
      successful = property_get_bool key_b_successful false db;
    };
    try = property_get_bool key_try false db;
  }
