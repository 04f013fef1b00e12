-- ===== src/Bootctl/Config/Roundtrip.antt =====
-- Reads and writes of the flags of bootctl/bootctl.c, one after the other.
use text.Mathlib.Text.{◌==◌ as str_eq}
use frameworks_system_ota.Prelude.{
  String, Bool, false, ap, ◌≡◌, inl, inr, if◌then◌else◌, Bool-cases,
}
use frameworks_system_ota.Prelude.Int.{ℤ}
use frameworks_system_ota.Bootctl.Kvdb.{Kvdb, IsKvdb, failed}
use frameworks_system_ota.Bootctl.State.{
  Bootctl, key_a_active, key_a_bootable, key_a_successful, key_b_active, key_b_bootable,
  key_b_successful, key_try,
}
use frameworks_system_ota.Bootctl.Config.{bootctl_write_config, bootctl_read_config, set_or_return}

-- What a set of `k` to `v` followed by changes `f` makes of the value `b` of key `j`.
override : String → Bool → (String → Bool → Bool) → String → Bool → Bool
override k v f j b = f j (if str_eq k j then v else b)

-- The value of key `j` after a successful `bootctl_write_config boot`, where it was `b` before.
unfoldable pub stored : Bootctl → String → Bool → Bool
unfolding override
stored boot = override key_a_active boot.slot_a.active (
    override key_a_bootable boot.slot_a.bootable (
      override key_a_successful boot.slot_a.successful (
        override key_b_active boot.slot_b.active (
          override key_b_bootable boot.slot_b.bootable (
            override key_b_successful boot.slot_b.successful
              (override key_try boot.try (λ j b. b)))))))

module _ (kv : Kvdb) (laws : IsKvdb kv) where
  open kv use {Db, property_get_bool, property_set_bool, property_commit}

  -- A successful run of `m` changes what every key reads as by `f`.
  pub record Writes (m : Db → ℤ × Db) (f : String → Bool → Bool) : Type 0 where
    pub at :
        (db : Db) (j : String) (d : Bool)
        → failed (m db).0 ≡ false
        → property_get_bool j d (m db).1 ≡ f j (property_get_bool j d db)

  Writes-commit : Writes property_commit (λ j b. b)
  Writes-commit = record { at = λ db j d h. laws.get-commit j d db }

  Writes-set :
      (k : String) (v : Bool) {rest : Db → ℤ × Db} {f : String → Bool → Bool}
      → Writes rest f
      → Writes (set_or_return kv k v rest) (override k v f)
  unfolding override set_or_return
  Writes-set k v {rest} {f} w = record {
    at = λ db j d h. elim (Bool-cases (failed (property_set_bool k v db).0)) [
      | inl bad ↦ cc bad
      | inr good ↦
          rw (good, w.at (property_set_bool k v db).1 j d (rw good at h))
            (ap (f j) (laws.get-set k j v d db good))
    ];
  }

  -- A successful `bootctl_write_config` stores the seven flags, and changes no other key.
  pub Writes-config : (boot : Bootctl) → Writes (bootctl_write_config kv boot) (stored boot)
  unfolding bootctl_write_config stored
  Writes-config boot = Writes-set _ _ (
      Writes-set _ _ (
        Writes-set _ _
          (Writes-set _ _ (Writes-set _ _ (Writes-set _ _ (Writes-set _ _ Writes-commit))))))

  -- A successful `bootctl_write_config` stores exactly what the next read returns.
  pub read-write :
      (boot : Bootctl) (db : Db)
      → failed (bootctl_write_config kv boot db).0 ≡ false
      → bootctl_read_config kv (bootctl_write_config kv boot db).1 ≡ boot
  unfolding bootctl_read_config stored
  read-write boot db h = λ i. record {
    slot_a = record {
      active = (Writes-config boot).at db key_a_active false h i;
      bootable = (Writes-config boot).at db key_a_bootable false h i;
      successful = (Writes-config boot).at db key_a_successful false h i;
    };
    slot_b = record {
      active = (Writes-config boot).at db key_b_active false h i;
      bootable = (Writes-config boot).at db key_b_bootable false h i;
      successful = (Writes-config boot).at db key_b_successful false h i;
    };
    try = (Writes-config boot).at db key_try false h i;
  }
