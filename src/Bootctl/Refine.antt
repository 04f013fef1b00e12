-- ===== src/Bootctl/Refine.antt =====
-- The commands of bootctl/bootctl.c on the database, and their effect on the flags.
use frameworks_system_ota.Prelude.{
  String, false, ◌≡◌, ◌∙◌, ap, refl, Option, none, some, List, [], ◌∷◌, if◌then◌else◌,
}
use frameworks_system_ota.Prelude.Int.{ℤ}
use frameworks_system_ota.Bootctl.Kvdb.{Kvdb, IsKvdb, failed}
use frameworks_system_ota.Bootctl.State.{Bootctl, Slot, other}
use frameworks_system_ota.Bootctl.Config.{bootctl_read_config, bootctl_write_config}
use frameworks_system_ota.Bootctl.Config.Roundtrip.{read-write}
use frameworks_system_ota.Bootctl.Ap.{
  active_slot, clear_other, switch_active, mark_successful, bootctl_active, bootctl_update,
  bootctl_done, bootctl_success, write_changed,
}
use frameworks_system_ota.Bootctl.Loader.{choose_slot, init, boot_image, bootctl_boot}
use frameworks_system_ota.Bootctl.Machine.{Machine, Call, update, done, success}
use frameworks_system_ota.Bootctl.Main.{main_ap}
use frameworks_system_ota.Bootctl.Invariant.{IsValid, choose_slot-IsValid}
use frameworks_system_ota.Bootctl.Upgrade.{changed, after_success, upgrade_is_tried}

-- What the code of a call does to the flags.
unfoldable pub effect : Call → Bootctl → Bootctl
unfolding after_success
effect update boot = clear_other boot
effect done boot = switch_active boot
effect success boot = after_success boot

module _ (kv : Kvdb) where
  unfoldable pub perform : Call → kv.Db → ℤ × kv.Db
  unfolding bootctl_update bootctl_done bootctl_success
  perform update db = bootctl_update kv db
  perform done db = bootctl_done kv db
  perform success db = bootctl_success kv db

  -- One call after the other; `none` once a call reports a failure.
  unfoldable pub perform_all : List Call → kv.Db → Option kv.Db
  perform_all [] db = some db
  perform_all (c ∷ cs) db =
      let (ret, db') = perform c db in
      let rest = perform_all cs db' in if failed ret then none else rest

module _ (kv : Kvdb) (laws : IsKvdb kv) where
  write_changed_lem :
      (o : Option Bootctl) (db : kv.Db)
      → failed (write_changed kv o db).0 ≡ false
      → bootctl_read_config kv (write_changed kv o db).1 ≡ changed o (bootctl_read_config kv db)
  unfolding write_changed changed
  write_changed_lem none db h = refl
  write_changed_lem (some boot) db h = read-write kv laws boot db h

  perform-effect :
      (c : Call) (db : kv.Db)
      → failed (perform kv c db).0 ≡ false
      → bootctl_read_config kv (perform kv c db).1 ≡ effect c (bootctl_read_config kv db)
  unfolding perform effect
  perform-effect update db h = read-write kv laws (clear_other (bootctl_read_config kv db)) db h
  perform-effect done db h = read-write kv laws (switch_active (bootctl_read_config kv db)) db h
  perform-effect success db h = write_changed_lem (mark_successful (bootctl_read_config kv db)) db h

  -- From valid flags, if the loader's write succeeds: the slot that the loader boots is the one
  -- that `bootctl_active` returns afterwards, and the flags are valid again.
  pub boot-active :
      (slot_path : Slot → String) (db : kv.Db)
      → IsValid (bootctl_read_config kv db)
      → failed (bootctl_write_config kv (choose_slot (bootctl_read_config kv db)).0 db).0 ≡ false
      → let (ret, requests, db') = bootctl_boot kv slot_path db in
        (s : Slot) × (bootctl_active kv db' ≡ some s)
        × (requests ≡ init ∷ boot_image (slot_path s) ∷ [])
        × IsValid (bootctl_read_config kv db')
  unfolding bootctl_boot bootctl_active
  boot-active slot_path db v h =
      let boot = (choose_slot (bootctl_read_config kv db)).0 in
      let e = read-write kv laws boot db h in
      (
        (choose_slot (bootctl_read_config kv db)).1,
        ap active_slot e ∙ (choose_slot-IsValid v).1,
        refl,
        rw e (choose_slot-IsValid v).0,
      )

  -- From valid flags with slot `s` active and `try` clear: after `bootctl update` and `bootctl done`
  -- on the command line, both reporting success, the loader boots the other slot.
  pub command_line_upgrade :
      (slot_path : Slot → String) (s : Slot) (db : kv.Db)
      → IsValid (bootctl_read_config kv db)
      → bootctl_active kv db ≡ some s
      → (bootctl_read_config kv db).try ≡ false
      → failed (main_ap kv ("update" ∷ []) db).0 ≡ false
      → failed (main_ap kv ("done" ∷ []) (main_ap kv ("update" ∷ []) db).2).0 ≡ false
      → let (_, _, db') = main_ap kv ("update" ∷ []) db in
        let (_, _, db'') = main_ap kv ("done" ∷ []) db' in
        (bootctl_boot kv slot_path db'').1 ≡ init ∷ boot_image (slot_path (other s)) ∷ []
  unfolding main_ap bootctl_active bootctl_boot perform effect
  command_line_upgrade slot_path s db v act clear h h' =
      let updated = perform-effect update db h in
      let done' = perform-effect done (bootctl_update kv db).1 h' in
      ap (λ boot. init ∷ boot_image (slot_path (choose_slot boot).1) ∷ [])
        (done' ∙ ap switch_active updated)
      ∙ ap (λ t. init ∷ boot_image (slot_path t) ∷ [])
          (upgrade_is_tried s (bootctl_read_config kv db) v act clear).0
