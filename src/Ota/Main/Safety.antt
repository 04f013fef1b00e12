-- ===== src/Ota/Main/Safety.antt =====
-- What a round of the loop in ui/ui_ota.c does to the number on the screen.
use frameworks_system_ota.Prelude.{
  ℕ, ◌≡◌, ap, ◌∙◌, sym, subst, Bool, false, Option, some, List, [], ◌∷◌, arith, All, >>=-eq-some,
  some-inj,
}
use frameworks_system_ota.Prelude.Int.{ℤ, pos, ◌<ℤ◌, ◌≤ℤ◌, ltb_ℤ}
use frameworks_system_ota.Ui.Code.{Code}
use frameworks_system_ota.Ui.Lvgl.{Lvgl}
use frameworks_system_ota.Ui.Refresh.{ui_set_progress}
use frameworks_system_ota.Ota.Progress.{Calc, ota_calc_progress}
use frameworks_system_ota.Ota.Progress.Bounds.{current-lt-100}
use frameworks_system_ota.Ota.Property.{
  Properties, ota_upgrade_prop_get, key_current, ota_sync_upgrade_progress,
}
use frameworks_system_ota.Ota.Main.{
  Loop, Round, again, leave, sync_round, show_success, show_upgrading, show_page, end_round, round,
  rounds, after_round,
}

abbrev pub loop_of : {lv : Lvgl} → Round lv → Loop lv
loop_of (again l) = l
loop_of (leave l) = l

-- The upgrade has neither failed nor come to its end.
abbrev pub UnderWay : ℤ → Type 0
UnderWay prev = (pos 0 ≤ℤ prev) × (prev <ℤ pos 100)

prev_node-calc : (c : Calc) → (ota_calc_progress c).progress.prev_node ≡ c.progress.prev_node
unfolding ota_calc_progress
prev_node-calc c = ground arith

module _ (props : Properties) (lv : Lvgl) (use_arc : Bool) (sync_time : ℕ) where
  show_success-calc :
      (ret : Code) (l : Loop lv) → (show_success props lv use_arc sync_time ret l).1.calc ≡ l.calc
  unfolding show_success
  show_success-calc ret l = ground arith

  end_round-calc :
      (logo_mode : Bool) (ret : Code) (l : Loop lv)
      → (loop_of (end_round props lv use_arc sync_time logo_mode (ret, l))).calc ≡ l.calc
  unfolding end_round
  end_round-calc logo_mode ret l = ground arith

  -- `show_upgrading` moves the number by `ota_calc_progress`, whatever the pages do.
  show_upgrading-calc :
      (l : Loop lv) (shown : Code × Loop lv)
      → show_upgrading props lv use_arc sync_time l ≡ some shown
      → shown.1.calc ≡ ota_calc_progress l.calc
  unfolding show_upgrading
  show_upgrading-calc l shown h =
      let (r, e, e') = >>=-eq-some (ui_set_progress lv use_arc _ _ _) _ h in
      ap (λ (x : Code × Loop lv). x.1.calc) (sym (some-inj e'))
      ∙ show_success-calc r.0 (record l { calc = ota_calc_progress l.calc; ui = r.1 })

  -- A round that is neither for the logo nor after a failure.
  round-calc :
      (db : props.Db) (l : Loop lv) (r : Round lv)
      → ltb_ℤ (sync_round props lv use_arc sync_time db l).calc.progress.prev_node (pos 0) ≡ false
      → round props lv use_arc sync_time false db l ≡ some r
      → (loop_of r).calc ≡ ota_calc_progress (sync_round props lv use_arc sync_time db l).calc
  unfolding round show_page
  round-calc db l r going h =
      let (shown, e, e') =
        >>=-eq-some
          (show_page props lv use_arc sync_time false (sync_round props lv use_arc sync_time db l))
          _ h in
      ap (λ x. (loop_of x).calc) (sym (some-inj e'))
      ∙ end_round-calc false shown.0 shown.1
      ∙ show_upgrading-calc (sync_round props lv use_arc sync_time db l) shown
          (rw (going, show_page) at e)

  synced-UnderWay :
      (db : props.Db) (l : Loop lv)
      → UnderWay l.calc.progress.prev_node
      → UnderWay (ota_upgrade_prop_get props key_current db)
      → UnderWay (sync_round props lv use_arc sync_time db l).calc.progress.prev_node
  unfolding sync_round ota_sync_upgrade_progress
  synced-UnderWay db l h k = ground arith

  round-UnderWay :
      (db : props.Db) (l : Loop lv) (r : Round lv)
      → UnderWay l.calc.progress.prev_node
      → UnderWay (ota_upgrade_prop_get props key_current db)
      → round props lv use_arc sync_time false db l ≡ some r
      → UnderWay (loop_of r).calc.progress.prev_node
        × ((loop_of r).calc.progress.current <ℤ pos 100)
  round-UnderWay db l r h k e =
      let synced = synced-UnderWay db l h k in
      let step = round-calc db l r (ground arith) e in
      (
        subst (λ (c : Calc). UnderWay c.progress.prev_node) (sym step)
            (subst UnderWay (sym (prev_node-calc _)) synced),
        subst (λ (c : Calc). c.progress.current <ℤ pos 100) (sym step)
            (current-lt-100 (sync_round props lv use_arc sync_time db l).calc synced.1),
      )

  -- What the rounds of the loop keep.
  abbrev IsBelow : Loop lv → Type 0
  IsBelow l = UnderWay l.calc.progress.prev_node × (l.calc.progress.current <ℤ pos 100)

  after_round-IsBelow :
      (rest : Loop lv → Option (Round lv)) (r' r : Round lv)
      → ((l : Loop lv) → IsBelow l → rest l ≡ some r → IsBelow (loop_of r))
      → IsBelow (loop_of r')
      → after_round props lv use_arc sync_time rest r' ≡ some r
      → IsBelow (loop_of r)
  after_round-IsBelow rest (again l) r keep below e = keep l below e
  after_round-IsBelow rest (leave l) r keep below e =
      subst (λ (x : Round lv). IsBelow (loop_of x)) (some-inj e) below

  -- As long as the upgrade is neither at its end nor failed, at the start and in every database that
  -- a round finds, the number stays below 100, through any number of rounds.
  pub rounds-below :
      (dbs : List props.Db) (l : Loop lv) (r : Round lv)
      → UnderWay l.calc.progress.prev_node × (l.calc.progress.current <ℤ pos 100)
      → All (λ db. UnderWay (ota_upgrade_prop_get props key_current db)) dbs
      → rounds props lv use_arc sync_time false dbs l ≡ some r
      → UnderWay (loop_of r).calc.progress.prev_node
        × ((loop_of r).calc.progress.current <ℤ pos 100)
  unfolding rounds
  rounds-below [] l r below all e = subst (λ (x : Round lv). IsBelow (loop_of x)) (some-inj e) below
  rounds-below (db ∷ dbs) l r below all e =
      let (r', first, rest) = >>=-eq-some (round props lv use_arc sync_time false db l) _ e in
      after_round-IsBelow (rounds props lv use_arc sync_time false dbs) r' r
        (λ l' below' e'. rounds-below dbs l' r below' all.1 e')
        (round-UnderWay db l r' below.0 all.0 first) rest
