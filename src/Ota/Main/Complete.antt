-- ===== src/Ota/Main/Complete.antt =====
-- The loop of ui/ui_ota.c at the end of an upgrade.
use frameworks_system_ota.Prelude.{
  ℕ, zero, suc, ◌+◌, ◌*◌, ◌%◌, ◌^◌, ◌≤◌, ◌<◌, ◌≡◌, refl, ap, ◌∙◌, subst, Bool, false, some, List,
  [], ◌∷◌, arith, length, All,
}
use frameworks_system_ota.Prelude.Int.{ℤ, pos, ltb_ℤ}
use frameworks_system_ota.Ui.Code.{success}
use frameworks_system_ota.Ui.Lvgl.{Lvgl, IsLvgl}
use frameworks_system_ota.Ui.Refresh.{Ui, ui_timer_handler}
use frameworks_system_ota.Ota.Progress.{Calc, ota_calc_progress}
use frameworks_system_ota.Ota.Progress.Pace.{at, fast_wait, fast_go}
use frameworks_system_ota.Ota.Property.{
  Properties, ota_upgrade_prop_get, key_current, key_next, ota_sync_upgrade_progress,
}
use frameworks_system_ota.Ota.Main.{
  Loop, again, leave, sync_round, show_page, end_round, round, rounds,
}
use frameworks_system_ota.Ota.Main.Ready.{IsReady, upgrading_lem, timer-IsReady}

module _ (props : Properties) where
  -- The database has these two numbers.
  abbrev pub Reads : ℤ → ℤ → props.Db → Type 0
  Reads prev next db =
      (ota_upgrade_prop_get props key_current db ≡ prev)
      × (ota_upgrade_prop_get props key_next db ≡ next)

module _ (lv : Lvgl) (use_arc : Bool) (laws : IsLvgl lv) (page base obj : ℕ) (key : ℕ → ℤ)
    (props : Properties) (sync_time : ℕ) where
  abbrev Ready : Ui lv → Type 0
  Ready = IsReady lv use_arc page base obj key

  -- A synchronisation that finds the numbers that are there.
  sync-same :
      (db : props.Db) (l : Loop lv)
      → Reads props l.calc.progress.prev_node l.calc.progress.next_node db
      → sync_round props lv use_arc sync_time db l ≡ l
  unfolding sync_round ota_sync_upgrade_progress
  sync-same db l h = ground arith

  end_again :
      (l : Loop lv) (value : ℕ)
      → l.calc.progress.current ≡ pos value
      → value < 100
      → ltb_ℤ l.calc.progress.prev_node (pos 0) ≡ false
      → Ready l.ui
      → (l' : Loop lv) × (end_round props lv use_arc sync_time false (success, l) ≡ again l')
        × (l'.calc ≡ l.calc)
        × Ready l'.ui
  unfolding end_round
  end_again l value e small going r = (
    record l {
      count_tick_ms = (l.count_tick_ms + 10000) % 2 ^ 32;
      ui = (ui_timer_handler lv use_arc l.ui).1;
    },
    ground arith,
    refl,
    timer-IsReady lv use_arc laws page base obj key l.ui r,
  )

  end_leave :
      (l : Loop lv)
      → l.calc.progress.current ≡ pos 100
      → (l' : Loop lv) × (end_round props lv use_arc sync_time false (success, l) ≡ leave l')
        × (l'.calc ≡ l.calc)
  unfolding end_round
  end_leave l e = (
    record l {
      count_tick_ms = (l.count_tick_ms + 10000) % 2 ^ 32;
      ui = (ui_timer_handler lv use_arc l.ui).1;
    },
    ground arith,
    refl,
  )

  -- A round up to its end: the number moves by `ota_calc_progress`.
  round_start :
      (db : props.Db) (l : Loop lv) (value : ℕ)
      → Reads props l.calc.progress.prev_node l.calc.progress.next_node db
      → ltb_ℤ l.calc.progress.prev_node (pos 0) ≡ false
      → Ready l.ui
      → (ota_calc_progress l.calc).progress.current ≡ pos value
      → value < 128
      → (l' : Loop lv) × (round props lv use_arc sync_time false db l
          ≡ some (end_round props lv use_arc sync_time false (success, l')))
        × (l'.calc ≡ ota_calc_progress l.calc)
        × Ready l'.ui
  unfolding round show_page
  round_start db l value h going r e small =
      let (l', shown, moved, same_count, ready) =
        upgrading_lem lv use_arc laws page base obj key props sync_time l value r e small in
      (l', rw (sync-same db l h, going, show_page, shown), moved, ready)

  round_again :
      (db : props.Db) (l : Loop lv) (value : ℕ) (c : Calc)
      → Reads props l.calc.progress.prev_node l.calc.progress.next_node db
      → ltb_ℤ l.calc.progress.prev_node (pos 0) ≡ false
      → Ready l.ui
      → ota_calc_progress l.calc ≡ c
      → c.progress.current ≡ pos value
      → ltb_ℤ c.progress.prev_node (pos 0) ≡ false
      → value < 100
      → (l' : Loop lv) × (round props lv use_arc sync_time false db l ≡ some (again l'))
        × (l'.calc ≡ c)
        × Ready l'.ui
  round_again db l value c h going r step e going' small =
      let (l1, start, moved, r1) =
        round_start db l value h going r (ap (λ (x : Calc). x.progress.current) step ∙ e)
          (omega arith) in
      let calc1 : l1.calc ≡ c = moved ∙ step in
      let (l2, last, same, r2) =
        end_again l1 value (ap (λ (x : Calc). x.progress.current) calc1 ∙ e) small
          (ap (λ (x : Calc). ltb_ℤ x.progress.prev_node (pos 0)) calc1 ∙ going') r1 in
      (l2, start ∙ ap some last, same ∙ calc1, r2)

  -- The loop with the number `k`, between the upgrade's end `p` and `next`.
  abbrev Climbing : ℕ → ℕ → ℤ → ℕ → ℕ → Loop lv → Type 0
  Climbing k p next slow fast l = (l.calc ≡ at k (pos p) next slow fast) × Ready l.ui

  Reads-at :
      (k p slow fast : ℕ) (next : ℤ) (db : props.Db) (l : Loop lv)
      → l.calc ≡ at k (pos p) next slow fast
      → Reads props (pos p) next db
      → Reads props l.calc.progress.prev_node l.calc.progress.next_node db
        × (ltb_ℤ l.calc.progress.prev_node (pos 0) ≡ false)
  Reads-at k p slow fast next db l e h = rw e (h, ground arith)

  wait_round :
      (k p slow fast : ℕ) (next : ℤ) (db : props.Db) (l : Loop lv)
      → Climbing k p next slow fast l
      → Reads props (pos p) next db
      → k < p
      → k < 100
      → slow < 100
      → fast < 2
      → (slow' : ℕ) × (l' : Loop lv) × (round props lv use_arc sync_time false db l
          ≡ some (again l'))
        × Climbing k p next slow' (fast + 1) l'
        × (slow' ≤ slow + 1)
  wait_round k p slow fast next db l (e, r) h hk small hs hf =
      let (slow', step, le) = fast_wait k p slow fast next hk hs hf in
      let (reads, going) = Reads-at k p slow fast next db l e h in
      let (l', run, calc, r') =
        round_again db l k (at k (pos p) next slow' (fast + 1)) reads going r
          (ap ota_calc_progress e ∙ step) refl (ground arith) small in
      (slow', l', run, (calc, r'), le)

  go_round :
      (k p slow : ℕ) (next : ℤ) (db : props.Db) (l : Loop lv)
      → Climbing k p next slow 2 l
      → Reads props (pos p) next db
      → k < p
      → k + 1 < 100
      → (l' : Loop lv) × (round props lv use_arc sync_time false db l ≡ some (again l'))
        × Climbing (k + 1) p next 0 0 l'
  go_round k p slow next db l (e, r) h hk small =
      let (reads, going) = Reads-at k p slow 2 next db l e h in
      let (l', run, calc, r') =
        round_again db l (k + 1) (at (k + 1) (pos p) next 0 0) reads going r
          (ap ota_calc_progress e ∙ fast_go k p slow 2 next hk (omega arith)) refl (ground arith)
          small in
      (l', run, (calc, r'))

  last_round :
      (p slow : ℕ) (next : ℤ) (db : props.Db) (l : Loop lv)
      → Climbing 99 p next slow 2 l
      → Reads props (pos p) next db
      → 99 < p
      → (l' : Loop lv) × (round props lv use_arc sync_time false db l ≡ some (leave l'))
        × (l'.calc ≡ at 100 (pos p) next 0 0)
  last_round p slow next db l (e, r) h hk =
      let (reads, going) = Reads-at 99 p slow 2 next db l e h in
      let step : ota_calc_progress l.calc ≡ at 100 (pos p) next 0 0 =
        ap ota_calc_progress e ∙ fast_go 99 p slow 2 next hk (omega arith) in
      let (l1, start, moved, r1) =
        round_start db l 100 reads going r (ap (λ (x : Calc). x.progress.current) step)
          (omega arith) in
      let calc1 : l1.calc ≡ at 100 (pos p) next 0 0 = moved ∙ step in
      let (l2, last, same) = end_leave l1 (ap (λ (x : Calc). x.progress.current) calc1) in
      (l2, start ∙ ap some last, same ∙ calc1)

  -- Two rounds that only count.
  two_waits :
      (k p slow : ℕ) (next : ℤ) (a b : props.Db) (rest : List props.Db) (l : Loop lv)
      → Climbing k p next slow 0 l
      → slow ≤ 97
      → k < p
      → k < 100
      → Reads props (pos p) next a
      → Reads props (pos p) next b
      → (slow' : ℕ) × (l' : Loop lv) × (rounds props lv use_arc sync_time false (a ∷ b ∷ rest) l
          ≡ rounds props lv use_arc sync_time false rest l')
        × Climbing k p next slow' 2 l'
  unfolding rounds
  two_waits k p slow next a b rest l c hs hk small ha hb =
      let (s1, l1, run1, c1, le1) =
        wait_round k p slow 0 next a l c ha hk small (omega arith) (omega arith) in
      let (s2, l2, run2, c2, le2) =
        wait_round k p s1 1 next b l1 c1 hb hk small (omega arith) (omega arith) in
      (s2, l2, rw (run1, run2), c2)

  -- The upgrade is at `p`, 100 or more, with `next` behind it, and every round finds these numbers
  -- in the database; the pages and the widget are there, and the number `k` below 100 is freshly
  -- moved. Then the loop ends without a fault within 3 rounds for each step from `k` to 100, and the
  -- number is 100.
  pub completes :
      (n k p slow : ℕ) (next : ℤ) (dbs : List props.Db) (l : Loop lv)
      → l.calc ≡ at k (pos p) next slow 0
      → Ready l.ui
      → slow ≤ 97
      → 100 ≤ p
      → k + suc n ≡ 100
      → length dbs ≡ 3 * suc n
      → All (Reads props (pos p) next) dbs
      → (l' : Loop lv) × (rounds props lv use_arc sync_time false dbs l ≡ some (leave l'))
        × (l'.calc.progress.current ≡ pos 100)
  completes n k p slow next [] l e r hs hp hn len all = absurd (omega arith)
  completes n k p slow next (a ∷ []) l e r hs hp hn len all = absurd (omega arith)
  completes n k p slow next (a ∷ b ∷ []) l e r hs hp hn len all = absurd (omega arith)
  completes zero k p slow next (a ∷ b ∷ c ∷ rest) l e r hs hp hn len all =
      let k99 : k ≡ 99 = omega arith in
      let (s2, l2, run, waited) =
        two_waits k p slow next a b (c ∷ rest) l (e, r) hs (omega arith) (omega arith) all.0
          all.1.0 in
      let (l3, last, calc) =
        last_round p s2 next c l2 (subst (λ i. Climbing i p next s2 2 l2) k99 waited) all.1.1.0
          (omega arith) in
      (l3, run ∙ (unfold rounds in rw last), ap (λ (x : Calc). x.progress.current) calc)
  completes (suc n) k p slow next (a ∷ b ∷ c ∷ rest) l e r hs hp hn len all =
      let (s2, l2, run, waited) =
        two_waits k p slow next a b (c ∷ rest) l (e, r) hs (omega arith) (omega arith) all.0
          all.1.0 in
      let (l3, step, climbed) =
        go_round k p s2 next c l2 waited all.1.1.0 (omega arith) (omega arith) in
      let (l4, done, at_end) =
        completes n (k + 1) p 0 next rest l3 climbed.0 climbed.1 (omega arith) hp (omega arith)
          (omega arith) all.1.1.1 in
      (l4, run ∙ after_go c rest l2 l3 step ∙ done, at_end)
    where
      after_go :
          (c : props.Db) (rest : List props.Db) (l2 l3 : Loop lv)
          → round props lv use_arc sync_time false c l2 ≡ some (again l3)
          → rounds props lv use_arc sync_time false (c ∷ rest) l2
            ≡ rounds props lv use_arc sync_time false rest l3
      after_go c rest l2 l3 step = unfold rounds in rw step
