-- ===== src/Ota/Progress.antt =====
-- `ota_calc_progress` of ui/ui_ota.c: the number on the screen follows the upgrade's.
pub mod Bounds
pub mod Pace
use frameworks_system_ota.Prelude.{
  ℕ, ◌+◌, ◌%◌, ◌^◌, Bool, true, false, ◌&&◌, ltb, leb, if◌then◌else◌,
}
use frameworks_system_ota.Prelude.Int.{ℤ, pos, ltb_ℤ, leb_ℤ, succ_ℤ}

-- `upgrade_progress_t`
pub record UpgradeProgress : Type 0 where
  pub current : ℤ
  pub prev_node : ℤ
  pub next_node : ℤ

-- The argument of `ota_calc_progress`, and its two static counters.
pub record Calc : Type 0 where
  pub progress : UpgradeProgress
  pub slow_tick_count : ℕ
  pub fast_tick_count : ℕ

-- `n++` on `uint32_t`
abbrev pub inc32 : ℕ → ℕ
inc32 n = (n + 1) % 2 ^ 32

-- `progress->current++; slow_tick_count = fast_tick_count = 0;`
unfoldable pub advance : UpgradeProgress → Calc
advance p = record {
  progress = record p { current = succ_ℤ p.current };
  slow_tick_count = 0;
  fast_tick_count = 0;
}

-- The two branches that move the number. `fast_tick_count++` runs only where the number is behind
-- `prev_node`, and `slow_tick_count++` only on the `else` path and behind `next_node`.
unfoldable pub move : Calc → Calc
unfolding advance
move c =
    let p = c.progress in
    let behind = ltb_ℤ p.current p.prev_node in
    let ahead = ltb_ℤ p.current p.next_node in
    let fast = if behind then inc32 c.fast_tick_count else c.fast_tick_count in
    let slow = if ahead then inc32 c.slow_tick_count else c.slow_tick_count in
    if behind && leb 2 c.fast_tick_count
    then advance p
    else if ahead && leb 100 c.slow_tick_count
    then advance p
    else record c { slow_tick_count = slow; fast_tick_count = fast }

-- 100 is not shown before the upgrade is there.
unfoldable pub hold_back : UpgradeProgress → UpgradeProgress
hold_back p =
    if leb_ℤ (pos 100) p.current && ltb_ℤ p.prev_node (pos 100)
    then record p { current = pos 99 }
    else p

unfoldable pub ota_calc_progress : Calc → Calc
unfolding move hold_back
ota_calc_progress c = let c' = move c in record c' { progress = hold_back c'.progress }
