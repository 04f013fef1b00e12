-- ===== src/Widget/Value/Digits.antt =====
-- Three decimal digits written and read back.
use frameworks_system_ota.Prelude.{ℕ, ◌%◌, ◌^◌, ◌<◌, ◌≡◌, arith}
use frameworks_system_ota.Widget.Value.{write_digits, sum_digits, digit_count, int32_of}

-- What `lv_upgrade_get_value` reads from the digits that `lv_upgrade_set_progress` writes is the
-- value without its thousands.
pub sum-write :
    (n : ℕ) → n < 2 ^ 31 → sum_digits (write_digits digit_count (int32_of n)) 1 0 ≡ n % 1000
unfolding write_digits sum_digits int32_of
sum-write n h = ground arith
