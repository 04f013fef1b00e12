-- ===== src/Widget/Value.antt =====
-- The value of the widget of ui/extra/lv_upgrade.c: its decimal digits, and the byte that is kept in
-- sync with them.
pub mod Digits
pub mod Sync
use frameworks_system_ota.Prelude.{
  ℕ, zero, suc, ◌+◌, ◌-◌, ◌*◌, ◌/◌, ◌%◌, ◌^◌, Bool, true, false, ◌&&◌, not, List, [], ◌∷◌, ltb,
  ◌==◌, if◌then◌else◌,
}
use frameworks_system_ota.Prelude.Int.{ℤ, pos, negsuc}

-- The `int` and the `int8_t` that an unsigned number becomes.
unfoldable pub int32_of : ℕ → ℤ
int32_of n = let w = n % 2 ^ 32 in if ltb w (2 ^ 31) then pos w else negsuc (2 ^ 32 - 1 - w)

unfoldable pub int8_of : ℕ → ℤ
int8_of n = let w = n % 256 in if ltb w 128 then pos w else negsuc (255 - w)

-- `%` and `/` by 10 on `int` round towards 0.
unfoldable pub rem10 : ℤ → ℤ
rem10 (pos n) = pos (n % 10)
rem10 (negsuc n) = if (n + 1) % 10 == 0 then pos 0 else negsuc ((n + 1) % 10 - 1)

unfoldable pub quot10 : ℤ → ℤ
quot10 (pos n) = pos (n / 10)
quot10 (negsuc n) = if (n + 1) / 10 == 0 then pos 0 else negsuc ((n + 1) / 10 - 1)

unfoldable pub is_zero : ℤ → Bool
is_zero (pos n) = n == 0
is_zero (negsuc n) = false

-- LV_PROGRESS_DIGIT
abbrev pub digit_count : ℕ
digit_count = 3

-- `lv_memset(progress, -1, …)`, for `n` cells.
unfoldable pub blanks : ℕ → List ℤ
blanks zero = []
blanks (suc n) = negsuc 0 ∷ blanks n

-- The loop of `lv_upgrade_set_progress` over the `n` cells that are left, which were blank.
unfoldable pub write_digits : ℕ → ℤ → List ℤ
unfolding rem10 quot10 is_zero blanks
write_digits zero tmp_value = []
write_digits (suc n) tmp_value =
    let rest = write_digits n (quot10 tmp_value) in
    rem10 tmp_value ∷ (if is_zero (quot10 tmp_value) then blanks n else rest)

-- The product and the sum of `lv_upgrade_get_value` on `uint32_t`.
unfoldable pub add_digit : ℕ → ℕ → ℕ → ℕ
add_digit result digit inc_value = (result + digit * inc_value) % 2 ^ 32

-- The loop of `lv_upgrade_get_value`.
unfoldable pub sum_digits : List ℤ → ℕ → ℕ → ℕ
unfolding add_digit
sum_digits [] inc_value result = result
sum_digits (negsuc k ∷ cells) inc_value result = result
sum_digits (pos d ∷ cells) inc_value result =
    sum_digits cells (inc_value * 10 % 2 ^ 32) (add_digit result d inc_value)

-- `progress` and `value` of `lv_upgrade_t`.
pub record Shown : Type 0 where
  pub progress : List ℤ
  pub value : ℤ

-- From `lv_upgrade_constructor`.
unfoldable pub initial : Shown
unfolding blanks
initial = record { progress = blanks digit_count; value = negsuc 0 }

-- `value >= 0 && value == new`: there is nothing to do.
unfoldable pub is_shown : ℤ → ℕ → Bool
is_shown (pos n) new = n == new
is_shown (negsuc k) new = false

-- `lv_upgrade_set_progress` up to the new value: the two fields, and whether it goes on to lay out
-- and redraw.
unfoldable pub set_value : ℕ → Shown → Bool × Shown
unfolding int32_of int8_of write_digits is_shown
set_value new s =
    if is_shown s.value new
    then (false, s)
    else (true, record { progress = write_digits digit_count (int32_of new); value = int8_of new })

unfoldable pub lv_upgrade_get_value : Shown → ℕ
unfolding sum_digits
lv_upgrade_get_value s = sum_digits s.progress 1 0
