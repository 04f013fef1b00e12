-- ===== src/Widget/Closest.antt =====
-- `lv_get_closest_element_index` of ui/extra/lv_upgrade.c: the bar image for a progress value.
pub mod Best
use frameworks_system_ota.Prelude.{
  ℕ, zero, suc, ◌+◌, ◌-◌, ◌%◌, ◌^◌, Bool, true, false, not, ◌&&◌, Option, none, some, List, ltb,
  leb, ◌==◌, if◌then◌else◌, get_elem?, ◌>>=◌,
}
use frameworks_system_ota.Prelude.Int.{ℤ, pos, negsuc}
use frameworks_system_ota.Widget.Data.{ImageData, Upgrade}
use frameworks_system_ota.Widget.Images.{cells_of}

-- The `uint32_t` that an `int` becomes.
unfoldable pub uint32_of : ℤ → ℕ
uint32_of (pos n) = n % 2 ^ 32
uint32_of (negsuc n) = 2 ^ 32 - 1 - n % 2 ^ 32

-- `abs` of the `int` with these 32 bits.
unfoldable pub abs32 : ℕ → ℕ
abs32 w = if ltb w (2 ^ 31) then w else 2 ^ 32 - w

-- `abs(value - key)`, where the difference is one of `uint32_t`.
unfoldable pub distance : ℕ → ℤ → ℕ
unfolding uint32_of abs32
distance value key = abs32 ((value + 2 ^ 32 - uint32_of key) % 2 ^ 32)

-- `upgrade->image_array[i]->key`; `none` is a read outside the array or through a null pointer.
unfoldable pub key_at : List (Option ImageData) → ℕ → Option ℤ
key_at cells i = do cell ← get_elem? cells i; image ← cell; some image.key

-- The loop from index `i` on, over the `n` cells left: the smallest difference, and its index.
unfoldable pub closest_loop : ℕ → ℕ → List (Option ImageData) → ℕ → ℕ → ℕ → Option (ℕ × ℕ)
closest_loop zero i cells value min_diff target_index = some (min_diff, target_index)
closest_loop (suc n) i cells value min_diff target_index = do
  key ← key_at cells i
  let closer = ltb (distance value key) min_diff
  closest_loop n (i + 1) cells value (if closer then distance value key else min_diff)
      (if closer then i else target_index)

-- The last image is only for its own key. The result is a `uint8_t`.
unfoldable pub below_last : ℕ → ℕ → ℕ → ℕ
below_last size min_diff target_index =
    if not (min_diff == 0) && (target_index + 1 == size)
    then (target_index + 255) % 256
    else target_index % 256

unfoldable pub lv_get_closest_element_index : Upgrade → ℕ → Option ℕ
unfolding key_at closest_loop below_last
lv_get_closest_element_index u value = do
  key ← key_at (cells_of u) 0
  (min_diff, target_index) ←
      closest_loop (u.image_array_size - 1) 1 (cells_of u) value (distance value key) 0
  some (below_last u.image_array_size min_diff target_index)
