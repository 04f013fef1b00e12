-- ===== src/Widget/Anim.antt =====
-- The animation of ui/extra/lv_upgrade.c: the image of a frame, and the time of a round. `none` is
-- undefined behaviour.
pub mod Frames
use frameworks_system_ota.Prelude.{
  ℕ, zero, suc, ◌+◌, ◌-◌, ◌*◌, ◌/◌, ◌%◌, Bool, true, false, Option, none, some, leb, ◌==◌,
  if◌then◌else◌, ◌>>=◌, get_elem?,
}
use frameworks_system_ota.Prelude.Int.{ℤ, pos, negsuc}
use frameworks_system_ota.Widget.Data.{Image, Upgrade}
use frameworks_system_ota.Widget.Images.{cells_of}
use frameworks_system_ota.Widget.Layout.{image_of}

-- `%` by a `uint8_t` on `int` rounds towards 0.
unfoldable pub rem_by : ℤ → ℕ → Option ℤ
rem_by z zero = none
rem_by (pos n) (suc m) = some (pos (n % suc m))
rem_by (negsuc n) (suc m) =
    some (if (n + 1) % suc m == 0 then pos 0 else negsuc ((n + 1) % suc m - 1))

-- The image at an index of the array, and `none` inside for an index outside or a null pointer.
unfoldable pub image_at : ℤ → Upgrade → Option (Option Image)
image_at (negsuc k) u = some none
image_at (pos i) u =
    let cell = get_elem? (cells_of u) i in
    if leb u.image_array_size i then some none else (cell >>= λ c. some (image_of c))

-- What `lv_index_change` stores in `anim_data`; `none` inside where it stores nothing.
unfoldable pub lv_index_change : ℤ → Upgrade → Option (Option Image)
unfolding rem_by image_at
lv_index_change index u = do anim_index ← rem_by index u.image_array_size; image_at anim_index u

-- The time in milliseconds that `lv_render_anim_mode_content` sets.
unfoldable pub anim_time : Upgrade → Option ℕ
anim_time u = if u.anim_fps == 0 then none else some (u.image_array_size * 1000 / u.anim_fps)

-- An `int` that is `n` or -`n`.
abbrev pub signed : Bool → ℕ → ℤ
signed true n = pos n
signed false n = if n == 0 then pos 0 else negsuc (n - 1)

-- The value and the start angle that `lv_value_change` gives the arc; `%` and `/` round towards 0.
unfoldable pub lv_value_change : ℤ → ℤ × ℤ
lv_value_change (pos n) =
    (signed true ((if leb 720 n then 721 else n) % 360), signed true (n * 2 / 3))
lv_value_change (negsuc k) = (signed false ((k + 1) % 360), signed false ((k + 1) * 2 / 3))
