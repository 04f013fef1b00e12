-- ===== src/Widget/Images.antt =====
-- The image array of ui/extra/lv_upgrade.c: `lv_upgrade_set_image_array_size` and
-- `lv_upgrade_set_image_data`.
pub mod Bounds
pub mod Fill
use frameworks_system_ota.Prelude.{
  ℕ, zero, suc, ◌+◌, ◌-◌, ◌%◌, ◌≤◌, ◌≡◌, Bool, true, false, ◌&&◌, ◌||◌, Option, none, some, List,
  [], ◌∷◌, ltb, leb, if◌then◌else◌, length, get_elem?, set, ◌>>=◌,
}
use frameworks_system_ota.Prelude.Int.{ℤ, pos, negsuc, leb_ℤ}
use frameworks_system_ota.Widget.Data.{
  UpgradeType, num, bar, circle, anim, custom_anim, invalid, Image, ImageData, Upgrade,
}

-- `n` null pointers.
unfoldable pub null_cells : ℕ → List (Option ImageData)
null_cells zero = []
null_cells (suc n) = none ∷ null_cells n

-- `image_array_size` is a `uint8_t`; the array has `size` cells.
unfoldable pub lv_upgrade_set_image_array_size : ℤ → Upgrade → Upgrade
unfolding null_cells
lv_upgrade_set_image_array_size (negsuc k) u = u
lv_upgrade_set_image_array_size (pos size) u =
    if ltb 0 u.image_array_size || leb size 0
    then u
    else record u { image_array_size = size % 256; image_array = some (null_cells size) }

-- The first null cell from index `i` on, over the `n` cells left: the loop in
-- `lv_upgrade_set_image_data`. `none` reads outside the array.
unfoldable pub first_null : ℕ → ℕ → List (Option ImageData) → Option ℕ
first_null zero i cells = some i
first_null (suc n) i cells =
    let rest = first_null n (i + 1) cells in
    elim (get_elem? cells i) [ none ↦ none | some none ↦ some i | some (some d) ↦ rest ]

abbrev pub is_num : UpgradeType → Bool
is_num num = true
is_num _ = false

-- A null array has no cells.
abbrev pub cells_of : Upgrade → List (Option ImageData)
cells_of u = elim u.image_array [ none ↦ [] | some cells ↦ cells ]

-- The index that `lv_upgrade_set_image_data` looks at.
unfoldable pub image_index : ℤ → Upgrade → Option ℤ
unfolding first_null
image_index key u =
    if is_num u.type
    then some key
    else do i ← first_null u.image_array_size 0 (cells_of u); some (pos i)

-- A write to a cell; `none` is a write outside the array.
unfoldable pub put_image : ℤ → ImageData → Upgrade → Option Upgrade
put_image (negsuc k) d u = none
put_image (pos i) d u =
    if ltb i (length (cells_of u))
    then some (record u { image_array = some (set (cells_of u) i (some d)) })
    else none

-- The image is what `get_image_data_from_file` makes of the file. `none` is undefined behaviour.
unfoldable pub lv_upgrade_set_image_data : ℤ → Image → Upgrade → Option Upgrade
unfolding image_index put_image
lv_upgrade_set_image_data key image u = do
  i ← image_index key u
  if leb_ℤ (pos u.image_array_size) i
      then some u
      else put_image i (record { key = key; image = image }) u
