-- ===== src/Widget/Free.antt =====
-- What is freed: `lv_upgrade_destructor` of ui/extra/lv_upgrade.c, and `ui_event_handler` of
-- ui/ui_config_parse.c for the image of a label.
pub mod Once
use frameworks_system_ota.Prelude.{
  ℕ, zero, suc, ◌+◌, Bool, true, false, Option, none, some, List, [], ◌∷◌, ◌++◌, if◌then◌else◌,
  ◌>>=◌, get_elem?,
}
use frameworks_system_ota.Widget.Data.{Image, ImageData, Upgrade}
use frameworks_system_ota.Widget.Images.{cells_of}

-- The blocks that the widget owns: for the image of a cell its pixels, its descriptor and its
-- `image_data_t`; the array; and the pixels and the descriptor of the percent sign.
pub data Owned : Type 0 where
  pixels dsc info : ℕ → Owned
  array sign_pixels sign_dsc : Owned

-- `lv_image_data_free` for the image of a cell, and the `lv_free` that follows it.
unfoldable pub free_cell : ℕ → Option ImageData → List Owned
free_cell i none = []
free_cell i (some d) = pixels i ∷ dsc i ∷ info i ∷ []

-- The loop from index `i` on, over the `n` cells left; `none` is a read outside the array.
unfoldable pub free_loop : ℕ → ℕ → List (Option ImageData) → Option (List Owned)
unfolding free_cell
free_loop zero i cells = some []
free_loop (suc n) i cells = do
  cell ← get_elem? cells i
  rest ← free_loop n (i + 1) cells
  some (free_cell i cell ++ rest)

abbrev pub free_sign : Option Image → List Owned
free_sign none = []
free_sign (some image) = sign_pixels ∷ sign_dsc ∷ []

unfoldable pub free_array : Option (List (Option ImageData)) → ℕ → Option (List Owned)
unfolding free_loop
free_array none size = some []
free_array (some cells) size = do freed ← free_loop size 0 cells; some (freed ++ (array ∷ []))

-- The blocks in the order in which they are freed, and the widget.
unfoldable pub lv_upgrade_destructor : Upgrade → Option (List Owned × Upgrade)
unfolding free_array
lv_upgrade_destructor u = do
  freed ← free_array u.image_array u.image_array_size
  some (freed ++ free_sign u.image_percent_sign, record u { image_array = none })

-- `user_data` after an event: whether it is LV_EVENT_DELETE and has a target, and whether the bytes
-- were freed.
unfoldable pub ui_event_handler : Bool → Bool → Option (List ℕ) → Bool × Option (List ℕ)
ui_event_handler target deleted none = (false, none)
ui_event_handler target deleted (some bytes) =
    if target then (if deleted then (true, none) else (false, some bytes)) else (false, some bytes)
