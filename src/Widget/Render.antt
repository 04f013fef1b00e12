-- ===== src/Widget/Render.antt =====
-- The drawing of ui/extra/lv_upgrade.c: the areas, the calls that draw in each mode, and the events.
-- `none` is undefined behaviour.
pub mod Digits
pub mod Events
use frameworks_system_ota.Prelude.{
  ℕ, zero, suc, ◌+◌, ◌-◌, ◌*◌, ◌/◌, ◌%◌, ◌^◌, max, Bool, true, false, ◌&&◌, ◌||◌, Option, none,
  some, List, [], ◌∷◌, ltb, leb, ◌==◌, if◌then◌else◌, ◌>>=◌, get_elem?,
}
use frameworks_system_ota.Prelude.Int.{ℤ, pos, negsuc, sub_ℕ}
use frameworks_system_ota.Widget.Value.{int32_of, lv_upgrade_get_value}
use frameworks_system_ota.Widget.Data.{
  UpgradeType, num, bar, circle, anim, custom_anim, invalid, Image, ImageData, Upgrade,
}
use frameworks_system_ota.Widget.Images.{cells_of}
use frameworks_system_ota.Widget.Closest.{uint32_of, lv_get_closest_element_index}
use frameworks_system_ota.Widget.Layout.{image_of}
use frameworks_system_ota.Widget.Anim.{anim_time}

-- A number and a natural number, without overflow.
abbrev pub minus : ℤ → ℕ → ℤ
minus (pos a) n = sub_ℕ a n
minus (negsuc k) n = negsuc (k + n)

abbrev pub plus : ℤ → ℕ → ℤ
plus (pos a) n = pos (a + n)
plus (negsuc k) n = sub_ℕ n (k + 1)

-- `lv_area_t`
pub record Coords : Type 0 where
  pub x1 : ℤ
  pub y1 : ℤ
  pub x2 : ℤ
  pub y2 : ℤ

abbrev pub no_coords : Coords
no_coords = record { x1 = pos 0; y1 = pos 0; x2 = pos 0; y2 = pos 0 }

-- The difference of two coordinates as a `uint32_t`.
unfoldable pub height_of : Coords → ℕ
unfolding uint32_of
height_of c = (uint32_of c.y2 + 2 ^ 32 - uint32_of c.y1) % 2 ^ 32

-- `LV_MAX(tmp_height - 1, coords->y1 + header.h - 1)`, where the comparison and the result are of
-- `uint32_t`.
unfoldable pub bottom_of : ℕ → ℤ → Image → ℤ
unfolding uint32_of int32_of
bottom_of tmp_height y1 image =
    int32_of (max ((tmp_height + 2 ^ 32 - 1) % 2 ^ 32) (uint32_of (minus (plus y1 image.h) 1)))

-- The area of an image, and what `coords` is afterwards.
unfoldable pub lv_calc_draw_area : Option Image → Coords → Coords × Coords
unfolding height_of bottom_of
lv_calc_draw_area none c = (no_coords, c)
lv_calc_draw_area (some image) c =
    let area : Coords = record {
      x1 = minus c.x2 image.w;
      y1 = minus c.y1 1;
      x2 = minus c.x2 1;
      y2 = bottom_of (height_of c) (minus c.y1 1) image;
    } in
    (area, record area { x2 = area.x1 })

-- A call of `lv_draw_image`, with the source in its descriptor, or of `lv_draw_rect`.
pub data Draw : Type 0 where
  draw_image : Option Image → Coords → Draw
  draw_rect : Coords → Draw

-- A null cell draws nothing.
abbrev pub drawn : Option Image → Draw → List Draw → List Draw
drawn none draw rest = rest
drawn (some image) draw rest = draw ∷ rest

-- The loop of `lv_render_number_mode_content` over the digits.
unfoldable pub draw_digits : Option Image → List ℤ → Upgrade → Coords → Option (List Draw)
unfolding lv_calc_draw_area
draw_digits src [] u c = some []
draw_digits src (negsuc k ∷ digits) u c = some []
draw_digits src (pos d ∷ digits) u c =
    let rest = λ (cell : Option ImageData).
      let area = lv_calc_draw_area (image_of cell) c in
      (draw_digits src digits u area.1 >>= λ draws.
      some (drawn (image_of cell) (draw_image src area.0) draws)) in
    if leb u.image_array_size d then some [] else (get_elem? (cells_of u) d >>= rest)

-- `src` is the source that the widget's descriptor has.
unfoldable pub lv_render_number_mode_content : Option Image → Upgrade → Coords → Option (List Draw)
unfolding draw_digits
lv_render_number_mode_content src u coords =
    let area = lv_calc_draw_area u.image_percent_sign coords in
    do draws ← draw_digits src u.shown.progress u area.1; some (draw_image src area.0 ∷ draws)

-- The time and the last value of an animation.
pub record Anim : Type 0 where
  pub time : ℕ
  pub last : ℕ

-- What a draw event finds and leaves: the source and the angle in the descriptor, the pivot, the
-- static `rotation`, the frame, and the running animation.
pub record Painter : Type 0 where
  pub src : Option Image
  pub angle : ℕ
  pub pivot : ℤ × ℤ
  pub rotation : ℕ
  pub anim_data : Option Image
  pub running : Option Anim

-- LVGL's `lv_area_align`, and the task's area.
unfoldable pub lv_render_bar_mode_content :
    (Coords → Coords → Coords) → Coords → Painter → Upgrade → Coords → Option (List Draw × Painter)
unfolding lv_calc_draw_area
lv_render_bar_mode_content align task p u coords = do
  target_index ← lv_get_closest_element_index u (lv_upgrade_get_value u.shown)
  cell ← get_elem? (cells_of u) target_index
  let area = align task (lv_calc_draw_area (image_of cell) coords).0
  some (elim (image_of cell) [
    | none ↦ ([], p)
    | some image ↦
        (draw_rect area ∷ draw_image (some image) area ∷ [], record p { src = some image })
  ])

-- The first event only starts the animation.
unfoldable pub lv_render_anim_mode_content :
    Painter → Upgrade → Coords → Option (List Draw × Painter)
unfolding lv_calc_draw_area anim_time
lv_render_anim_mode_content p u coords = elim p.running [
  | none ↦ do
    time ← anim_time u
    some ([], record p { running = some (record { time = time; last = u.image_array_size }) })
  | some a ↦ some (draw_image p.src (lv_calc_draw_area p.anim_data coords).0 ∷ [], p)
]

-- With LVGL's arc widget.
unfoldable pub lv_render_custom_anim_content : Bool → Painter → Painter
lv_render_custom_anim_content false p = p
lv_render_custom_anim_content true p = elim p.running [
  | none ↦ record p { running = some (record { time = 1500; last = 1080 }) }
  | some a ↦ p
]

-- `(b - a) / 2`, which rounds towards 0.
abbrev pub half : ℤ → ℤ
half (pos n) = pos (n / 2)
half (negsuc k) = if k == 0 then pos 0 else negsuc ((k + 1) / 2 - 1)

abbrev pub half_between : ℤ → ℤ → ℤ
half_between (pos a) b = half (minus b a)
half_between (negsuc k) b = half (plus b (k + 1))

-- `rotation += 360 / anim_fps`, on `int`.
unfoldable pub turn : Upgrade → Painter → Option Painter
turn u p =
    let next = p.rotation + 360 / u.anim_fps in
    if u.anim_fps == 0 || leb (2 ^ 31) next then none else some (record p { rotation = next })

-- The `switch` of `lv_upgrade_event`, for a task that was added.
unfoldable pub draw_event :
    Bool
    → (Coords → Coords → Coords)
    → Coords
    → UpgradeType
    → Painter
    → Upgrade
    → Coords
    → Option (List Draw × Painter)
unfolding lv_render_number_mode_content lv_render_bar_mode_content lv_render_anim_mode_content
    lv_render_custom_anim_content turn
draw_event use_arc align task num p u c = do
  draws ← lv_render_number_mode_content p.src u c
  some (draws, p)
draw_event use_arc align task bar p u c = lv_render_bar_mode_content align task p u c
draw_event use_arc align task circle p u c = do
  let placed = record p {
    angle = p.rotation;
    pivot = (half_between c.x1 c.x2, half_between c.y1 c.y2);
  }
  (draws, p') ← lv_render_anim_mode_content placed u c
  p'' ← turn u p'
  some (draws, p'')
draw_event use_arc align task anim p u c = lv_render_anim_mode_content p u c
draw_event use_arc align task custom_anim p u c = some ([], lv_render_custom_anim_content use_arc p)
draw_event use_arc align task invalid p u c = some ([], p)

-- What `lv_obj_event_base` returned is LV_RES_OK, the event is LV_EVENT_DRAW_TASK_ADDED, and it has a
-- task and a target.
unfoldable pub lv_upgrade_event :
    Bool
    → Bool
    → Bool
    → Bool
    → (Coords → Coords → Coords)
    → Coords
    → Painter
    → Upgrade
    → Coords
    → Option (List Draw × Painter)
unfolding draw_event
lv_upgrade_event ok added complete use_arc align task p u c =
    if ok && added && complete then draw_event use_arc align task u.type p u c else some ([], p)
