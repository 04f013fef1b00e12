-- ===== src/Widget/Layout/Faults.antt =====
-- The layout of ui/extra/lv_upgrade.c and its reads of the image array.
use frameworks_system_ota.Prelude.{
  ℕ, zero, suc, ◌+◌, ◌≤◌, ◌<◌, ◌≡◌, ◌≢◌, refl, Bool, Option, none, some, List, [], ◌∷◌, arith,
  length, get_elem?, get_elem?-of_lt, leb, Bool-cases, inl, inr,
}
use frameworks_system_ota.Prelude.Int.{ℤ, pos, negsuc}
use frameworks_system_ota.Widget.Data.{
  ImageData, Upgrade, UpgradeType, num, bar, circle, anim, custom_anim, invalid,
}
use frameworks_system_ota.Widget.Images.{cells_of}
use frameworks_system_ota.Widget.Images.Bounds.{IsSized}
use frameworks_system_ota.Widget.Closest.{distance}
use frameworks_system_ota.Widget.Closest.Best.{HasKeys, chosen, lv_get_closest_element_index_lem}
use frameworks_system_ota.Widget.Layout.{
  Area, empty_area, image_of, number_loop, lv_calc_objs_size, larger_area, anim_loop,
  lv_calc_bar_mode_size, size_of_type,
}

number_loop_total :
    (digits : List ℤ) (u : Upgrade) (area : Area)
    → IsSized u
    → (area' : Area) × (number_loop digits u area ≡ some area')
unfolding number_loop
number_loop_total [] u area h = (area, refl)
number_loop_total (negsuc k ∷ digits) u area h = (area, refl)
number_loop_total (pos d ∷ digits) u area h = elim (Bool-cases (leb u.image_array_size d)) [
  | inl none_left ↦ (area, rw none_left)
  | inr there ↦
      let (cell, e) = get_elem?-of_lt (cells_of u) d (ground arith) in
      let (area', e') = number_loop_total digits u (lv_calc_objs_size (image_of cell) area) h in
      (area', rw (there, e) e')
]

anim_loop_total :
    (n i : ℕ) (cells : List (Option ImageData)) (area : Area)
    → i + n ≤ length cells
    → (area' : Area) × (anim_loop n i cells area ≡ some area')
unfolding anim_loop
anim_loop_total zero i cells area h = (area, refl)
anim_loop_total (suc n) i cells area h =
    let (cell, e) = get_elem?-of_lt cells i (omega arith) in
    let (area', e') =
      anim_loop_total n (i + 1) cells (larger_area (image_of cell) area) (omega arith) in
    (area', rw e e')

-- In bar mode the image that is looked up is one of the array, if it has two images or more.
bar_size_total :
    (value : ℕ) (u : Upgrade) (key : ℕ → ℤ) (area : Area)
    → IsSized u
    → HasKeys u key
    → 2 ≤ u.image_array_size
    → u.image_array_size < 256
    → (area' : Area) × (lv_calc_bar_mode_size value u area ≡ some area')
unfolding lv_calc_bar_mode_size
bar_size_total value u key area h keys two small =
    let (t, best, e) = lv_get_closest_element_index_lem u key keys value small in
    let (cell, at) =
      get_elem?-of_lt (cells_of u) (chosen u.image_array_size (distance value (key t)) t)
        (ground (arith, best.below)) in
    (lv_calc_objs_size (image_of cell) area, rw (e, at))

-- The layout never reads outside the image array, where the array is as long as the widget says,
-- and, in bar mode only, has 2 to 255 cells with an image each.
pub size_of_type_total :
    (use_arc : Bool) (type : UpgradeType) (value : ℕ) (u : Upgrade) (key : ℕ → ℤ)
    → IsSized u
    → (type ≡ bar → HasKeys u key × (2 ≤ u.image_array_size) × (u.image_array_size < 256))
    → (area : Area) × (size_of_type use_arc type value u ≡ some area)
unfolding size_of_type
size_of_type_total use_arc num value u key h k =
    number_loop_total u.shown.progress u (lv_calc_objs_size u.image_percent_sign empty_area) h
size_of_type_total use_arc bar value u key h k =
    let (keys, two, small) = k refl in bar_size_total value u key empty_area h keys two small
size_of_type_total use_arc circle value u key h k =
    anim_loop_total u.image_array_size 0 (cells_of u) empty_area (omega arith)
size_of_type_total use_arc anim value u key h k =
    anim_loop_total u.image_array_size 0 (cells_of u) empty_area (omega arith)
size_of_type_total use_arc custom_anim value u key h k = (_, refl)
size_of_type_total use_arc invalid value u key h k = (empty_area, refl)

get_elem?-of_le {ℓ} : {A : Type ℓ} (xs : List A) (i : ℕ) → length xs ≤ i → get_elem? xs i ≡ none
get_elem?-of_le [] i h = refl
get_elem?-of_le (x ∷ xs) zero h = absurd (omega arith)
get_elem?-of_le (x ∷ xs) (suc i) h = get_elem?-of_le xs i (omega arith)

-- In bar mode, with a single image whose key is not the value, the layout reads outside the image
-- array: of a list of one image it takes the one before.
pub single_bar_image_faults :
    (use_arc : Bool) (value : ℕ) (u : Upgrade) (key : ℕ → ℤ)
    → HasKeys u key
    → u.image_array_size ≡ 1
    → length (cells_of u) ≡ 1
    → distance value (key 0) ≢ 0
    → size_of_type use_arc bar value u ≡ none
unfolding size_of_type lv_calc_bar_mode_size
single_bar_image_faults use_arc value u key keys one cells other =
    let (t, best, e) = lv_get_closest_element_index_lem u key keys value (omega arith) in
    let first : t ≡ 0 = omega (arith, best.below) in
    let outside : get_elem? (cells_of u) (chosen u.image_array_size (distance value (key t)) t)
        ≡ none =
      get_elem?-of_le (cells_of u) _ (ground (arith, other)) in
    rw (e, outside)
