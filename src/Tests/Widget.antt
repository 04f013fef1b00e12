-- ===== src/Tests/Widget.antt =====
-- ui/extra/lv_upgrade.c on widgets with a few images.
use frameworks_system_ota.Prelude.{
  ℕ, zero, suc, ◌*◌, ◌<◌, ◌≡◌, refl, true, none, some, List, [], ◌∷◌, map, length, arith, get_elem?,
  ◌>>=◌,
}
use frameworks_system_ota.Prelude.Int.{ℤ, pos}
use frameworks_system_ota.Widget.Data.{Image, ImageData, Upgrade, bar, lv_upgrade_constructor}
use frameworks_system_ota.Widget.Images.{lv_upgrade_set_image_array_size}
use frameworks_system_ota.Widget.Images.Bounds.{IsSized, constructor-IsSized}
use frameworks_system_ota.Widget.Images.Fill.{set_images, set_all_images}
use frameworks_system_ota.Widget.Closest.{distance, lv_get_closest_element_index, key_at}
use frameworks_system_ota.Widget.Closest.Best.{
  HasKeys, IsClosest, chosen, lv_get_closest_element_index_lem,
}
use frameworks_system_ota.Widget.Layout.{Area, size_of_type}
use frameworks_system_ota.Ui.Code.{Code, is_success}
use frameworks_system_ota.Ui.Config.{ProgressItems, parse_progress}
use frameworks_system_ota.Ui.Config.Images.{accepts, parse_progress_total}
use frameworks_system_ota.Widget.Anim.{lv_index_change}
use frameworks_system_ota.Widget.Anim.Frames.{frames_lem}
use frameworks_system_ota.Widget.Layout.Faults.{size_of_type_total, single_bar_image_faults}

abbrev pub picture : Image
picture = record { w = 10; h = 20 }

-- The images of a bar for 0, 50 and 100.
abbrev pub bars : List ImageData
bars =
    record { key = pos 0; image = picture }
    ∷ record { key = pos 50; image = picture }
    ∷ record { key = pos 100; image = picture }
    ∷ []

abbrev pub bar_of : List ImageData → Upgrade
bar_of ds = record lv_upgrade_constructor {
  type = bar;
  image_array_size = length ds;
  image_array = some (map some ds);
}

abbrev no_images : Upgrade
no_images = record lv_upgrade_constructor { type = bar }

set_all_images_example :
    set_images bars (lv_upgrade_set_image_array_size (pos 3) no_images) ≡ some (bar_of bars)
unfolding lv_upgrade_constructor
set_all_images_example = set_all_images no_images bars refl (omega arith) (omega arith) (λ h. cc)

abbrev pub key : ℕ → ℤ
key i = pos (i * 50)

keys_at : (i : ℕ) → i < 3 → key_at (map some bars) i ≡ some (key i)
unfolding key_at
keys_at zero h = refl
keys_at (suc zero) h = refl
keys_at (suc (suc zero)) h = refl
keys_at (suc (suc (suc i))) h = absurd (omega arith)

pub bars-HasKeys : HasKeys (bar_of bars) key
bars-HasKeys = record { some_image = omega arith; at = keys_at }

lv_get_closest_element_index_lem_example :
    (t : ℕ) × IsClosest key 90 3 t
    × (lv_get_closest_element_index (bar_of bars) 90 ≡ some (chosen 3 (distance 90 (key t)) t))
lv_get_closest_element_index_lem_example =
    lv_get_closest_element_index_lem (bar_of bars) key bars-HasKeys 90 (omega arith)

-- 90 is closest to 100, and is shown as 50.
bar_of_90 : lv_get_closest_element_index (bar_of bars) 90 ≡ some 1
unfolding lv_get_closest_element_index distance
bar_of_90 = refl

size_of_type_total_example : (area : Area) × (size_of_type true bar 90 (bar_of bars) ≡ some area)
size_of_type_total_example =
    size_of_type_total true bar 90 (bar_of bars) key (omega arith)
      (λ h. (bars-HasKeys, omega arith, omega arith))

abbrev single : List ImageData
single = record { key = pos 0; image = picture } ∷ []

single_at : (i : ℕ) → i < 1 → key_at (map some single) i ≡ some (key i)
unfolding key_at
single_at zero h = refl
single_at (suc i) h = absurd (omega arith)

single_bar_image_faults_example : size_of_type true bar 20 (bar_of single) ≡ none
unfolding distance
single_bar_image_faults_example =
    single_bar_image_faults true 20 (bar_of single) key
      (record { some_image = omega arith; at = single_at }) refl refl (omega arith)

-- Frame 7 of three images is the second image.
frames_lem_example :
    (d : ImageData) × (get_elem? bars 1 ≡ some d)
    × ((set_images bars (lv_upgrade_set_image_array_size (pos 3) no_images)
          >>= lv_index_change (pos 7))
        ≡ some (some d.image))
unfolding lv_upgrade_constructor
frames_lem_example = frames_lem no_images bars 7 refl (omega arith) (omega arith) refl

-- A bar with the three images.
abbrev bar_items : ProgressItems
bar_items = record {
  mode = some "bar";
  animation_fps = none;
  animation_radius = none;
  percentage_src = none;
  img_src_list =
      (some (pos 0), picture) ∷ (some (pos 50), picture) ∷ (some (pos 100), picture) ∷ [];
}

parse_progress_total_example :
    (code : Code) × (u' : Upgrade) × (parse_progress true 9 bar_items lv_upgrade_constructor
      ≡ some (code, u'))
    × IsSized u'
    × (is_success code ≡ accepts (some "bar") 3)
parse_progress_total_example =
    parse_progress_total true 9 bar_items lv_upgrade_constructor
      ((pos 0, refl), ((pos 50, refl), ((pos 100, refl), tt))) constructor-IsSized
