-- ===== src/Ui/Config/Images.antt =====
-- The parse of a progress widget in ui/ui_config_parse.c, by its mode.
use text.Mathlib.Text.{◌==◌ as str_eq}
use text.Mathlib.TextEquality.{eq_iff}
use frameworks_system_ota.Prelude.{
  ℕ, ◌≡◌, refl, Option, none, String, Bool, true, false, not, ◌&&◌, some, length, arith, ltb,
  Bool-cases, inl, inr, All, leb, ◌||◌, subst,
}
use frameworks_system_ota.Widget.Data.{
  lv_upgrade_set_type, lv_upgrade_set_animation_fps, lv_upgrade_set_animation_radius,
  lv_upgrade_set_percent_sign_image, UpgradeType, num, bar, circle, anim, custom_anim, invalid,
  Upgrade,
}
use frameworks_system_ota.Widget.Closest.{uint32_of}
use frameworks_system_ota.Widget.Images.{is_num}
use frameworks_system_ota.Widget.Images.Bounds.{IsSized}
use frameworks_system_ota.Ui.Code.{Code, file_parse_error, file_content_invalid, is_success}
use frameworks_system_ota.Ui.Config.{
  string_2_id, progress_mode_map, parse_images, ProgressItems, when_given, set_widget, parse_mode,
  parse_given, parse_progress,
}
use frameworks_system_ota.Ui.Config.Listed.{HasKey, mode_accepts, Parsed, parse_images_total}

-- A property that the setter keeps.
when_given_lem :
    {A : Type 0} (P : Upgrade → Type 0) (o : Option A) (f : A → Upgrade → Upgrade) (u : Upgrade)
    → ((a : A) (v : Upgrade) → P v → P (f a v))
    → P u
    → P (when_given o f u)
when_given_lem P none f u keeps h = h
when_given_lem P (some a) f u keeps h = keeps a u h

-- The setters change neither the images nor, apart from the first one, the type.
abbrev IsLike : UpgradeType → Upgrade → Upgrade → Type 0
IsLike mode_type u v =
    (v.type ≡ mode_type)
    × (v.image_array_size ≡ u.image_array_size)
    × (v.image_array ≡ u.image_array)

set_type_lem :
    (use_arc : Bool) (new_arc : ℕ) (mode_type : UpgradeType) (u : Upgrade)
    → IsLike mode_type u (lv_upgrade_set_type use_arc new_arc mode_type u)
unfolding lv_upgrade_set_type
set_type_lem use_arc new_arc mode_type u = ground arith

set_radius_lem :
    (use_arc : Bool) (radius : ℕ) (mode_type : UpgradeType) (u v : Upgrade)
    → IsLike mode_type u v
    → IsLike mode_type u (lv_upgrade_set_animation_radius use_arc radius v)
unfolding lv_upgrade_set_animation_radius
set_radius_lem true radius mode_type u v h = h
set_radius_lem false radius mode_type u v h = h

set_widget_lem :
    (use_arc : Bool) (new_arc : ℕ) (mode_type : UpgradeType) (items : ProgressItems) (u : Upgrade)
    → IsLike mode_type u (set_widget use_arc new_arc mode_type items u)
unfolding set_widget lv_upgrade_set_animation_fps lv_upgrade_set_percent_sign_image
set_widget_lem use_arc new_arc mode_type items u =
    when_given_lem (IsLike mode_type u) items.percentage_src lv_upgrade_set_percent_sign_image _
      (λ image v h. h)
      (when_given_lem (IsLike mode_type u) items.animation_radius
        (λ n. lv_upgrade_set_animation_radius use_arc (uint32_of n)) _
        (λ n v h. set_radius_lem use_arc (uint32_of n) mode_type u v h)
        (when_given_lem (IsLike mode_type u) items.animation_fps
          (λ n. lv_upgrade_set_animation_fps (uint32_of n)) _ (λ n v h. h)
          (set_type_lem use_arc new_arc mode_type u)))

IsLike-IsSized :
    (mode_type : UpgradeType) (u v : Upgrade) → IsLike mode_type u v → IsSized u → IsSized v
IsLike-IsSized mode_type u v (t, n, cells) h = rw (n, cells) h

parse_set :
    (use_arc : Bool) (new_arc : ℕ) (mode_type : UpgradeType) (items : ProgressItems) (u : Upgrade)
    → All HasKey items.img_src_list
    → IsSized u
    → Parsed
        (not (is_num mode_type && ltb (length items.img_src_list) 10))
        (parse_images mode_type items.img_src_list (set_widget use_arc new_arc mode_type items u))
parse_set use_arc new_arc mode_type items u ks h =
    parse_images_total mode_type items.img_src_list (set_widget use_arc new_arc mode_type items u)
      ks
      (IsLike-IsSized mode_type u (set_widget use_arc new_arc mode_type items u)
        (set_widget_lem use_arc new_arc mode_type items u) h)
      (set_widget_lem use_arc new_arc mode_type items u).0

refused :
    {result : Option (Code × Upgrade)} (code : Code) (u : Upgrade)
    → result ≡ some (code, u)
    → is_success code ≡ false
    → IsSized u
    → Parsed false result
refused code u e f h = record { code = code; widget = u; eq = e; sized = h; accepted = f }

parse_mode_total :
    (use_arc : Bool) (new_arc : ℕ) (mode_type : UpgradeType) (items : ProgressItems) (u : Upgrade)
    → All HasKey items.img_src_list
    → IsSized u
    → Parsed
        (mode_accepts mode_type (length items.img_src_list))
        (parse_mode use_arc new_arc mode_type items u)
unfolding parse_mode
parse_mode_total use_arc new_arc invalid items u ks h = refused file_content_invalid u refl refl h
parse_mode_total use_arc new_arc num items u ks h =
    subst (λ b. Parsed b (parse_mode use_arc new_arc num items u)) (ground arith)
      (parse_set use_arc new_arc num items u ks h)
parse_mode_total use_arc new_arc bar items u ks h = parse_set use_arc new_arc bar items u ks h
parse_mode_total use_arc new_arc circle items u ks h = parse_set use_arc new_arc circle items u ks h
parse_mode_total use_arc new_arc anim items u ks h = parse_set use_arc new_arc anim items u ks h
parse_mode_total use_arc new_arc custom_anim items u ks h =
    parse_set use_arc new_arc custom_anim items u ks h

-- The modes, each by its name; the digits of a number need ten images.
abbrev pub accepts : Option String → ℕ → Bool
accepts none n = false
accepts (some mode) n =
    (str_eq "number" mode && leb 10 n)
    || str_eq "bar" mode
    || str_eq "circle" mode
    || str_eq "animation" mode
    || str_eq "custom_anim" mode

number-accepts :
    (mode : String) (n : ℕ) → str_eq "number" mode ≡ true → accepts (some mode) n ≡ leb 10 n
number-accepts mode n e =
    subst (λ m. accepts (some m) n ≡ leb 10 n) ((eq_iff "number" mode).0 e) (ground arith)

mode-accepts :
    (mode : String) (n : ℕ)
    → mode_accepts (string_2_id mode progress_mode_map invalid) n ≡ accepts (some mode) n
unfolding string_2_id
mode-accepts mode n = elim (Bool-cases (str_eq "number" mode)) [
  | inl number ↦ rw (number-accepts mode n number, number) refl
  | inr other ↦ rw other (ground arith)
]

parse_given_total :
    (use_arc : Bool) (new_arc : ℕ) (m : Option String) (items : ProgressItems) (u : Upgrade)
    → All HasKey items.img_src_list
    → IsSized u
    → Parsed (accepts m (length items.img_src_list)) (parse_given use_arc new_arc m items u)
unfolding parse_given
parse_given_total use_arc new_arc none items u ks h = refused file_parse_error u refl refl h
parse_given_total use_arc new_arc (some mode) items u ks h =
    subst (λ b. Parsed b (parse_given use_arc new_arc (some mode) items u))
      (mode-accepts mode (length items.img_src_list))
      (parse_mode_total use_arc new_arc (string_2_id mode progress_mode_map invalid) items u ks h)

-- Whatever the items of a progress widget are, also with images without order and of any number, where
-- every image has a key: on a sized widget, as it is after its construction, the parse gives a result,
-- does not touch memory outside the image array, and the widget stays sized. The result is UI_SUCCESS
-- exactly where the mode has one of the five names, with at least ten images for "number".
pub parse_progress_total :
    (use_arc : Bool) (new_arc : ℕ) (items : ProgressItems) (u : Upgrade)
    → All HasKey items.img_src_list
    → IsSized u
    → (code : Code) × (u' : Upgrade) × (parse_progress use_arc new_arc items u ≡ some (code, u'))
      × IsSized u'
      × (is_success code ≡ accepts items.mode (length items.img_src_list))
unfolding parse_progress
parse_progress_total use_arc new_arc items u ks h =
    let p = parse_given_total use_arc new_arc items.mode items u ks h in
    (p.code, p.widget, p.eq, p.sized, p.accepted)
