-- ===== src/Ui/Config/Listed.antt =====
-- The loop over the image list of a progress widget in ui/ui_config_parse.c, and the bounds of the array.
use frameworks_system_ota.Prelude.{
  ℕ, ◌+◌, ◌≡◌, refl, Option, none, sym, ap, ◌∙◌, some-inj, if◌then◌else◌, Bool, true, false, not,
  ◌&&◌, some, List, [], ◌∷◌, length, arith, ltb, Bool-cases, inl, inr, >>=-eq-some, All, leb,
}
use frameworks_system_ota.Prelude.Int.{ℤ, pos, negsuc, ◌≤ℤ◌, leb_ℤ}
use frameworks_system_ota.Verify.Platform.{is_count}
use frameworks_system_ota.Widget.Data.{UpgradeType, num, invalid, Image, ImageData, Upgrade}
use frameworks_system_ota.Widget.Images.{
  is_num, image_index, put_image, lv_upgrade_set_image_array_size, lv_upgrade_set_image_data,
}
use frameworks_system_ota.Widget.Images.Bounds.{IsSized, set_size-IsSized, set_image_data_total}
use frameworks_system_ota.Ui.Code.{Code, success, file_content_invalid, is_success}
use frameworks_system_ota.Ui.Config.{set_listed, parse_images}

put-type : (i : ℤ) (d : ImageData) (u u' : Upgrade) → put_image i d u ≡ some u' → u'.type ≡ u.type
unfolding put_image
put-type (negsuc k) d u u' h = cc h
put-type (pos i) d u u' h = ground arith

guarded-type :
    (i : ℤ) (d : ImageData) (u u' : Upgrade)
    → (if leb_ℤ (pos u.image_array_size) i then some u else put_image i d u) ≡ some u'
    → u'.type ≡ u.type
guarded-type i d u u' h = elim (Bool-cases (leb_ℤ (pos u.image_array_size) i)) [
  | inl full ↦ let same : some u ≡ some u' = rw full at h in ap (λ w. w.type) (sym (some-inj same))
  | inr free ↦ put-type i d u u' (rw free at h)
]

set_data-type :
    (key : ℤ) (image : Image) (u u' : Upgrade)
    → lv_upgrade_set_image_data key image u ≡ some u'
    → u'.type ≡ u.type
unfolding lv_upgrade_set_image_data
set_data-type key image u u' h =
    let (i, e, rest) = >>=-eq-some (image_index key u) _ h in
    guarded-type i (record { key = key; image = image }) u u' rest

set_size-type : (size : ℤ) (u : Upgrade) → (lv_upgrade_set_image_array_size size u).type ≡ u.type
unfolding lv_upgrade_set_image_array_size
set_size-type (negsuc k) u = refl
set_size-type (pos size) u = ground arith

count_not_negative : (z : ℤ) (i : ℕ) → is_count z i ≡ true → pos 0 ≤ℤ z
unfolding is_count
count_not_negative z i h = ground arith

in_order_not_negative :
    (key : ℤ) (i : ℕ) (number : Bool)
    → number ≡ true
    → number && not (is_count key i) ≡ false
    → pos 0 ≤ℤ key
in_order_not_negative key i number n h = count_not_negative key i (ground arith)

-- The element has a key.
abbrev pub HasKey : Option ℤ × Image → Type 0
HasKey element = (k : ℤ) × (element.0 ≡ some k)

set_listed_total :
    (number : Bool) (i : ℕ) (elements : List (Option ℤ × Image)) (u : Upgrade)
    → All HasKey elements
    → IsSized u
    → is_num u.type ≡ number
    → (u' : Upgrade) × (set_listed number i elements u ≡ some u') × IsSized u'
unfolding set_listed
set_listed_total number i [] u ks h t = (u, refl, h)
set_listed_total number i ((none, image) ∷ elements) u ((k, e), ks) h t = cc e
set_listed_total number i ((some key, image) ∷ elements) u (k, ks) h t =
    elim (Bool-cases (number && not (is_count key i))) [
      | inl out ↦ (u, rw out refl, h)
      | inr in_order ↦
          let (v, e, sized) =
            set_image_data_total key image u h
              (λ n. in_order_not_negative key i number (sym t ∙ n) in_order) in
          let (w, e', sized') =
            set_listed_total number (i + 1) elements v ks sized
              (ap is_num (set_data-type key image u v e) ∙ t) in
          (w, rw (in_order, e) e', sized')
    ]

-- With so many images the mode is accepted.
abbrev pub mode_accepts : UpgradeType → ℕ → Bool
mode_accepts invalid n = false
mode_accepts num n = leb 10 n
mode_accepts _ n = true

-- The result of the parse, and the widget that it leaves.
pub record Parsed (accepts : Bool) (result : Option (Code × Upgrade)) : Type 0 where
  pub code : Code
  pub widget : Upgrade
  pub eq : result ≡ some (code, widget)
  pub sized : IsSized widget
  pub accepted : is_success code ≡ accepts

pub parse_images_total :
    (mode_type : UpgradeType) (elements : List (Option ℤ × Image)) (u : Upgrade)
    → All HasKey elements
    → IsSized u
    → u.type ≡ mode_type
    → Parsed
        (not (is_num mode_type && ltb (length elements) 10))
        (parse_images mode_type elements u)
unfolding parse_images
parse_images_total mode_type elements u ks h t =
    elim (Bool-cases (is_num mode_type && ltb (length elements) 10)) [
      | inl short ↦ record {
        code = file_content_invalid;
        widget = u;
        eq = rw short refl;
        sized = h;
        accepted = rw short refl;
      }
      | inr long ↦
          let sized_u = lv_upgrade_set_image_array_size (pos (length elements)) u in
          let (u', e, sized) =
            set_listed_total (is_num mode_type) 0 elements sized_u ks
              (set_size-IsSized (pos (length elements)) u h)
              (ap is_num (set_size-type (pos (length elements)) u ∙ t)) in
          record {
            code = success;
            widget = u';
            eq = rw (long, e) refl;
            sized = sized;
            accepted = rw long refl;
          }
    ]
