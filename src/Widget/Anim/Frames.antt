-- ===== src/Widget/Anim/Frames.antt =====
-- The frames of the animation of ui/extra/lv_upgrade.c and the images that were set.
use frameworks_system_ota.Prelude.{
  ℕ, zero, suc, ◌<◌, ◌%◌, ◌≡◌, refl, false, some, List, [], ◌∷◌, ◌>>=◌, arith, length, map,
  get_elem?, leb, get_elem?-of_lt,
}
use frameworks_system_ota.Prelude.Int.{pos}
use frameworks_system_ota.Widget.Data.{ImageData, Upgrade}
use frameworks_system_ota.Widget.Images.{is_num, lv_upgrade_set_image_array_size}
use frameworks_system_ota.Widget.Images.Fill.{set_images, set_all_images}
use frameworks_system_ota.Widget.Anim.{rem_by, image_at, lv_index_change}

rem_by_lem : (n m : ℕ) → 0 < m → rem_by (pos n) m ≡ some (pos (n % m))
unfolding rem_by
rem_by_lem n zero h = absurd (omega arith)
rem_by_lem n (suc m) h = refl

get_elem?-map :
    (ds : List ImageData) (i : ℕ) (d : ImageData)
    → get_elem? ds i ≡ some d
    → get_elem? (map some ds) i ≡ some (some d)
get_elem?-map [] i d h = cc h
get_elem?-map (x ∷ ds) zero d h = cc
get_elem?-map (x ∷ ds) (suc i) d h = get_elem?-map ds i d h

-- Where the array of a widget holds exactly the images `ds`.
frame_shows :
    (u : Upgrade) (ds : List ImageData) (n : ℕ) (d : ImageData)
    → u.image_array ≡ some (map some ds)
    → u.image_array_size ≡ length ds
    → 0 < length ds
    → get_elem? ds (n % length ds) ≡ some d
    → lv_index_change (pos n) u ≡ some (some d.image)
unfolding lv_index_change image_at
frame_shows u ds n d ha hs h e =
    let cell = get_elem?-map ds (n % length ds) d e in
    let inside : leb (length ds) (n % length ds) ≡ false = ground arith in
    rw (lv_index_change, hs, rem_by_lem n (length ds) h, inside, ha, cell) refl

mod_below : (n m : ℕ) → 0 < m → n % m < m
mod_below n m h = omega arith

-- On a widget without images that is not in number mode: after 1 to 255 images are set one after the
-- other, frame `n` of the animation shows image `n` modulo their number.
pub frames_lem :
    (u : Upgrade) (ds : List ImageData) (n : ℕ)
    → u.image_array_size ≡ 0
    → 0 < length ds
    → length ds < 256
    → is_num u.type ≡ false
    → (d : ImageData) × (get_elem? ds (n % length ds) ≡ some d)
      × ((set_images ds (lv_upgrade_set_image_array_size (pos (length ds)) u)
            >>= lv_index_change (pos n))
          ≡ some (some d.image))
frames_lem u ds n h0 hp hl hn =
    let filled = set_all_images u ds h0 hp hl (λ e. cc) in
    let u' : Upgrade = record u {
      image_array_size = length ds;
      image_array = some (map some ds);
    } in
    let (d, e) = get_elem?-of_lt ds (n % length ds) (mod_below n (length ds) hp) in
    (d, e, rw filled (frame_shows u' ds n d refl refl hp e))
