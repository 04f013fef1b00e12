-- ===== src/Widget/Images/Fill.antt =====
-- The image array of ui/extra/lv_upgrade.c, filled by one call after the other.
use Prim.Native.Nat.add
use frameworks_system_ota.Prelude.{
  ℕ, zero, suc, ◌+◌, ◌<◌, ◌≡◌, refl, ap, ◌∙◌, sym, subst, true, Option, none, some, List, [], ◌∷◌,
  ◌++◌, map, arith, length, get_elem?, set, append-nil, append_assoc, length-append,
  get_elem?-append_length, get_elem?-append_left, set-append_length, ◌>>=◌, inl, inr, Bool-cases,
}
use frameworks_system_ota.Prelude.Int.{ℤ, pos}
use frameworks_system_ota.Widget.Data.{ImageData, Upgrade}
use frameworks_system_ota.Widget.Images.{
  null_cells, lv_upgrade_set_image_array_size, first_null, is_num, image_index, put_image,
  lv_upgrade_set_image_data,
}
use frameworks_system_ota.Widget.Images.Bounds.{length-null_cells}

-- The calls of `lv_upgrade_set_image_data` for a list of images.
unfoldable pub set_images : List ImageData → Upgrade → Option Upgrade
set_images [] u = some u
set_images (d ∷ ds) u = do u' ← lv_upgrade_set_image_data d.key d.image u; set_images ds u'

-- The array holds `xs` and then `k` null pointers.
abbrev filled : List ImageData → ℕ → List (Option ImageData)
filled xs k = map some xs ++ null_cells k

length-map-some : (xs : List ImageData) → length (map some xs) ≡ length xs
length-map-some [] = refl
length-map-some (x ∷ xs) = ap suc (length-map-some xs)

length-filled : (xs : List ImageData) (k : ℕ) → length (filled xs k) ≡ length xs + k
length-filled xs k =
    omega
      (arith, length-append (map some xs) (null_cells k), length-map-some xs, length-null_cells k)

get_elem?-map-some :
    (xs : List ImageData) (i : ℕ)
    → i < length xs
    → (d : ImageData) × (get_elem? (map some xs) i ≡ some (some d))
get_elem?-map-some [] i h = absurd (omega arith)
get_elem?-map-some (x ∷ xs) zero h = (x, refl)
get_elem?-map-some (x ∷ xs) (suc i) h = get_elem?-map-some xs i (omega arith)

get_elem?-filled :
    (xs : List ImageData) (k i : ℕ)
    → i < length xs
    → (d : ImageData) × (get_elem? (filled xs k) i ≡ some (some d))
get_elem?-filled xs k i h =
    let (d, e) = get_elem?-map-some xs i h in
    (
      d,
      get_elem?-append_left (map some xs) (null_cells k) i (omega (arith, length-map-some xs)) ∙ e,
    )

-- The first null cell stands behind the images.
get_elem?-filled_null :
    (xs : List ImageData) (k : ℕ) → get_elem? (filled xs (suc k)) (length xs) ≡ some none
unfolding null_cells
get_elem?-filled_null xs k =
    ap (get_elem? (map some xs ++ (none ∷ null_cells k))) (sym (length-map-some xs))
    ∙ get_elem?-append_length (map some xs) none (null_cells k)

first_null-filled :
    (m k i : ℕ) (xs : List ImageData)
    → i + m ≡ length xs
    → first_null (m + suc k) i (filled xs (suc k)) ≡ some (length xs)
unfolding first_null
first_null-filled zero k i xs h =
    let behind : i ≡ length xs = omega arith in
    rw (add.zero (suc k), behind) (rw (get_elem?-filled_null xs k, first_null))
first_null-filled (suc m) k i xs h =
    let (d, e) = get_elem?-filled xs (suc k) i (omega arith) in
    rw (add.suc m (suc k), e, first_null) (first_null-filled m k (i + 1) xs (omega arith))

map-some-snoc :
    (xs : List ImageData) (d : ImageData) → map some (xs ++ (d ∷ [])) ≡ map some xs ++ (some d ∷ [])
map-some-snoc [] d = refl
map-some-snoc (x ∷ xs) d = ap (λ cells. some x ∷ cells) (map-some-snoc xs d)

-- Writing there appends the image.
set-filled :
    (xs : List ImageData) (k : ℕ) (d : ImageData)
    → set (filled xs (suc k)) (length xs) (some d) ≡ filled (xs ++ (d ∷ [])) k
unfolding null_cells
set-filled xs k d =
    ap (λ i. set (map some xs ++ (none ∷ null_cells k)) i (some d)) (sym (length-map-some xs))
    ∙ set-append_length (map some xs) none (some d) (null_cells k)
    ∙ sym (append_assoc (map some xs) (some d ∷ []) (null_cells k))
    ∙ ap (λ cells. cells ++ null_cells k) (sym (map-some-snoc xs d))

abbrev with_cells : Upgrade → ℕ → List (Option ImageData) → Upgrade
with_cells u size cells = record u { image_array_size = size; image_array = some cells }

-- The index that the next image goes to.
image_index-filled :
    (u : Upgrade) (xs : List ImageData) (k size : ℕ) (key : ℤ)
    → size ≡ length xs + suc k
    → (is_num u.type ≡ true → key ≡ pos (length xs))
    → image_index key (with_cells u size (filled xs (suc k))) ≡ some (pos (length xs))
unfolding image_index
image_index-filled u xs k size key h n = elim (Bool-cases (is_num u.type)) [
  | inl number ↦ rw number (ap some (n number))
  | inr other ↦ rw (other, h, first_null-filled (length xs) k 0 xs (omega arith))
]

set_image_step :
    (u : Upgrade) (xs : List ImageData) (k size : ℕ) (d : ImageData)
    → size ≡ length xs + suc k
    → (is_num u.type ≡ true → d.key ≡ pos (length xs))
    → lv_upgrade_set_image_data d.key d.image (with_cells u size (filled xs (suc k)))
      ≡ some (with_cells u size (filled (xs ++ (d ∷ [])) k))
unfolding lv_upgrade_set_image_data put_image
set_image_step u xs k size d h n =
    rw (image_index-filled u xs k size d.key h n)
      (ground (arith, length-filled xs (suc k), set-filled xs k d))

-- The keys are the numbers from `i` on.
abbrev pub NumberedFrom : ℕ → List ImageData → Type 0
NumberedFrom i [] = Unit
NumberedFrom i (d ∷ ds) = (d.key ≡ pos i) × NumberedFrom (i + 1) ds

set_images-filled :
    (u : Upgrade) (ds xs : List ImageData) (size : ℕ)
    → size ≡ length xs + length ds
    → (is_num u.type ≡ true → NumberedFrom (length xs) ds)
    → set_images ds (with_cells u size (filled xs (length ds)))
      ≡ some (with_cells u size (map some (xs ++ ds)))
unfolding set_images
set_images-filled u [] xs size h n =
    unfold null_cells in
    ap (λ cells. some (with_cells u size cells))
      (append-nil _ ∙ ap (map some) (sym (append-nil xs)))
set_images-filled u (d ∷ ds) xs size h n =
    rw (set_image_step u xs (length ds) size d h (λ number. (n number).0)) (
      set_images-filled u ds (xs ++ (d ∷ [])) size (omega (arith, length-append xs (d ∷ [])))
        (λ number. subst (λ i. NumberedFrom i ds) (sym (length-append xs (d ∷ []))) (n number).1)
      ∙ ap (λ ys. some (with_cells u size (map some ys))) (append_assoc xs (d ∷ []) ds))

-- On a widget without images: for 1 to 255 images, in number mode with the keys 0, 1, 2 and so on,
-- setting the array's size to their number and then setting them one after the other leaves
-- exactly these images in the array, in this order, and no null cell.
pub set_all_images :
    (u : Upgrade) (ds : List ImageData)
    → u.image_array_size ≡ 0
    → 0 < length ds
    → length ds < 256
    → (is_num u.type ≡ true → NumberedFrom 0 ds)
    → set_images ds (lv_upgrade_set_image_array_size (pos (length ds)) u)
      ≡ some (record u { image_array_size = length ds; image_array = some (map some ds) })
unfolding lv_upgrade_set_image_array_size
set_all_images u ds empty some_image fits n =
    let sized : lv_upgrade_set_image_array_size (pos (length ds)) u
        ≡ with_cells u (length ds) (filled [] (length ds)) =
      ground arith in
    rw (lv_upgrade_set_image_array_size, sized)
      (set_images-filled u ds [] (length ds) (omega arith) n)
