-- ===== src/Widget/Images/Bounds.antt =====
-- The image array of ui/extra/lv_upgrade.c and the bounds of its cells.
use frameworks_system_ota.Prelude.{
  ℕ, zero, suc, ◌+◌, ◌≤◌, ◌≡◌, refl, true, Option, some, List, arith, length, set, length-set,
  get_elem?-of_lt, leb, Bool-cases, inl, inr, Option-cases, if◌then◌else◌,
}
use frameworks_system_ota.Prelude.Int.{ℤ, pos, negsuc, ◌≤ℤ◌, leb_ℤ}
use frameworks_system_ota.Widget.Data.{Image, ImageData, Upgrade, lv_upgrade_constructor}
use frameworks_system_ota.Widget.Images.{
  null_cells, lv_upgrade_set_image_array_size, first_null, is_num, cells_of, put_image,
  lv_upgrade_set_image_data,
}

-- The counter does not exceed the array.
abbrev pub IsSized : Upgrade → Type 0
IsSized u = u.image_array_size ≤ length (cells_of u)

pub length-null_cells : (n : ℕ) → length (null_cells n) ≡ n
unfolding null_cells
length-null_cells zero = refl
length-null_cells (suc n) = omega (arith, length-null_cells n)

pub constructor-IsSized : IsSized lv_upgrade_constructor
unfolding lv_upgrade_constructor
constructor-IsSized = omega arith

pub set_size-IsSized :
    (size : ℤ) (u : Upgrade) → IsSized u → IsSized (lv_upgrade_set_image_array_size size u)
unfolding lv_upgrade_set_image_array_size
set_size-IsSized (negsuc k) u h = h
set_size-IsSized (pos size) u h = ground (arith, length-null_cells size)

-- The search stays in the array, and stops at a null cell or behind the last one.
first_null_lem :
    (n i : ℕ) (cells : List (Option ImageData))
    → i + n ≤ length cells
    → (j : ℕ) × (first_null n i cells ≡ some j) × (j ≤ i + n)
unfolding first_null
first_null_lem zero i cells h = (i, refl, omega arith)
first_null_lem (suc n) i cells h =
    let (j, e, le) = first_null_lem n (i + 1) cells (omega arith) in
    let (c, at) = get_elem?-of_lt cells i (omega arith) in
    elim (Option-cases c) [
      | inl null ↦ (i, ground arith, omega arith)
      | inr (d, full) ↦ (j, ground arith, omega arith)
    ]

-- The guarded write, at an index that is not negative.
guarded_put_total :
    (i : ℤ) (d : ImageData) (u : Upgrade)
    → IsSized u
    → pos 0 ≤ℤ i
    → (u' : Upgrade) × ((if leb_ℤ (pos u.image_array_size) i then some u else put_image i d u)
        ≡ some u')
      × IsSized u'
unfolding put_image
guarded_put_total (negsuc k) d u h k0 = absurd (omega arith)
guarded_put_total (pos i) d u h k0 = elim (Bool-cases (leb u.image_array_size i)) [
  | inl full ↦ (u, ground arith, h)
  | inr free ↦ (
    record u { image_array = some (set (cells_of u) i (some d)) },
    ground arith,
    omega (arith, length-set (cells_of u) i (some d)),
  )
]

-- With a sized array, and in number mode a key that is not negative, `lv_upgrade_set_image_data`
-- does not touch memory outside the array, and the array stays sized.
pub set_image_data_total :
    (key : ℤ) (image : Image) (u : Upgrade)
    → IsSized u
    → (is_num u.type ≡ true → pos 0 ≤ℤ key)
    → (u' : Upgrade) × (lv_upgrade_set_image_data key image u ≡ some u') × IsSized u'
unfolding lv_upgrade_set_image_data
set_image_data_total key image u h k =
    let d : ImageData = record { key = key; image = image } in
    elim (Bool-cases (is_num u.type)) [
      | inl number ↦ rw number (guarded_put_total key d u h (k number))
      | inr other ↦
          let (i, e, le) = first_null_lem u.image_array_size 0 (cells_of u) (omega arith) in
          rw (other, e) (guarded_put_total (pos i) d u h (omega arith))
    ]
