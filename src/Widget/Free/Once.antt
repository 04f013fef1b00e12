-- ===== src/Widget/Free/Once.antt =====
-- The destructor of ui/extra/lv_upgrade.c against the blocks that the widget owns.
use frameworks_system_ota.Prelude.{
  is_given, ℕ, zero, suc, ◌+◌, ◌≤◌, ◌≡◌, refl, sym, ap, ◌∙◌, Bool, true, false, ◌&&◌, Option, none,
  some, List, [], ◌∷◌, ◌++◌, length, arith, ◌==◌, ==_iff, if◌then◌else◌, get_elem?, get_elem?-of_lt,
  Bool-cases, ap₂, leb, ltb, inl, inr,
}
use frameworks_system_ota.Widget.Data.{Image, ImageData, Upgrade}
use frameworks_system_ota.Widget.Images.{cells_of}
use frameworks_system_ota.Widget.Free.{
  Owned, pixels, dsc, info, array, sign_pixels, sign_dsc, free_cell, free_loop, free_sign,
  free_array, lv_upgrade_destructor,
}

-- Whether cell `i` has an image.
abbrev pub is_full : Option (Option ImageData) → Bool
is_full (some (some d)) = true
is_full _ = false

-- A null array has no cells.
abbrev pub cells_in : Option (List (Option ImageData)) → List (Option ImageData)
cells_in none = []
cells_in (some cells) = cells

abbrev pub owns_of : Option (List (Option ImageData)) → Option Image → Owned → Bool
owns_of a sign (pixels i) = is_full (get_elem? (cells_in a) i)
owns_of a sign (dsc i) = is_full (get_elem? (cells_in a) i)
owns_of a sign (info i) = is_full (get_elem? (cells_in a) i)
owns_of a sign array = is_given a
owns_of a sign sign_pixels = is_given sign
owns_of a sign sign_dsc = is_given sign

-- Whether the widget owns the block.
abbrev pub owns : Upgrade → Owned → Bool
owns u b = owns_of u.image_array u.image_percent_sign b

-- Equality of blocks.
abbrev pub same_block : Owned → Owned → Bool
same_block (pixels i) (pixels j) = i == j
same_block (dsc i) (dsc j) = i == j
same_block (info i) (info j) = i == j
same_block array array = true
same_block sign_pixels sign_pixels = true
same_block sign_dsc sign_dsc = true
same_block _ _ = false

-- How often a block is freed.
abbrev pub times : Owned → List Owned → ℕ
times b [] = 0
times b (x ∷ xs) = (if same_block b x then 1 else 0) + times b xs

abbrev pub once : Bool → ℕ
once true = 1
once false = 0

times-append : (b : Owned) (xs ys : List Owned) → times b (xs ++ ys) ≡ times b xs + times b ys
times-append b [] ys = omega arith
times-append b (x ∷ xs) ys = let ih = times-append b xs ys in omega arith

-- Whether the block belongs to the image of a cell.
abbrev cell_of : Owned → Option ℕ
cell_of (pixels i) = some i
cell_of (dsc i) = some i
cell_of (info i) = some i
cell_of _ = none

-- Freed once for a cell from `i` on that has an image.
abbrev in_cells : Option ℕ → ℕ → ℕ → List (Option ImageData) → Bool
in_cells none n i cells = false
in_cells (some k) n i cells = leb i k && ltb k (i + n) && is_full (get_elem? cells k)

-- The cell `i`, where it has an image.
abbrev at_cell : Option ℕ → ℕ → Option ImageData → Bool
at_cell none i cell = false
at_cell (some k) i cell = (k == i) && is_full (some cell)

free_cell-times :
    (b : Owned) (i : ℕ) (cell : Option ImageData)
    → times b (free_cell i cell) ≡ once (at_cell (cell_of b) i cell)
unfolding free_cell
free_cell-times (pixels k) i none = ground arith
free_cell-times (pixels k) i (some d) = ground arith
free_cell-times (dsc k) i none = ground arith
free_cell-times (dsc k) i (some d) = ground arith
free_cell-times (info k) i none = ground arith
free_cell-times (info k) i (some d) = ground arith
free_cell-times array i none = refl
free_cell-times array i (some d) = refl
free_cell-times sign_pixels i none = refl
free_cell-times sign_pixels i (some d) = refl
free_cell-times sign_dsc i none = refl
free_cell-times sign_dsc i (some d) = refl

no_cells :
    (o : Option ℕ) (i : ℕ) (cells : List (Option ImageData)) → once (in_cells o 0 i cells) ≡ 0
no_cells none i cells = refl
no_cells (some k) i cells = ground arith

-- The first cell and the others.
split_cells :
    (o : Option ℕ) (n i : ℕ) (cells : List (Option ImageData)) (cell : Option ImageData)
    → get_elem? cells i ≡ some cell
    → once (at_cell o i cell) + once (in_cells o n (i + 1) cells)
      ≡ once (in_cells o (suc n) i cells)
split_cells none n i cells cell e = refl
split_cells (some k) n i cells cell e = elim (Bool-cases (k == i)) [
  | inl same ↦
      let at : get_elem? cells k ≡ some cell = ap (get_elem? cells) ((==_iff k i).0 same) ∙ e in
      rw (at, same) (here n i k (is_full (some cell)) ((==_iff k i).0 same))
  | inr other ↦ rw other (there n i k (is_full (get_elem? cells k)) other)
]
  where
    here :
        (n i k : ℕ) (full : Bool)
        → k ≡ i
        → once full + once (leb (i + 1) k && ltb k (i + 1 + n) && full)
          ≡ once (leb i k && ltb k (i + suc n) && full)
    here n i k full e = ground arith

    there :
        (n i k : ℕ) (full : Bool)
        → (k == i) ≡ false
        → 0 + once (leb (i + 1) k && ltb k (i + 1 + n) && full)
          ≡ once (leb i k && ltb k (i + suc n) && full)
    there n i k full e = ground arith

free_loop-times :
    (n i : ℕ) (cells : List (Option ImageData))
    → i + n ≤ length cells
    → (freed : List Owned) × (free_loop n i cells ≡ some freed)
      × ((b : Owned) → times b freed ≡ once (in_cells (cell_of b) n i cells))
unfolding free_loop
free_loop-times zero i cells h = ([], refl, λ b. sym (no_cells (cell_of b) i cells))
free_loop-times (suc n) i cells h =
    let (cell, e) = get_elem?-of_lt cells i (omega arith) in
    let (freed, e', count) = free_loop-times n (i + 1) cells (omega arith) in
    (
      free_cell i cell ++ freed,
      rw (e, e') refl,
      λ b.
          times-append b (free_cell i cell) freed
          ∙ ap₂ (λ m n. m + n) (free_cell-times b i cell) (count b)
          ∙ split_cells (cell_of b) n i cells cell e,
    )

get_elem?-beyond : {A : Type 0} (xs : List A) (k : ℕ) → length xs ≤ k → get_elem? xs k ≡ none
get_elem?-beyond [] k h = refl
get_elem?-beyond (x ∷ xs) zero h = absurd (omega arith)
get_elem?-beyond (x ∷ xs) (suc k) h = get_elem?-beyond xs k (omega arith)

beyond :
    (cells : List (Option ImageData)) (k n : ℕ)
    → n ≡ length cells
    → once (in_cells (some k) n 0 cells) ≡ once (is_full (get_elem? cells k))
beyond cells k n e = elim (Bool-cases (ltb k (length cells))) [
  | inl within ↦ inside k n (length cells) (is_full (get_elem? cells k)) e within
  | inr out ↦ rw (get_elem?-beyond cells k (ground arith)) (outside k n)
]
  where
    inside :
        (k n m : ℕ) (full : Bool)
        → n ≡ m
        → ltb k m ≡ true
        → once (leb 0 k && ltb k (0 + n) && full) ≡ once full
    inside k n m full e h = ground arith

    outside : (k n : ℕ) → once (leb 0 k && ltb k (0 + n) && false) ≡ 0
    outside k n = ground arith

array_once :
    (cells : List (Option ImageData)) (n : ℕ) (b : Owned)
    → n ≡ length cells
    → once (in_cells (cell_of b) n 0 cells) + times b (array ∷ [])
      ≡ once (owns_of (some cells) none b)
array_once cells n (pixels k) h = let e = beyond cells k n h in omega arith
array_once cells n (dsc k) h = let e = beyond cells k n h in omega arith
array_once cells n (info k) h = let e = beyond cells k n h in omega arith
array_once cells n array h = refl
array_once cells n sign_pixels h = refl
array_once cells n sign_dsc h = refl

free_array-times :
    (a : Option (List (Option ImageData))) (n : ℕ)
    → n ≡ length (cells_in a)
    → (freed : List Owned) × (free_array a n ≡ some freed)
      × ((b : Owned) → times b freed ≡ once (owns_of a none b))
unfolding free_array
free_array-times none n h = ([], refl, none_owned)
  where
    none_owned : (b : Owned) → 0 ≡ once (owns_of none none b)
    none_owned (pixels i) = refl
    none_owned (dsc i) = refl
    none_owned (info i) = refl
    none_owned array = refl
    none_owned sign_pixels = refl
    none_owned sign_dsc = refl
free_array-times (some cells) n h =
    let (freed, e, count) = free_loop-times n 0 cells (omega arith) in
    (
      freed ++ (array ∷ []),
      rw e refl,
      λ b.
          times-append b freed (array ∷ [])
          ∙ ap (λ m. m + times b (array ∷ [])) (count b)
          ∙ array_once cells n b h,
    )

sign_once :
    (a : Option (List (Option ImageData))) (sign : Option Image) (b : Owned)
    → once (owns_of a none b) + times b (free_sign sign) ≡ once (owns_of a sign b)
sign_once a none b = omega arith
sign_once a (some image) (pixels i) = omega arith
sign_once a (some image) (dsc i) = omega arith
sign_once a (some image) (info i) = omega arith
sign_once a (some image) array = omega arith
sign_once a (some image) sign_pixels = refl
sign_once a (some image) sign_dsc = refl

-- On a widget whose counter is the length of its image array, the destructor reads no cell outside the
-- array, frees every block that the widget owns once and no other block, and leaves it without an
-- array.
pub destructor_lem :
    (u : Upgrade)
    → u.image_array_size ≡ length (cells_of u)
    → (freed : List Owned) × (lv_upgrade_destructor u
        ≡ some (freed, record u { image_array = none }))
      × ((b : Owned) → times b freed ≡ once (owns u b))
unfolding lv_upgrade_destructor
destructor_lem u h =
    let a = u.image_array in
    let sign = u.image_percent_sign in
    let (freed, e, count) = free_array-times a u.image_array_size (h ∙ ap length (same_cells u)) in
    (
      freed ++ free_sign sign,
      rw e refl,
      λ b.
          times-append b freed (free_sign sign)
          ∙ ap (λ m. m + times b (free_sign sign)) (count b)
          ∙ sign_once a sign b,
    )
  where
    same_cells : (u : Upgrade) → cells_of u ≡ cells_in u.image_array
    same_cells u = refl
