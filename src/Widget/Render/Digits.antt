-- ===== src/Widget/Render/Digits.antt =====
-- The drawing of the number mode of ui/extra/lv_upgrade.c beside the size that the layout computes.
use frameworks_system_ota.Prelude.{
  ℕ, ◌+◌, ◌≡◌, refl, sym, ap, ap₂, subst, ◌∙◌, Option, none, some, List, [], ◌∷◌, arith, leb,
  Bool-cases, inl, inr, get_elem?-of_lt,
}
use frameworks_system_ota.Prelude.Int.{ℤ, pos, negsuc}
use frameworks_system_ota.Widget.Data.{Image, Upgrade}
use frameworks_system_ota.Widget.Images.{cells_of}
use frameworks_system_ota.Widget.Images.Bounds.{IsSized}
use frameworks_system_ota.Widget.Layout.{
  Area, empty_area, image_of, lv_calc_objs_size, number_loop, lv_calc_number_mode_size,
}
use frameworks_system_ota.Widget.Render.{
  minus, Coords, lv_calc_draw_area, Draw, draw_image, draw_rect, drawn, draw_digits,
  lv_render_number_mode_content,
}

-- The images, from right to left: each has the source `src`, ends one pixel left of `hi`, where the one
-- before it begins, and starts one pixel above `top`, where that one does; the last begins at `lo`.
abbrev pub Tiles : Option Image → ℤ → ℤ → ℤ → List Draw → Type 0
Tiles src hi lo top [] = hi ≡ lo
Tiles src hi lo top (draw_rect c ∷ draws) = ⊥
Tiles src hi lo top (draw_image s c ∷ draws) =
    (s ≡ src) × (c.x2 ≡ minus hi 1) × (c.y1 ≡ minus top 1) × Tiles src c.x1 lo c.y1 draws

minus-minus : (z : ℤ) (m n : ℕ) → minus (minus z m) n ≡ minus z (m + n)
minus-minus (pos a) m n = ground arith
minus-minus (negsuc k) m n = ground arith

minus_none : (z : ℤ) → minus z 0 ≡ z
minus_none (pos a) = ground arith
minus_none (negsuc k) = ground arith

-- One image more on the left.
Tiles-cell :
    (src : Option Image) (i : Option Image) (c : Coords) (lo : ℤ) (draws : List Draw)
    → Tiles src (lv_calc_draw_area i c).1.x2 lo (lv_calc_draw_area i c).1.y1 draws
    → Tiles src c.x2 lo c.y1 (drawn i (draw_image src (lv_calc_draw_area i c).0) draws)
unfolding lv_calc_draw_area
Tiles-cell src none c lo draws h = h
Tiles-cell src (some image) c lo draws h = (refl, refl, refl, h)

-- The width that an image adds.
abbrev width_of : Option Image → ℕ
width_of none = 0
width_of (some image) = image.w

moved :
    (i : Option Image) (c : Coords) (n : ℕ)
    → minus (lv_calc_draw_area i c).1.x2 n ≡ minus c.x2 (width_of i + n)
unfolding lv_calc_draw_area
moved none c n = ap (minus c.x2) (omega arith)
moved (some image) c n = minus-minus c.x2 image.w n

grown : (i : Option Image) (a : Area) → (lv_calc_objs_size i a).x2 ≡ a.x2 + width_of i
unfolding lv_calc_objs_size
grown none a = omega arith
grown (some image) a = refl

digits_lem :
    (src : Option Image) (digits : List ℤ) (u : Upgrade) (c : Coords) (a : Area)
    → IsSized u
    → (draws : List Draw) × (a' : Area) × (n : ℕ) × (draw_digits src digits u c ≡ some draws)
      × (number_loop digits u a ≡ some a')
      × (a'.x2 ≡ a.x2 + n)
      × Tiles src c.x2 (minus c.x2 n) c.y1 draws
unfolding draw_digits number_loop
digits_lem src [] u c a h = ([], a, 0, refl, refl, omega arith, sym (minus_none c.x2))
digits_lem src (negsuc k ∷ digits) u c a h =
    ([], a, 0, refl, refl, omega arith, sym (minus_none c.x2))
digits_lem src (pos d ∷ digits) u c a h = elim (Bool-cases (leb u.image_array_size d)) [
  | inl beyond ↦ ([], a, 0, rw beyond refl, rw beyond refl, omega arith, sym (minus_none c.x2))
  | inr there ↦
      let (cell, e) = get_elem?-of_lt (cells_of u) d (ground arith) in
      let i = image_of cell in
      let (draws, a', n, drew, laid, wide, tiles) =
        digits_lem src digits u (lv_calc_draw_area i c).1 (lv_calc_objs_size i a) h in
      (
        drawn i (draw_image src (lv_calc_draw_area i c).0) draws,
        a',
        width_of i + n,
        rw (there, e, drew) refl,
        rw (there, e) laid,
        wide ∙ ap (λ w. w + n) (grown i a) ∙ omega arith,
        subst
            (λ lo.
              Tiles src c.x2 lo c.y1 (drawn i (draw_image src (lv_calc_draw_area i c).0) draws))
            (moved i c n) (Tiles-cell src i c _ draws tiles),
      )
]

pub number_mode_total :
    (src : Option Image) (u : Upgrade) (c : Coords)
    → IsSized u
    → (draws : List Draw) × (lv_render_number_mode_content src u c ≡ some draws)
unfolding lv_render_number_mode_content
number_mode_total src u c h =
    let area = lv_calc_draw_area u.image_percent_sign c in
    let (draws, a, n, drew, laid, wide, tiles) =
      digits_lem src u.shown.progress u area.1 empty_area h in
    (draw_image src area.0 ∷ draws, rw drew refl)

-- In number mode, with a percent sign and the counter within the image array: neither the layout nor
-- the drawing reads outside the array; the images are drawn side by side from one pixel left of the
-- right edge, all together as wide as the layout says, each one pixel above the one on its right, and
-- all with the source that the descriptor had before.
pub number_mode-Tiles :
    (src : Option Image) (u : Upgrade) (c : Coords) (sign : Image)
    → IsSized u
    → u.image_percent_sign ≡ some sign
    → (draws : List Draw) × (a : Area) × (lv_render_number_mode_content src u c ≡ some draws)
      × (lv_calc_number_mode_size u empty_area ≡ some a)
      × Tiles src c.x2 (minus c.x2 a.x2) c.y1 draws
unfolding lv_render_number_mode_content lv_calc_number_mode_size
number_mode-Tiles src u c sign h e =
    let i = u.image_percent_sign in
    let area = lv_calc_draw_area i c in
    let (draws, a, n, drew, laid, wide, tiles) =
      digits_lem src u.shown.progress u area.1 (lv_calc_objs_size i empty_area) h in
    let total : a.x2 ≡ width_of i + n = wide ∙ ap (λ w. w + n) (grown i empty_area) ∙ omega arith in
    (
      draw_image src area.0 ∷ draws,
      a,
      rw drew refl,
      laid,
      subst (λ (p : ℤ × List Draw). Tiles src c.x2 p.0 c.y1 p.1)
          (ap₂ (λ lo ds. (lo, ds)) (moved i c n ∙ ap (minus c.x2) (sym total))
            (drawn_some i sign (draw_image src area.0) draws e))
          (Tiles-cell src i c _ draws tiles),
    )
  where
    drawn_some :
        (i : Option Image) (sign : Image) (d : Draw) (rest : List Draw)
        → i ≡ some sign
        → drawn i d rest ≡ d ∷ rest
    drawn_some i sign d rest e = rw e refl
