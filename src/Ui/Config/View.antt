-- ===== src/Ui/Config/View.antt =====
-- The pages of the screen as a list of names and hidden flags, for ui/ui_config_parse.c: the objects
-- inside a page do not change it, and a new page comes at its end.
use mathlib.Core.List.{map-append}
use frameworks_system_ota.Prelude.{
  ℕ, zero, suc, ◌+◌, ◌≤◌, ◌≡◌, refl, ap, ap₂, ◌∙◌, String, Bool, true, Option, none, some, List, [],
  ◌∷◌, ◌++◌, map, arith,
}
use frameworks_system_ota.Ui.Lvgl.{Lvgl}
use frameworks_system_ota.Ui.Build.{Build, Created, IsBuild}
use frameworks_system_ota.Ui.Display.Search.{prepend, children, pages}
use frameworks_system_ota.Ui.Config.Tree.{Stays, Same, Created-Stays}

module _ (lv : Lvgl) where
  open lv use {Screen, lv_scr_act, lv_obj_get_child_cnt, lv_obj_get_child, user_data, is_hidden}

  abbrev pub look : Screen → ℕ → Option String × Bool
  look s o = (user_data o s, is_hidden o s)

  unfoldable pub view : Screen → List (Option String × Bool)
  unfolding pages
  view s = map (look s) (pages lv s)

  pub view-empty : (s : Screen) → lv_obj_get_child_cnt (lv_scr_act s) s ≡ zero → view s ≡ []
  unfolding view pages children
  view-empty s h = rw h refl

  map-prepend :
      (s : Screen) (o : Option ℕ) (os : List ℕ)
      → map (look s) (prepend lv o os) ≡ map (look s) (prepend lv o []) ++ map (look s) os
  map-prepend s none os = refl
  map-prepend s (some o) os = refl

  prepend-append : (o : Option ℕ) (xs ys : List ℕ) → prepend lv o (xs ++ ys) ≡ prepend lv o xs ++ ys
  prepend-append none xs ys = refl
  prepend-append (some o) xs ys = refl

  children-snoc :
      (n i : ℕ) (s : Screen)
      → children lv (suc n) i s
        ≡ children lv n i s ++ prepend lv (lv_obj_get_child (lv_scr_act s) (i + n) s) []
  unfolding children
  children-snoc zero i s =
      ap (λ k. prepend lv (lv_obj_get_child (lv_scr_act s) k s) []) (omega arith)
  children-snoc (suc n) i s =
      let o = lv_obj_get_child (lv_scr_act s) i s in
      ap (prepend lv o) (
        children-snoc n (i + 1) s
        ∙ ap (λ k. children lv n (i + 1) s ++ prepend lv (lv_obj_get_child (lv_scr_act s) k s) [])
            (omega arith))
      ∙ prepend-append o (children lv n (i + 1) s)
          (prepend lv (lv_obj_get_child (lv_scr_act s) (i + suc n) s) [])

  module _ (build : Build lv) (laws : IsBuild lv build) where
    open build use {lv_obj_is_valid}

    same-child :
        {s t : Screen} (o : Option ℕ)
        → Stays lv build s t
        → ((c : ℕ) → o ≡ some c → lv_obj_is_valid c s ≡ true)
        → map (look t) (prepend lv o []) ≡ map (look s) (prepend lv o [])
    same-child none r h = refl
    same-child (some c) r h =
        ap₂ (λ n hidden. (n, hidden) ∷ []) (r.same_name c (h c refl)) (r.same_hidden c (h c refl))

    children-look :
        {s t : Screen} (n i : ℕ)
        → Stays lv build s t
        → i + n ≤ lv_obj_get_child_cnt (lv_scr_act s) s
        → map (look t) (children lv n i t) ≡ map (look s) (children lv n i s)
    unfolding children
    children-look zero i r h = refl
    children-look {s} {t} (suc n) i r h =
        let at : lv_obj_get_child (lv_scr_act t) i t ≡ lv_obj_get_child (lv_scr_act s) i s =
          ap (λ scr. lv_obj_get_child scr i t) r.same_screen ∙ r.same_child i (omega arith) in
        rw
          (
            at,
            map-prepend t (lv_obj_get_child (lv_scr_act s) i s) (children lv n (i + 1) t),
            map-prepend s (lv_obj_get_child (lv_scr_act s) i s) (children lv n (i + 1) s),
          )
          (ap₂ (λ xs ys. xs ++ ys)
            (same-child (lv_obj_get_child (lv_scr_act s) i s) r
              (λ c e. laws.child-valid (lv_scr_act s) i c s (laws.screen-valid s) e))
            (children-look n (i + 1) r (omega arith)))

    pub view-Same : {s t : Screen} → Same lv build s t → view t ≡ view s
    unfolding view pages
    view-Same {s} {t} same =
        let n : lv_obj_get_child_cnt (lv_scr_act t) t ≡ lv_obj_get_child_cnt (lv_scr_act s) s =
          ap (λ scr. lv_obj_get_child_cnt scr t) same.stays.same_screen ∙ same.same_count in
        rw n (children-look (lv_obj_get_child_cnt (lv_scr_act s) s) 0 same.stays (omega arith))

    pub view-Created :
        {upgrade : Bool} {o : ℕ} {s t : Screen}
        → Created lv build upgrade (lv_scr_act s) o s t
        → view t ≡ view s ++ (look t o ∷ [])
    unfolding view pages
    view-Created {o = o} {s} {t} c =
        let r = Created-Stays lv build laws c in
        let n = lv_obj_get_child_cnt (lv_scr_act s) s in
        let count : lv_obj_get_child_cnt (lv_scr_act t) t ≡ suc n =
          ap (λ scr. lv_obj_get_child_cnt scr t) c.same_screen ∙ c.one_more in
        let last : lv_obj_get_child (lv_scr_act t) (0 + n) t ≡ some o =
          ap₂ (λ scr k. lv_obj_get_child scr k t) c.same_screen (omega arith) ∙ c.last in
        ap (λ k. map (look t) (children lv k 0 t)) count
        ∙ ap (map (look t)) (children-snoc n 0 t)
        ∙ ap (λ k. map (look t) (children lv n 0 t ++ prepend lv k [])) last
        ∙ map-append (look t) (children lv n 0 t) (o ∷ [])
        ∙ ap (λ xs. xs ++ (look t o ∷ [])) (children-look n 0 r (omega arith))
