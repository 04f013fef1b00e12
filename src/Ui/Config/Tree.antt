-- ===== src/Ui/Config/Tree.antt =====
-- What the calls of ui/ui_config_parse.c leave alone in LVGL's tree of objects: while the objects of a
-- page are made, the screen's children stay.
use frameworks_system_ota.Prelude.{
  ℕ, ◌<◌, ◌≡◌, ◌≢◌, refl, sym, ap, ◌∙◌, subst, Bool, true, false, inl, inr, Bool-cases,
}
use frameworks_system_ota.Ui.Lvgl.{Lvgl}
use frameworks_system_ota.Ui.Display.Exclusive.{SameObjects-refl, SameObjects-trans}
use frameworks_system_ota.Ui.Build.{Build, Created, Kept, KeptBut, IsBuild}

module _ (lv : Lvgl) (build : Build lv) where
  open lv use {Screen, lv_scr_act, lv_obj_get_child_cnt, lv_obj_get_child, user_data, is_hidden}
  open build use {lv_obj_is_valid}

  -- The objects of `s` are still there, in the same places, and look the same.
  pub record Stays (s t : Screen) : Type 0 where
    pub same_screen : lv_scr_act t ≡ lv_scr_act s
    pub still_valid : (q : ℕ) → lv_obj_is_valid q s ≡ true → lv_obj_is_valid q t ≡ true
    pub same_child :
        (i : ℕ)
        → i < lv_obj_get_child_cnt (lv_scr_act s) s
        → lv_obj_get_child (lv_scr_act s) i t ≡ lv_obj_get_child (lv_scr_act s) i s
    pub same_name : (q : ℕ) → lv_obj_is_valid q s ≡ true → user_data q t ≡ user_data q s
    pub same_hidden : (q : ℕ) → lv_obj_is_valid q s ≡ true → is_hidden q t ≡ is_hidden q s

  -- And the screen has no other children.
  pub record Same (s t : Screen) : Type 0 where
    pub stays : Stays s t
    pub same_count : lv_obj_get_child_cnt (lv_scr_act s) t ≡ lv_obj_get_child_cnt (lv_scr_act s) s

  -- An object that `t` has and `s` did not have.
  pub record IsNew (s t : Screen) (o : ℕ) : Type 0 where
    pub before : lv_obj_is_valid o s ≡ false
    pub now : lv_obj_is_valid o t ≡ true

  pub Same-refl : (s : Screen) → Same s s
  Same-refl s = record {
    stays = record {
      same_screen = refl;
      still_valid = λ q h. h;
      same_child = λ i h. refl;
      same_name = λ q h. refl;
      same_hidden = λ q h. refl;
    };
    same_count = refl;
  }

  pub Kept-refl : (s : Screen) → Kept lv build s s
  Kept-refl s = record {
    pages = record { objects = SameObjects-refl lv s; same_hidden = λ o. refl };
    same_valid = λ o. refl;
  }

  pub Kept-trans : {s t u : Screen} → Kept lv build s t → Kept lv build t u → Kept lv build s u
  Kept-trans a b = record {
    pages = record {
      objects = SameObjects-trans lv a.pages.objects b.pages.objects;
      same_hidden = λ o. b.pages.same_hidden o ∙ a.pages.same_hidden o;
    };
    same_valid = λ o. b.same_valid o ∙ a.same_valid o;
  }

  pub Same-Kept : {s t u : Screen} → Same s t → Kept lv build t u → Same s u
  Same-Kept {s} same k =
      let r = same.stays in
      let p = k.pages in
      let os = p.objects in
      record {
        stays = record {
          same_screen = os.same_screen ∙ r.same_screen;
          still_valid = λ q h. k.same_valid q ∙ r.still_valid q h;
          same_child = λ i h. os.same_child (lv_scr_act s) i ∙ r.same_child i h;
          same_name = λ q h. os.same_name q ∙ r.same_name q h;
          same_hidden = λ q h. p.same_hidden q ∙ r.same_hidden q h;
        };
        same_count = os.same_count (lv_scr_act s) ∙ same.same_count;
      }

  pub new_differs : {s t : Screen} {o q : ℕ} → IsNew s t o → lv_obj_is_valid q s ≡ true → q ≢ o
  new_differs {s} n h e = let r = n.before in cc (ap (λ p. lv_obj_is_valid p s) e)

  pub Same-KeptBut :
      {s t u : Screen} {o : ℕ} → Same s t → IsNew s t o → KeptBut lv build o t u → Same s u
  Same-KeptBut {s} same n k =
      let r = same.stays in
      record {
        stays = record {
          same_screen = k.same_screen ∙ r.same_screen;
          still_valid = λ q h. k.same_valid q ∙ r.still_valid q h;
          same_child = λ i h. k.same_child (lv_scr_act s) i ∙ r.same_child i h;
          same_name = λ q h. k.same_name q (new_differs n h) ∙ r.same_name q h;
          same_hidden = λ q h. k.same_hidden q ∙ r.same_hidden q h;
        };
        same_count = k.same_count (lv_scr_act s) ∙ same.same_count;
      }

  pub IsNew-Kept : {s t u : Screen} {o : ℕ} → IsNew s t o → Kept lv build t u → IsNew s u o
  IsNew-Kept {o = o} n k = record { before = n.before; now = k.same_valid o ∙ n.now }

  pub Created-Stays :
      {upgrade : Bool} {parent o : ℕ} {s t : Screen}
      → IsBuild lv build
      → Created lv build upgrade parent o s t
      → Stays s t
  Created-Stays {s = s} laws c = record {
    same_screen = c.same_screen;
    still_valid = c.still_valid;
    same_child = λ i h. c.same_child (lv_scr_act s) i (laws.screen-valid s) h;
    same_name = c.same_name;
    same_hidden = c.same_hidden;
  }

  not_before :
      {s t : Screen} (o : ℕ) → Stays s t → lv_obj_is_valid o t ≡ false → lv_obj_is_valid o s ≡ false
  not_before {s} o r h = elim (Bool-cases (lv_obj_is_valid o s)) [
    | inl valid ↦ let v = r.still_valid o valid in cc (h, v)
    | inr e ↦ e
  ]

  module _ (laws : IsBuild lv build) where
    -- An object inside a new one.
    pub Same-Created :
        {upgrade : Bool} {parent o : ℕ} {s t u : Screen}
        → Same s t
        → parent ≢ lv_scr_act s
        → Created lv build upgrade parent o t u
        → Same s u × IsNew s u o
    Same-Created {parent = parent} {o} {s} {t} same d c =
        let r = same.stays in
        let scr = r.still_valid (lv_scr_act s) (laws.screen-valid s) in
        (
          record {
            stays = record {
              same_screen = c.same_screen ∙ r.same_screen;
              still_valid = λ q h. c.still_valid q (r.still_valid q h);
              same_child = λ i h.
                  c.same_child (lv_scr_act s) i scr (subst (λ k. i < k) (sym same.same_count) h)
                  ∙ r.same_child i h;
              same_name = λ q h. c.same_name q (r.still_valid q h) ∙ r.same_name q h;
              same_hidden = λ q h. c.same_hidden q (r.still_valid q h) ∙ r.same_hidden q h;
            };
            same_count = c.same_count (lv_scr_act s) scr (λ e. d (sym e)) ∙ same.same_count;
          },
          record { before = not_before o r c.was_invalid; now = c.now_valid },
        )
