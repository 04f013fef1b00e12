-- ===== src/Ui/Config/Created.antt =====
-- A page that ui/ui_config_parse.c has created, while it is set up: the later calls keep what its
-- creation gave.
use frameworks_system_ota.Prelude.{
  ℕ, ◌≡◌, ◌≢◌, refl, sym, ap, ◌∙◌, Bool, true, inl, inr, Bool-cases, ◌==◌, ==_iff,
}
use frameworks_system_ota.Ui.Lvgl.{Lvgl, IsLvgl}
use frameworks_system_ota.Ui.Build.{Build, Created, Kept, KeptBut, IsBuild}

module _ (lv : Lvgl) (build : Build lv) where
  open lv use {Screen, lv_scr_act, lv_obj_get_child_cnt, lv_obj_get_child, user_data, is_hidden}
  open build use {lv_obj_is_valid}

  module _ (laws : IsBuild lv build) where
    pub old_differs :
        {upgrade : Bool} {parent o q : ℕ} {s t : Screen}
        → Created lv build upgrade parent o s t
        → lv_obj_is_valid q s ≡ true
        → q ≢ o
    old_differs {s = s} c h e = let r = c.was_invalid in cc (ap (λ p. lv_obj_is_valid p s) e)

    hidden_old :
        {upgrade : Bool} {parent o q : ℕ} {s t : Screen}
        → IsLvgl lv
        → Created lv build upgrade parent o s t
        → lv_obj_is_valid q s ≡ true
        → is_hidden q (lv.lv_obj_add_flag o t) ≡ is_hidden q t
    hidden_old {o = o} {q} {t = t} flags c h =
        let d = old_differs c h in
        elim (Bool-cases (o == q)) [
          | inl e ↦ absurd (d (sym ((==_iff o q).0 e)))
          | inr e ↦ rw (flags.hidden-add o q t, e) refl
        ]

    -- A later change that keeps the tree keeps what the creation gave.
    pub Created-Kept :
        {upgrade : Bool} {parent o : ℕ} {s t u : Screen}
        → Created lv build upgrade parent o s t
        → Kept lv build t u
        → Created lv build upgrade parent o s u
    Created-Kept {parent = parent} {o} {s} c k =
        let p = k.pages in
        let os = p.objects in
        record {
          same_screen = os.same_screen ∙ c.same_screen;
          was_invalid = c.was_invalid;
          now_valid = k.same_valid o ∙ c.now_valid;
          still_valid = λ q h. k.same_valid q ∙ c.still_valid q h;
          one_more = os.same_count parent ∙ c.one_more;
          last = os.same_child parent (lv_obj_get_child_cnt parent s) ∙ c.last;
          same_count = λ q h d. os.same_count q ∙ c.same_count q h d;
          same_child = λ q i h l. os.same_child q i ∙ c.same_child q i h l;
          no_children = os.same_count o ∙ c.no_children;
          same_name = λ q h. os.same_name q ∙ c.same_name q h;
          same_hidden = λ q h. p.same_hidden q ∙ c.same_hidden q h;
          same_class = λ q h. os.same_class q ∙ c.same_class q h;
          class_of = os.same_class o ∙ c.class_of;
        }

    -- So does a change of the user data or of the hidden flag of the new object.
    pub Created-KeptBut :
        {upgrade : Bool} {parent o : ℕ} {s t u : Screen}
        → Created lv build upgrade parent o s t
        → KeptBut lv build o t u
        → Created lv build upgrade parent o s u
    Created-KeptBut {parent = parent} {o} {s} c k = record {
      same_screen = k.same_screen ∙ c.same_screen;
      was_invalid = c.was_invalid;
      now_valid = k.same_valid o ∙ c.now_valid;
      still_valid = λ q h. k.same_valid q ∙ c.still_valid q h;
      one_more = k.same_count parent ∙ c.one_more;
      last = k.same_child parent (lv_obj_get_child_cnt parent s) ∙ c.last;
      same_count = λ q h d. k.same_count q ∙ c.same_count q h d;
      same_child = λ q i h l. k.same_child q i ∙ c.same_child q i h l;
      no_children = k.same_count o ∙ c.no_children;
      same_name = λ q h. k.same_name q (old_differs c h) ∙ c.same_name q h;
      same_hidden = λ q h. k.same_hidden q ∙ c.same_hidden q h;
      same_class = λ q h. k.same_class q ∙ c.same_class q h;
      class_of = k.same_class o ∙ c.class_of;
    }

    pub Created-hidden :
        {upgrade : Bool} {parent o : ℕ} {s t : Screen}
        → IsLvgl lv
        → Created lv build upgrade parent o s t
        → Created lv build upgrade parent o s (lv.lv_obj_add_flag o t)
    Created-hidden {parent = parent} {o} {s} {t} flags c =
        let os = flags.add-objects o t in
        record {
          same_screen = os.same_screen ∙ c.same_screen;
          was_invalid = c.was_invalid;
          now_valid = laws.add_flag-valid o o t ∙ c.now_valid;
          still_valid = λ q h. laws.add_flag-valid o q t ∙ c.still_valid q h;
          one_more = os.same_count parent ∙ c.one_more;
          last = os.same_child parent (lv_obj_get_child_cnt parent s) ∙ c.last;
          same_count = λ q h d. os.same_count q ∙ c.same_count q h d;
          same_child = λ q i h l. os.same_child q i ∙ c.same_child q i h l;
          no_children = os.same_count o ∙ c.no_children;
          same_name = λ q h. os.same_name q ∙ c.same_name q h;
          same_hidden = λ q h. hidden_old flags c h ∙ c.same_hidden q h;
          same_class = λ q h. os.same_class q ∙ c.same_class q h;
          class_of = os.same_class o ∙ c.class_of;
        }
