-- ===== src/Ui/Display/Show.antt =====
-- `ui_page_show` and `ui_page_hide` of ui/ui_display.c, and the pages that are not hidden.
use mathlib.Core.Logic.{◌≢◌}
use frameworks_system_ota.Prelude.{
  ℕ, ◌≡◌, refl, ap, ◌∙◌, sym, Bool, true, false, String, none, some, List, [], ◌∷◌, ◌++◌, arith,
  inl, inr, ◌⊎◌, Bool-cases, if◌then◌else◌, ◌==◌, All,
}
use frameworks_system_ota.Ui.Code.{success, page_not_found}
use frameworks_system_ota.Ui.Lvgl.{Lvgl, SameObjects, IsLvgl}
use frameworks_system_ota.Ui.Display.{
  has_name, hide_others, ui_find_page, ui_page_show, ui_page_hide,
}
use frameworks_system_ota.Ui.Display.Search.{pages, IsFirst, ui_find_page_lem}
use frameworks_system_ota.Ui.Display.Exclusive.{
  contains, IsExclusive, SameObjects-refl, SameObjects-trans, pages-same, hidden_after,
  hide_others_lem,
}

contains-middle : (p : ℕ) (before after : List ℕ) → contains p (before ++ (p ∷ after)) ≡ true
contains-middle p [] after = ground arith
contains-middle p (x ∷ before) after = ground (arith, contains-middle p before after)

module _ (lv : Lvgl) (laws : IsLvgl lv) where
  open lv use {
    Screen, lv_scr_act, lv_obj_get_child_cnt, is_hidden, lv_obj_clear_flag, lv_obj_add_flag,
    lv_obj_is_visible, user_data,
  }

  -- From `s` to `t` nothing but flags changed, and then `p` is the one page that is not hidden.
  pub record Shows (p : ℕ) (s t : Screen) : Type 0 where
    pub objects : SameObjects lv s t
    pub listed : contains p (pages lv s) ≡ true
    pub shown : is_hidden p t ≡ false
    pub others : (o : ℕ) → contains o (pages lv s) ≡ true → o ≢ p → is_hidden o t ≡ true

  find-listed :
      (page_name : String) (s : Screen) (p : ℕ)
      → ui_find_page lv page_name s ≡ some p
      → contains p (pages lv s) ≡ true
  find-listed page_name s p e = elim (ui_find_page_lem lv page_name s) [
    | inl (q, found, first) ↦
        let same : p ≡ q = cc in rw (same, first.split) (contains-middle q first.before first.after)
    | inr (missing, all) ↦ cc
  ]

  -- The page is visible already: nothing is done.
  visible_Shows :
      (p : ℕ) (s : Screen)
      → IsExclusive lv s
      → contains p (pages lv s) ≡ true
      → lv_obj_is_visible p s ≡ true
      → Shows p s s
  visible_Shows p s ex listed visible = record {
    objects = SameObjects-refl lv s;
    listed = listed;
    shown = laws.visible-hidden p s visible;
    others = λ o there other. elim (Bool-cases (is_hidden o s)) [
      | inl hidden ↦ hidden
      | inr shown ↦
          absurd (other (ex.at_most_one o p there listed shown (laws.visible-hidden p s visible)))
    ];
  }

  abbrev after_show : ℕ → Screen → Screen
  after_show p s =
      let shown = lv_obj_clear_flag p s in
      hide_others lv (lv_obj_get_child_cnt (lv_scr_act shown) shown) 0 p shown

  self_shown : (p : ℕ) (listed before : Bool) → hidden_after lv p p listed before ≡ before
  self_shown p listed before = ground arith

  other_hidden : (p o : ℕ) (before : Bool) → o ≢ p → hidden_after lv p o true before ≡ true
  other_hidden p o before h = ground arith

  hide_Shows : (p : ℕ) (s : Screen) → contains p (pages lv s) ≡ true → Shows p s (after_show p s)
  unfolding pages
  hide_Shows p s listed =
      let clear = laws.clear-objects p s in
      let t = lv_obj_clear_flag p s in
      let (same, hidden) = hide_others_lem lv laws (lv_obj_get_child_cnt (lv_scr_act t) t) 0 p t in
      record {
        objects = SameObjects-trans lv clear same;
        listed = listed;
        shown = hidden p ∙ self_shown p _ (is_hidden p t) ∙ laws.hidden-clear p p s ∙ ground arith;
        others = λ o there other.
            hidden o
            ∙ ap (λ b. hidden_after lv p o b (is_hidden o t))
                (ap (contains o) (pages-same lv clear) ∙ there)
            ∙ other_hidden p o (is_hidden o t) other;
      }

  pub show-found :
      (page_name : String) (s : Screen) (p : ℕ)
      → IsExclusive lv s
      → ui_find_page lv page_name s ≡ some p
      → ((ui_page_show lv page_name s).0 ≡ success) × Shows p s (ui_page_show lv page_name s).1
  unfolding ui_page_show
  show-found page_name s p ex e =
      let listed = find-listed page_name s p e in
      elim (Bool-cases (lv_obj_is_visible p s)) [
        | inl visible ↦ rw (e, ui_page_show, visible) (refl, visible_Shows p s ex listed visible)
        | inr not_yet ↦ rw (e, ui_page_show, not_yet) (refl, hide_Shows p s listed)
      ]

  show-missing :
      (page_name : String) (s : Screen)
      → ui_find_page lv page_name s ≡ none
      → ui_page_show lv page_name s ≡ (page_not_found, s)
  unfolding ui_page_show
  show-missing page_name s e = rw (e, ui_page_show)

  -- On a screen with at most one page that is not hidden: either some page has the name, and then
  -- `ui_page_show` succeeds, the first such page is not hidden, every other page is, and the objects
  -- stay the same; or no page has it, and then UI_PAGE_NOT_FOUND is returned and nothing changes.
  pub show_exclusive :
      (page_name : String) (s : Screen)
      → IsExclusive lv s
      → ((p : ℕ) × IsFirst lv page_name p (pages lv s) s
          × (ui_find_page lv page_name s ≡ some p)
          × ((ui_page_show lv page_name s).0 ≡ success)
          × Shows p s (ui_page_show lv page_name s).1)
        ⊎ (All (λ o. has_name lv page_name (user_data o s) ≡ false) (pages lv s)
            × (ui_page_show lv page_name s ≡ (page_not_found, s)))
  show_exclusive page_name s ex = elim (ui_find_page_lem lv page_name s) [
    | inl (p, found, first) ↦
        let (ok, shows) = show-found page_name s p ex found in inl (p, first, found, ok, shows)
    | inr (missing, all) ↦ inr (all, show-missing page_name s missing)
  ]

  the_page :
      {p : ℕ} {s t : Screen} (o : ℕ)
      → Shows p s t
      → contains o (pages lv t) ≡ true
      → is_hidden o t ≡ false
      → o ≡ p
  the_page {p} {s} {t} o shows there shown = elim (Bool-cases (o == p)) [
    | inl same ↦ ground arith
    | inr other ↦
        let listed : contains o (pages lv s) ≡ true =
          ap (contains o) (sym (pages-same lv shows.objects)) ∙ there in
        let hidden : is_hidden o t ≡ true = shows.others o listed (ground arith) in cc
  ]

  Shows-IsExclusive : {p : ℕ} {s t : Screen} → Shows p s t → IsExclusive lv t
  Shows-IsExclusive shows = record {
    at_most_one = λ o q ho hq so sq. the_page o shows ho so ∙ sym (the_page q shows hq sq);
  }

  -- `ui_page_show` keeps the invariant that at most one page is not hidden.
  pub show-IsExclusive :
      (page_name : String) (s : Screen)
      → IsExclusive lv s
      → IsExclusive lv (ui_page_show lv page_name s).1
  show-IsExclusive page_name s ex = elim (show_exclusive page_name s ex) [
    | inl (p, first, found, ok, shows) ↦ Shows-IsExclusive shows
    | inr (all, same) ↦ rw same ex
  ]

  -- Hiding one more object keeps it too.
  add-IsExclusive : (p : ℕ) (s : Screen) → IsExclusive lv s → IsExclusive lv (lv_obj_add_flag p s)
  add-IsExclusive p s ex =
      let same = pages-same lv (laws.add-objects p s) in
      record {
        at_most_one = λ o q ho hq so sq.
            ex.at_most_one o q (rw same at ho) (rw same at hq)
              (was_shown p (is_hidden o s) o (rw laws.hidden-add at so))
              (was_shown p (is_hidden q s) q (rw laws.hidden-add at sq));
      }
    where
      was_shown :
          (p : ℕ) (before : Bool) (o : ℕ)
          → (if p == o then true else before) ≡ false
          → before ≡ false
      was_shown p before o h = ground arith

  pub hide-IsExclusive :
      (page_name : String) (s : Screen)
      → IsExclusive lv s
      → IsExclusive lv (ui_page_hide lv page_name s).1
  unfolding ui_page_hide
  hide-IsExclusive page_name s ex = elim (ui_find_page_lem lv page_name s) [
    | inl (p, found, first) ↦ elim (Bool-cases (lv_obj_is_visible p s)) [
      | inl visible ↦ rw (found, ui_page_hide, visible) (add-IsExclusive p s ex)
      | inr not_visible ↦ rw (found, ui_page_hide, not_visible) ex
    ]
    | inr (missing, all) ↦ rw (missing, ui_page_hide) ex
  ]
