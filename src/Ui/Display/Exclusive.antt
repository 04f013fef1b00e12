-- ===== src/Ui/Display/Exclusive.antt =====
-- The loop of `ui_page_show` of ui/ui_display.c that hides the other pages, and the invariant that at
-- most one page is not hidden.
use frameworks_system_ota.Prelude.{
  ℕ, zero, suc, ◌+◌, ◌≡◌, refl, ap, ◌∙◌, Bool, true, false, not, ◌&&◌, ◌||◌, Option, List, [], ◌∷◌,
  arith, inl, inr, Bool-cases, Option-cases, if◌then◌else◌, ◌==◌,
}
use frameworks_system_ota.Ui.Lvgl.{Lvgl, SameObjects, IsLvgl}
use frameworks_system_ota.Ui.Display.{hide_others}
use frameworks_system_ota.Ui.Display.Search.{prepend, children, pages}

-- Whether the object is in the list.
abbrev pub contains : ℕ → List ℕ → Bool
contains o [] = false
contains o (x ∷ xs) = x == o || contains o xs

module _ (lv : Lvgl) where
  open lv use {Screen, lv_scr_act, lv_obj_get_child_cnt, lv_obj_get_child, is_hidden}

  -- At most one page is not hidden.
  pub record IsExclusive (s : Screen) : Type 0 where
    pub at_most_one :
        (o p : ℕ)
        → contains o (pages lv s) ≡ true
        → contains p (pages lv s) ≡ true
        → is_hidden o s ≡ false
        → is_hidden p s ≡ false
        → o ≡ p

  pub SameObjects-refl : (s : Screen) → SameObjects lv s s
  SameObjects-refl s = record {
    same_screen = refl;
    same_count = λ o. refl;
    same_child = λ o i. refl;
    same_name = λ o. refl;
    same_class = λ o. refl;
  }

  pub SameObjects-trans :
      {s t u : Screen} → SameObjects lv s t → SameObjects lv t u → SameObjects lv s u
  SameObjects-trans a b = record {
    same_screen = b.same_screen ∙ a.same_screen;
    same_count = λ o. b.same_count o ∙ a.same_count o;
    same_child = λ o i. b.same_child o i ∙ a.same_child o i;
    same_name = λ o. b.same_name o ∙ a.same_name o;
    same_class = λ o. b.same_class o ∙ a.same_class o;
  }

  children-same :
      (n i : ℕ) {s t : Screen} → SameObjects lv s t → children lv n i t ≡ children lv n i s
  unfolding children
  children-same zero i same = refl
  children-same (suc n) i {s} {t} same =
      ap (λ (c : Option ℕ). prepend lv c (children lv n (i + 1) t))
        (same.same_child (lv_scr_act t) i ∙ ap (λ scr. lv_obj_get_child scr i s) same.same_screen)
      ∙ ap (prepend lv (lv_obj_get_child (lv_scr_act s) i s)) (children-same n (i + 1) same)

  pub pages-same : {s t : Screen} → SameObjects lv s t → pages lv t ≡ pages lv s
  unfolding pages
  pages-same {s} {t} same =
      ap (λ n. children lv n 0 t)
        (same.same_count (lv_scr_act t) ∙ ap (λ scr. lv_obj_get_child_cnt scr s) same.same_screen)
      ∙ children-same (lv_obj_get_child_cnt (lv_scr_act s) s) 0 same

  -- The pages that the loop hides.
  abbrev pub hidden_after : ℕ → ℕ → Bool → Bool → Bool
  hidden_after p o listed before = if listed && not (o == p) then true else before

  module _ (laws : IsLvgl lv) where
    open lv use {lv_obj_add_flag}

    -- One round at an object: `hide page` where it is not the page to show.
    abbrev hide_one : ℕ → ℕ → Screen → Screen
    hide_one p page s = if page == p then s else lv_obj_add_flag page s

    hide_one-objects : (p page : ℕ) (s : Screen) → SameObjects lv s (hide_one p page s)
    hide_one-objects p page s = elim (Bool-cases (page == p)) [
      | inl same ↦ rw same (SameObjects-refl s)
      | inr other ↦ rw other (laws.add-objects page s)
    ]

    hide_one-hidden :
        (p page o : ℕ) (s : Screen)
        → is_hidden o (hide_one p page s) ≡ hidden_after p o (page == o) (is_hidden o s)
    hide_one-hidden p page o s = elim (Bool-cases (page == p)) [
      | inl same ↦ rw same (ground arith)
      | inr other ↦ rw (other, laws.hidden-add page o s) (ground arith)
    ]

    hidden_after-cons :
        (p o : ℕ) (listed here before : Bool)
        → hidden_after p o listed (hidden_after p o here before)
          ≡ hidden_after p o (here || listed) before
    hidden_after-cons p o listed here before = ground arith

    pub hide_others_lem :
        (n i p : ℕ) (s : Screen)
        → SameObjects lv s (hide_others lv n i p s)
          × ((o : ℕ)
              → is_hidden o (hide_others lv n i p s)
                ≡ hidden_after p o (contains o (children lv n i s)) (is_hidden o s))
    unfolding hide_others children
    hide_others_lem zero i p s = (SameObjects-refl s, λ o. refl)
    hide_others_lem (suc n) i p s = elim (Option-cases (lv_obj_get_child (lv_scr_act s) i s)) [
      | inl gone ↦ rw (gone, hide_others) (hide_others_lem n (i + 1) p s)
      | inr (page, e) ↦
          let here = hide_one-objects p page s in
          let (same, hidden) = hide_others_lem n (i + 1) p (hide_one p page s) in
          rw (e, hide_others)
            ((
              SameObjects-trans here same,
              λ o.
                  hidden o
                  ∙ ap (λ os. hidden_after p o (contains o os) (is_hidden o (hide_one p page s)))
                      (children-same n (i + 1) here)
                  ∙ ap (hidden_after p o (contains o (children lv n (i + 1) s)))
                      (hide_one-hidden p page o s)
                  ∙ hidden_after-cons p o (contains o (children lv n (i + 1) s)) (page == o)
                      (is_hidden o s),
            ))
    ]
