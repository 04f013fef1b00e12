-- ===== src/Ui/Display/Search.antt =====
-- `ui_find_page` of ui/ui_display.c and the list of pages.
use text.Mathlib.TextEquality.{eq_iff}
use frameworks_system_ota.Prelude.{
  ℕ, zero, suc, ◌+◌, ◌≡◌, refl, ap, true, false, String, Option, none, some, List, [], ◌∷◌, ◌++◌,
  inl, inr, ◌⊎◌, Bool-cases, Option-cases, if◌then◌else◌, All,
}
use frameworks_system_ota.Ui.Lvgl.{Lvgl}
use frameworks_system_ota.Ui.Display.{has_name, find_from, ui_find_page}

module _ (lv : Lvgl) where
  open lv use {Screen, lv_scr_act, lv_obj_get_child_cnt, lv_obj_get_child, user_data}

  abbrev pub prepend : Option ℕ → List ℕ → List ℕ
  prepend none os = os
  prepend (some o) os = o ∷ os

  -- The children of the active screen from index `i` on, over the `n` left.
  unfoldable pub children : ℕ → ℕ → Screen → List ℕ
  children zero i s = []
  children (suc n) i s = prepend (lv_obj_get_child (lv_scr_act s) i s) (children n (i + 1) s)

  -- The pages, in LVGL's order.
  unfoldable pub pages : Screen → List ℕ
  unfolding children
  pages s = children (lv_obj_get_child_cnt (lv_scr_act s) s) 0 s

  -- `p` is the first of the objects with this name.
  pub record IsFirst (page_name : String) (p : ℕ) (os : List ℕ) (s : Screen) : Type 0 where
    pub before : List ℕ
    pub after : List ℕ
    pub split : os ≡ before ++ (p ∷ after)
    pub named : user_data p s ≡ some page_name
    pub others : All (λ o. has_name lv page_name (user_data o s) ≡ false) before

  has_name-eq :
      (page_name : String) (o : Option String) → has_name lv page_name o ≡ true → o ≡ some page_name
  has_name-eq page_name none h = cc
  has_name-eq page_name (some n) h = ap some ((eq_iff n page_name).0 h)

  abbrev Finds : String → Option ℕ → List ℕ → Screen → Type 0
  Finds page_name found os s =
      ((p : ℕ) × (found ≡ some p) × IsFirst page_name p os s)
      ⊎ ((found ≡ none) × All (λ o. has_name lv page_name (user_data o s) ≡ false) os)

  -- One more object in front.
  Finds-cons :
      (page_name : String) (found : Option ℕ) (o : ℕ) (os : List ℕ) (s : Screen)
      → Finds page_name found os s
      → Finds page_name (if has_name lv page_name (user_data o s) then some o else found) (o ∷ os) s
  Finds-cons page_name found o os s f = elim (Bool-cases (has_name lv page_name (user_data o s))) [
    | inl same ↦ rw same (
        inl (
          o,
          refl,
          record {
            before = [];
            after = os;
            split = refl;
            named = has_name-eq page_name (user_data o s) same;
            others = tt;
          },
        ))
    | inr other ↦ rw other (elim f [
      | inl (p, e, first) ↦ inl (
        p,
        e,
        record {
          before = o ∷ first.before;
          after = first.after;
          split = ap (λ xs. o ∷ xs) first.split;
          named = first.named;
          others = (other, first.others);
        },
      )
      | inr (e, all) ↦ inr (e, (refl, all))
    ])
  ]

  find_from_lem :
      (n i : ℕ) (page_name : String) (s : Screen)
      → Finds page_name (find_from lv n i page_name s) (children n i s) s
  unfolding find_from children
  find_from_lem zero i page_name s = inr (refl, tt)
  find_from_lem (suc n) i page_name s = elim (Option-cases (lv_obj_get_child (lv_scr_act s) i s)) [
    | inl gone ↦ rw (gone, find_from) (find_from_lem n (i + 1) page_name s)
    | inr (o, e) ↦
        rw (e, find_from)
          (Finds-cons page_name (find_from lv n (i + 1) page_name s) o (children n (i + 1) s) s
            (find_from_lem n (i + 1) page_name s))
  ]

  -- `ui_find_page` returns the first page that has the name, and NULL exactly if no page has it.
  pub ui_find_page_lem :
      (page_name : String) (s : Screen)
      → ((p : ℕ) × (ui_find_page lv page_name s ≡ some p) × IsFirst page_name p (pages s) s)
        ⊎ ((ui_find_page lv page_name s ≡ none)
            × All (λ o. has_name lv page_name (user_data o s) ≡ false) (pages s))
  unfolding ui_find_page pages
  ui_find_page_lem page_name s = find_from_lem (lv_obj_get_child_cnt (lv_scr_act s) s) 0 page_name s
