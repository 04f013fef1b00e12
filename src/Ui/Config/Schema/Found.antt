-- ===== src/Ui/Config/Schema/Found.antt =====
-- The pages of a configuration as ui/ui_display.c finds and shows them afterwards.
use frameworks_system_ota.Prelude.{
  is_given, ℕ, zero, suc, ◌+◌, ◌≡◌, refl, sym, ap, ◌∙◌, String, Bool, true, false, not, ◌&&◌, ◌||◌,
  Option, none, some, List, [], ◌∷◌, map, arith, Bool-cases, Option-cases, inl, inr, All, ◌==◌,
  ==_iff,
}
use frameworks_system_ota.Ui.Code.{success}
use frameworks_system_ota.Ui.Lvgl.{Lvgl, IsLvgl}
use frameworks_system_ota.Ui.Build.{IsBuild}
use frameworks_system_ota.Ui.Display.{
  has_name, find_from, ui_find_page, ui_page_show, ui_page_exist,
}
use frameworks_system_ota.Ui.Display.Search.{children, pages}
use frameworks_system_ota.Ui.Display.Exclusive.{contains, IsExclusive}
use frameworks_system_ota.Ui.Display.Show.{Shows, show-found}
use frameworks_system_ota.Ui.Refresh.{Ui}
use frameworks_system_ota.Ui.Config.Env.{Env}
use frameworks_system_ota.Ui.Config.Pages.{ui_page_config_init}
use frameworks_system_ota.Ui.Config.View.{look, view, view-empty}
use frameworks_system_ota.Ui.Config.Schema.{is_colour, valid_pages, hidden_pages, IsPage}
use frameworks_system_ota.Ui.Config.Schema.Init.{configured, ui_page_config_init_lem}

module _ (lv : Lvgl) where
  abbrev any_named : String → List (Option String × Bool) → Bool
  any_named name [] = false
  any_named name ((n, hidden) ∷ ps) = has_name lv name n || any_named name ps

  find_from-named :
      (n i : ℕ) (name : String) (s : lv.Screen)
      → is_given (find_from lv n i name s) ≡ any_named name (map (look lv s) (children lv n i s))
  unfolding find_from children
  find_from-named zero i name s = refl
  find_from-named (suc n) i name s =
      elim (Option-cases (lv.lv_obj_get_child (lv.lv_scr_act s) i s)) [
        | inl gone ↦ rw (gone, find_from) (find_from-named n (i + 1) name s)
        | inr (o, e) ↦ elim (Bool-cases (has_name lv name (lv.user_data o s))) [
          | inl same ↦ rw (e, find_from, same) refl
          | inr other ↦ rw (e, find_from, other) (find_from-named n (i + 1) name s)
        ]
      ]

  exist-named :
      (name : String) (s : lv.Screen) → ui_page_exist lv (some name) s ≡ any_named name (view lv s)
  unfolding ui_page_exist ui_find_page view pages
  exist-named name s =
      given_exists (find_from lv (lv.lv_obj_get_child_cnt (lv.lv_scr_act s) s) 0 name s)
      ∙ find_from-named (lv.lv_obj_get_child_cnt (lv.lv_scr_act s) s) 0 name s
    where
      given_exists : (o : Option ℕ) → elim o [ none ↦ false | some p ↦ true ] ≡ is_given o
      given_exists none = refl
      given_exists (some p) = refl

  abbrev all_hidden : List (Option String × Bool) → Bool
  all_hidden [] = true
  all_hidden ((n, hidden) ∷ ps) = hidden && all_hidden ps

  and-left : (a b : Bool) → a && b ≡ true → a ≡ true
  and-left a b h = ground arith

  and-right : (a b : Bool) → a && b ≡ true → b ≡ true
  and-right a b h = ground arith

  or-right : (a b : Bool) → a ≡ false → a || b ≡ true → b ≡ true
  or-right a b e h = ground arith

  hidden_member :
      (o : ℕ) (os : List ℕ) (s : lv.Screen)
      → contains o os ≡ true
      → all_hidden (map (look lv s) os) ≡ true
      → lv.is_hidden o s ≡ true
  hidden_member o [] s member h = cc member
  hidden_member o (x ∷ os) s member h = elim (Bool-cases (x == o)) [
    | inl same ↦
        rw (sym ((==_iff x o).0 same))
          (and-left (lv.is_hidden x s) (all_hidden (map (look lv s) os)) h)
    | inr other ↦
        hidden_member o os s (or-right (x == o) (contains o os) other member)
          (and-right (lv.is_hidden x s) (all_hidden (map (look lv s) os)) h)
  ]

  hidden-IsExclusive : (s : lv.Screen) → all_hidden (view lv s) ≡ true → IsExclusive lv s
  unfolding view
  hidden-IsExclusive s h = record {
    at_most_one = λ o p mo mp ho hp. let hidden = hidden_member o (pages lv s) s mo h in cc;
  }

module _ (env : Env) where
  open env use {lv, cj}

  -- A page with the name, the colour apart.
  abbrev pub names_page : String → List cj.Node → Bool
  names_page name [] = false
  names_page name (page ∷ pages) =
      (not (is_colour env (cj.key page)) && has_name lv name (cj.key page)) || names_page name pages

module _ (env : Env) (laws : IsBuild env.lv env.build) (flags : IsLvgl env.lv) where
  open env use {lv, cj}

  hidden_pages-named :
      (name : String) (pages : List cj.Node)
      → any_named lv name (hidden_pages env pages) ≡ names_page env name pages
  hidden_pages-named name [] = refl
  hidden_pages-named name (page ∷ pages) = elim (Bool-cases (is_colour env (cj.key page))) [
    | inl colour ↦ rw colour (hidden_pages-named name pages)
    | inr named ↦
        rw named (ap (λ b. has_name lv name (cj.key page) || b) (hidden_pages-named name pages))
  ]

  hidden_pages-hidden : (pages : List cj.Node) → all_hidden lv (hidden_pages env pages) ≡ true
  hidden_pages-hidden [] = refl
  hidden_pages-hidden (page ∷ pages) = elim (Bool-cases (is_colour env (cj.key page))) [
    | inl colour ↦ rw colour (hidden_pages-hidden pages)
    | inr named ↦ rw named (hidden_pages-hidden pages)
  ]

  configured_lem :
      (root : cj.Node)
      → (all_hidden lv (configured env root []) ≡ true)
        × ((name : String)
            → any_named lv name (configured env root [])
              ≡ valid_pages env (cj.children root) && names_page env name (cj.children root))
  configured_lem root = elim (Bool-cases (valid_pages env (cj.children root))) [
    | inl valid ↦
        rw valid (
          hidden_pages-hidden (cj.children root),
          λ name. hidden_pages-named name (cj.children root),
        )
    | inr invalid ↦ rw invalid (refl, λ name. refl)
  ]

  -- What a screen has that shows the pages of a configuration.
  pub configured-IsExclusive :
      (root : cj.Node) (s : lv.Screen)
      → view lv s ≡ configured env root []
      → IsExclusive lv s
        × ((name : String)
            → ui_page_exist lv (some name) s
              ≡ valid_pages env (cj.children root) && names_page env name (cj.children root))
  configured-IsExclusive root s seen =
      let (hidden, named) = configured_lem root in
      (
        hidden-IsExclusive lv s (ap (all_hidden lv) seen ∙ hidden),
        λ name. exist-named lv name s ∙ ap (any_named lv name) seen ∙ named name,
      )

  -- On an empty screen, a configuration whose pages and objects have names and whose labels name
  -- images: afterwards at most one page is not hidden, and a page with a name exists exactly where
  -- every page of the configuration is valid and one of them has the name.
  pub ui_page_exist_lem :
      (root : cj.Node) (ui : Ui lv)
      → All (IsPage env) (cj.children root)
      → lv.lv_obj_get_child_cnt (lv.lv_scr_act ui.screen) ui.screen ≡ 0
      → (ui' : Ui lv) × (ui_page_config_init env (some root) ui ≡ some (success, ui'))
        × IsExclusive lv ui'.screen
        × ((name : String)
            → ui_page_exist lv (some name) ui'.screen
              ≡ valid_pages env (cj.children root) && names_page env name (cj.children root))
  ui_page_exist_lem root ui is empty =
      let (ui', e, shown) = ui_page_config_init_lem env laws flags root ui is in
      let seen : view lv ui'.screen ≡ configured env root [] =
        shown ∙ ap (configured env root) (view-empty lv ui.screen empty) in
      let (exclusive, exists) = configured-IsExclusive root ui'.screen seen in
      (ui', e, exclusive, exists)

  pub found_page :
      (name : String) (s : lv.Screen)
      → ui_page_exist lv (some name) s ≡ true
      → (p : ℕ) × (ui_find_page lv name s ≡ some p)
  unfolding ui_page_exist
  found_page name s h = elim (Option-cases (ui_find_page lv name s)) [
    | inl missing ↦ let absent : false ≡ true = rw (missing, ui_page_exist) at h in cc absent
    | inr found ↦ found
  ]

  -- On an empty screen, a configuration whose pages are all valid and have names and whose labels name
  -- images: for each name of a page in it, `ui_page_show` succeeds afterwards and shows a page, with
  -- every other page hidden.
  pub page_show_configured :
      (root : cj.Node) (ui : Ui lv) (name : String)
      → All (IsPage env) (cj.children root)
      → lv.lv_obj_get_child_cnt (lv.lv_scr_act ui.screen) ui.screen ≡ 0
      → valid_pages env (cj.children root) ≡ true
      → names_page env name (cj.children root) ≡ true
      → (ui' : Ui lv) × (p : ℕ) × (ui_page_config_init env (some root) ui ≡ some (success, ui'))
        × ((ui_page_show lv name ui'.screen).0 ≡ success)
        × Shows lv flags p ui'.screen (ui_page_show lv name ui'.screen).1
  page_show_configured root ui name is empty valid listed =
      let (ui', e, exclusive, exists) = ui_page_exist_lem root ui is empty in
      let (p, found) = found_page name ui'.screen (exists name ∙ rw (valid, listed) refl) in
      let (ok, shows) = show-found lv flags name ui'.screen p exclusive found in
      (ui', p, e, ok, shows)
