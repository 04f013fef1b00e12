-- ===== src/Tests/Objects.antt =====
-- A screen whose objects can be created, for the tests of ui/ui_config_parse.c: the active screen is
-- object 0, and the others are numbered in the order of their creation.
use frameworks_system_ota.Prelude.{
  ℕ, zero, suc, ◌≤◌, ◌<◌, ◌≡◌, ◌≢◌, refl, sym, ap, ◌∙◌, String, Bool, true, false, not, ◌&&◌,
  Option, none, some, List, [], ◌∷◌, ◌++◌, length, get_elem?, get_elem?-append_length,
  get_elem?-append_left, length-append, arith, ◌==◌, leb, if◌then◌else◌, Bool-cases, inl, inr,
  ==_iff, ◌-◌, All, subst, some-inj, append-nil,
}
use frameworks_system_ota.Prelude.Int.{pos}
use frameworks_system_ota.Ui.Lvgl.{Lvgl, SameObjects, SamePages, IsLvgl}
use frameworks_system_ota.Ui.Build.{Build, Created, Kept, KeptBut, IsBuild}
use frameworks_system_ota.Ui.Config.Tree.{Kept-refl}

-- The parents of the objects, the newest first.
pub record Objects : Type 0 where
  pub parents : List ℕ
  pub name : ℕ → Option String
  pub hidden : ℕ → Bool
  pub upgrade : ℕ → Bool

-- The children of `p`, the oldest first.
abbrev pub kids : ℕ → List ℕ → List ℕ
kids p [] = []
kids p (parent ∷ ps) =
    kids p ps ++ (if parent == p && leb p (length ps) then suc (length ps) ∷ [] else [])

abbrev pub add : {A : Type 0} → ℕ → A → (ℕ → A) → ℕ → A
add o a f q = if o == q then a else f q

abbrev pub create : Bool → ℕ → Objects → ℕ × Objects
create upgrade parent s =
    let o = suc (length s.parents) in
    (o, record s { parents = parent ∷ s.parents; upgrade = add o upgrade s.upgrade })

abbrev pub objects_lv : Lvgl
objects_lv = record {
  Screen = Objects;
  lv_scr_act = λ s. 0;
  lv_obj_get_child_cnt = λ o s. length (kids o s.parents);
  lv_obj_get_child = λ o i s. get_elem? (kids o s.parents) i;
  user_data = λ o s. s.name o;
  is_hidden = λ o s. s.hidden o;
  lv_obj_clear_flag = λ o s. record s { hidden = add o false s.hidden };
  lv_obj_add_flag = λ o s. record s { hidden = add o true s.hidden };
  lv_obj_is_visible = λ o s. not (s.hidden o);
  is_upgrade = λ o s. s.upgrade o;
  lv_obj_set_size = λ o w h s. s;
  lv_obj_invalidate = λ o s. s;
  lv_refr_now = λ s. s;
  lv_timer_handler = λ s. (0, s);
}

abbrev pub objects_build : Build objects_lv
objects_build = record {
  lv_obj_is_valid = λ o s. leb o (length s.parents);
  lv_obj_create = create false;
  lv_img_create = create false;
  create_upgrade = create true;
  lv_arc_create = create false;
  lv_obj_get_parent = λ o s. get_elem? s.parents (length s.parents - o);
  lv_obj_remove_style = λ o s. s;
  lv_obj_set_style_bg_color = λ o c s. s;
  lv_obj_set_style_bg_opa = λ o s. s;
  lv_obj_set_style_pad_all = λ o n s. s;
  style_arc = λ o s. s;
  lv_obj_set_pos = λ o x y s. s;
  lv_obj_align = λ o a x y s. s;
  lv_obj_add_event = λ o s. s;
  lv_image_set_src = λ o bytes s. s;
  lv_image_set_offset_y = λ o y s. s;
  set_name = λ o k s. record s { name = add o (some k) s.name };
  set_bytes = λ o bytes s. record s { name = add o none s.name };
  lv_obj_clean = λ o s. record s { parents = [] };
  lv_hor_res = λ s. pos 466;
  lv_ver_res = λ s. pos 466;
  dsc_size = 4;
  header_size = 2;
  put_dsc = λ n bytes. bytes;
  image_of = λ bytes. record { w = 10; h = 20 };
}

objects_same :
    (s t : Objects)
    → s.parents ≡ t.parents
    → s.name ≡ t.name
    → s.upgrade ≡ t.upgrade
    → SameObjects objects_lv s t
objects_same s t ps ns us = record {
  same_screen = refl;
  same_count = λ o. ap (λ ps. length (kids o ps)) (sym ps);
  same_child = λ o i. ap (λ ps. get_elem? (kids o ps) i) (sym ps);
  same_name = λ o. ap (λ f. f o) (sym ns);
  same_class = λ o. ap (λ f. f o) (sym us);
}

pages_same : (s : Objects) → SamePages objects_lv s s
pages_same s = record { objects = objects_same s s refl refl refl; same_hidden = λ o. refl }

visible_shown : (b : Bool) → not b ≡ true → b ≡ false
visible_shown true h = cc
visible_shown false h = refl

pub objects-IsLvgl : IsLvgl objects_lv
objects-IsLvgl = record {
  clear-objects = λ o s. objects_same s _ refl refl refl;
  add-objects = λ o s. objects_same s _ refl refl refl;
  hidden-clear = λ o p s. refl;
  hidden-add = λ o p s. refl;
  visible-hidden = λ o s h. visible_shown (s.hidden o) h;
  set_size-pages = λ o w h s. pages_same s;
  invalidate-pages = λ o s. pages_same s;
  refr-pages = λ s. pages_same s;
  timer-pages = λ s. pages_same s;
}

-- No number beyond the objects has children, and no child is beyond the objects.
no_kid : (p parent n : ℕ) → n < p → (if parent == p && leb p n then suc n ∷ [] else []) ≡ []
no_kid p parent n h = ground arith

kids_beyond : (p : ℕ) (ps : List ℕ) → length ps < p → kids p ps ≡ []
kids_beyond p [] h = refl
kids_beyond p (parent ∷ ps) h =
    rw (kids_beyond p ps (omega arith)) (no_kid p parent (length ps) (omega arith))

All-get : (P : ℕ → Type 0) (xs : List ℕ) (i x : ℕ) → All P xs → get_elem? xs i ≡ some x → P x
All-get P [] i x h e = cc e
All-get P (y ∷ xs) zero x (h, hs) e = subst P (some-inj e) h
All-get P (y ∷ xs) (suc i) x (h, hs) e = All-get P xs i x hs e

All-append : (P : ℕ → Type 0) (xs ys : List ℕ) → All P xs → All P ys → All P (xs ++ ys)
All-append P [] ys h k = k
All-append P (x ∷ xs) ys (h, hs) k = (h, All-append P xs ys hs k)

All-later : (n : ℕ) (xs : List ℕ) → All (λ c. c ≤ n) xs → All (λ c. c ≤ suc n) xs
All-later n [] h = tt
All-later n (x ∷ xs) (h, hs) = (omega arith, All-later n xs hs)

one_kid : (n : ℕ) (b : Bool) → All (λ c. c ≤ suc n) (if b then suc n ∷ [] else [])
one_kid n true = (omega arith, tt)
one_kid n false = tt

kids_below : (p : ℕ) (ps : List ℕ) → All (λ c. c ≤ length ps) (kids p ps)
kids_below p [] = tt
kids_below p (parent ∷ ps) =
    All-append (λ c. c ≤ suc (length ps)) (kids p ps) _
      (All-later (length ps) (kids p ps) (kids_below p ps))
      (one_kid (length ps) (parent == p && leb p (length ps)))

leb_of : (m n : ℕ) → m ≤ n → leb m n ≡ true
leb_of m n h = ground arith

le_of : (m n : ℕ) → leb m n ≡ true → m ≤ n
le_of m n h = ground arith

-- The children after a creation.
kids_parent :
    (p : ℕ) (ps : List ℕ)
    → leb p (length ps) ≡ true
    → kids p (p ∷ ps) ≡ kids p ps ++ (suc (length ps) ∷ [])
kids_parent p ps h = rw (h, (==_iff p p).1 refl) refl

kids_other : (p q : ℕ) (ps : List ℕ) → q ≢ p → kids q (p ∷ ps) ≡ kids q ps
kids_other p q ps d = elim (Bool-cases (p == q)) [
  | inl e ↦ absurd (d (sym ((==_iff p q).0 e)))
  | inr e ↦ rw e (append-nil (kids q ps))
]

kids_kept :
    (p q i : ℕ) (ps : List ℕ)
    → i < length (kids q ps)
    → get_elem? (kids q (p ∷ ps)) i ≡ get_elem? (kids q ps) i
kids_kept p q i ps h = get_elem?-append_left (kids q ps) _ i h

add_other : {A : Type 0} (n q : ℕ) (a : A) (f : ℕ → A) → leb q n ≡ true → add (suc n) a f q ≡ f q
add_other n q a f h = elim (Bool-cases (suc n == q)) [
  | inl e ↦ absurd (grind (arith, e, h))
  | inr e ↦ rw e refl
]

objects-Created :
    (upgrade : Bool) (p : ℕ) (s : Objects)
    → leb p (length s.parents) ≡ true
    → Created objects_lv objects_build upgrade p (create upgrade p s).0 s (create upgrade p s).1
objects-Created upgrade p s h =
    let n = length s.parents in
    record {
      same_screen = refl;
      was_invalid = ground arith;
      now_valid = leb_of (suc n) (suc n) (omega arith);
      still_valid = λ q v. leb_of q (suc n) (let l = le_of q n v in omega arith);
      one_more =
          ap length (kids_parent p s.parents h)
          ∙ length-append (kids p s.parents) (suc n ∷ [])
          ∙ omega arith;
      last =
          ap (λ xs. get_elem? xs (length (kids p s.parents))) (kids_parent p s.parents h)
          ∙ get_elem?-append_length (kids p s.parents) (suc n) [];
      same_count = λ q v d. ap length (kids_other p q s.parents d);
      same_child = λ q i v l. kids_kept p q i s.parents l;
      no_children = ap length (
          kids_other p (suc n) s.parents (λ e. let l = le_of p n h in absurd (omega arith))
          ∙ kids_beyond (suc n) s.parents (omega arith));
      same_name = λ q v. refl;
      same_hidden = λ q v. refl;
      same_class = λ q v. add_other n q upgrade s.upgrade v;
      class_of = rw ((==_iff (suc n) (suc n)).1 refl) refl;
    }

kept : (s : Objects) → Kept objects_lv objects_build s s
kept s = Kept-refl objects_lv objects_build s

named :
    (o : ℕ) (k : Option String) (s : Objects)
    → KeptBut objects_lv objects_build o s (record s { name = add o k s.name })
named o k s = record {
  same_screen = refl;
  same_valid = λ q. refl;
  same_count = λ q. refl;
  same_child = λ q i. refl;
  same_name = λ q d. other_name q d;
  same_hidden = λ q. refl;
  same_class = λ q. refl;
}
  where
    other_name : (q : ℕ) → q ≢ o → add o k s.name q ≡ s.name q
    other_name q d = elim (Bool-cases (o == q)) [
      | inl e ↦ absurd (d (sym ((==_iff o q).0 e)))
      | inr e ↦ rw e refl
    ]

pub objects-IsBuild : IsBuild objects_lv objects_build
objects-IsBuild = record {
  screen-valid = λ s. leb_of 0 (length s.parents) (omega arith);
  child-valid = λ q i c s v e.
      leb_of c (length s.parents)
        (All-get (λ c. c ≤ length s.parents) (kids q s.parents) i c (kids_below q s.parents) e);
  obj-created = objects-Created false;
  img-created = objects-Created false;
  upgrade-created = objects-Created true;
  arc-created = objects-Created false;
  remove_style-kept = λ o s. kept s;
  bg_color-kept = λ o c s. kept s;
  bg_opa-kept = λ o s. kept s;
  pad_all-kept = λ o n s. kept s;
  style_arc-kept = λ o s. kept s;
  set_pos-kept = λ o x y s. kept s;
  set_size-kept = λ o w h s. kept s;
  align-kept = λ o a x y s. kept s;
  add_event-kept = λ o s. kept s;
  set_src-kept = λ o bytes s. kept s;
  offset_y-kept = λ o y s. kept s;
  add_flag-valid = λ o q s. refl;
  set_name-kept = λ o k s. named o (some k) s;
  set_name-name = λ o k s. rw ((==_iff o o).1 refl) refl;
  set_bytes-kept = λ o bytes s. named o none s;
  clean-screen = λ s. refl;
  clean-count = λ s. refl;
}

abbrev pub empty_screen : objects_lv.Screen
empty_screen = record { parents = []; name = λ o. none; hidden = λ o. false; upgrade = λ o. false }
