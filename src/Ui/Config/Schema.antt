-- ===== src/Ui/Config/Schema.antt =====
-- Which configurations ui/ui_config_parse.c accepts, written apart from the code.
pub mod Objects
pub mod Items
pub mod Contents
pub mod Labels
pub mod Screen
pub mod Init
pub mod Found
use text.Mathlib.Text.{◌==◌ as str_eq, starts_with}
use frameworks_system_ota.Prelude.{
  is_given, ℕ, ◌+◌, ◌≤◌, ◌≡◌, String, Bool, true, false, ◌&&◌, ◌||◌, not, Option, none, some, List,
  [], ◌∷◌, map, length, All, if◌then◌else◌,
}
use frameworks_system_ota.Prelude.Int.{pos}
use frameworks_system_ota.Ui.Config.Cjson.{number_item, text_of, children_of}
use frameworks_system_ota.Ui.Config.Env.{Env}
use frameworks_system_ota.Ui.Config.Files.{is_open}
use frameworks_system_ota.Ui.Config.Images.{accepts}

module _ (env : Env) where
  open env use {cj, os, build}

  -- `name` of the area is a number.
  abbrev pub has_number : cj.Node → String → Bool
  has_number object name = is_given (number_item cj (cj.get_object_item object "area") name)

  -- The area has its four numbers.
  abbrev pub has_area : cj.Node → Bool
  has_area object =
      has_number object "x"
      && has_number object "y"
      && has_number object "w"
      && has_number object "h"

  abbrev pub valid_progress : cj.Node → Bool
  valid_progress object =
      has_area object
      && accepts (text_of cj (cj.get_object_item object "mode"))
          (length (children_of cj (cj.get_object_item object "img_src_list")))

  -- The file opens, and there is memory for it.
  abbrev pub is_readable : Option String → Bool
  is_readable none = false
  is_readable (some path) = is_open (os.open_file path) && os.malloc (length (os.content path) + 1)

  abbrev pub image_path : cj.Node → Option String
  image_path object = text_of cj (cj.get_object_item object "img_src")

  abbrev pub valid_label : cj.Node → Bool
  valid_label object = has_area object && is_readable (image_path object)

  -- By the name of the object.
  abbrev pub valid_keyed : Option String → cj.Node → Bool
  valid_keyed none object = false
  valid_keyed (some name) object =
      if starts_with name "progress"
      then valid_progress object
      else starts_with name "label" && valid_label object

  abbrev pub valid_object : cj.Node → Bool
  valid_object object = cj.is_object object && valid_keyed (cj.key object) object

  abbrev pub valid_objects : List cj.Node → Bool
  valid_objects [] = true
  valid_objects (object ∷ objects) = valid_object object && valid_objects objects

  abbrev pub is_colour : Option String → Bool
  is_colour none = false
  is_colour (some name) = str_eq name "bg_color"

  -- All pages are valid; the colour of the background is not a page.
  abbrev pub valid_pages : List cj.Node → Bool
  valid_pages [] = true
  valid_pages (page ∷ pages) =
      (is_colour (cj.key page) || valid_objects (cj.children page)) && valid_pages pages

  -- The names of the pages, each with its hidden flag set.
  abbrev pub hidden_pages : List cj.Node → List (Option String × Bool)
  hidden_pages [] = []
  hidden_pages (page ∷ pages) =
      if is_colour (cj.key page)
      then hidden_pages pages
      else (cj.key page, true) ∷ hidden_pages pages

  abbrev pub HasName : cj.Node → Type 0
  HasName node = (name : String) × (cj.key node ≡ some name)

  -- The file is read whole by one call, and it is long enough for the descriptor that the program lays
  -- over it.
  pub record IsImage (path : String) : Type 0 where
    pub read_whole :
        os.read_count (os.content path) 0 (length (os.content path))
        ≡ pos (length (os.content path))
    pub long_enough : build.dsc_size ≤ length (os.content path) + 1

  -- The object and its images have names, and a label's file is an image.
  pub record IsObject (object : cj.Node) : Type 0 where
    pub named : HasName object
    pub listed : All HasName (children_of cj (cj.get_object_item object "img_src_list"))
    pub image : (path : String) → image_path object ≡ some path → IsImage path

  pub record IsPage (page : cj.Node) : Type 0 where
    pub named : HasName page
    pub objects : All IsObject (cj.children page)
