-- ===== src/Ota/Main.antt =====
-- `main` of ui/ui_ota.c: the options, the loop, and what follows it.
pub mod Safety
pub mod Ready
pub mod Complete
pub mod Failure
pub mod Program
use frameworks_system_ota.Prelude.{
  ℕ, zero, suc, ◌+◌, ◌*◌, ◌%◌, ◌^◌, String, Bool, true, false, not, ◌&&◌, ◌||◌, Option, none, some,
  List, [], ◌∷◌, length, take, ltb, ◌==◌, if◌then◌else◌, ◌>>=◌,
}
use frameworks_system_ota.Prelude.Int.{ℤ, pos, ltb_ℤ, leb_ℤ}
use frameworks_system_ota.Ui.Code.{Code, success, is_success}
use frameworks_system_ota.Ui.Lvgl.{Lvgl}
use frameworks_system_ota.Ui.Display.{ui_page_show, ui_page_exist}
use frameworks_system_ota.Ui.Refresh.{Ui, ui_set_progress, ui_timer_handler}
use frameworks_system_ota.Widget.Value.{int32_of}
use frameworks_system_ota.Widget.Closest.{uint32_of}
use frameworks_system_ota.Ota.Progress.{UpgradeProgress, Calc, ota_calc_progress}
use frameworks_system_ota.Ota.Property.{Properties, ota_sync_upgrade_progress, set_test_value}

-- What `getopt` returns, with `optarg`.
pub data Flag : Type 0 where
  test_value : String → Flag
  config_path : List ℕ → Flag
  start_value : String → Flag
  logo help unknown : Flag

-- The variables that the options set. A path is its bytes.
pub record Options : Type 0 where
  pub current : ℤ
  pub logo_mode : Bool
  pub path : List ℕ

-- `main` returns 0 at once, or goes on.
pub data Parsed (A : Type 0) : Type 0 where
  exits : A → Parsed A
  starts : Options → Parsed A

-- UI_TICK_MS
abbrev pub tick_ms : ℕ
tick_ms = 10 * 1000

-- UI_DEFAULT_CONFIG_PATH is a parameter where it is used. CONFIG_PATH_SIZE is 128, and `snprintf` keeps
-- room for the end of the string.
abbrev pub config_path_size : ℕ
config_path_size = 128

module _ (props : Properties) where
  open props use {Db, strtoul}

  -- The options from left to right; `t` and `h` end the program.
  unfoldable pub parse_flags : List Flag → Db → Options → Parsed Db
  parse_flags [] db o = starts o
  parse_flags (test_value arg ∷ flags) db o = exits (set_test_value props (strtoul arg) db)
  parse_flags (config_path arg ∷ flags) db o =
      parse_flags flags db (record o { path = take 126 arg })
  parse_flags (start_value arg ∷ flags) db o =
      parse_flags flags db (record o { current = int32_of (strtoul arg) })
  parse_flags (logo ∷ flags) db o = parse_flags flags db (record o { logo_mode = true })
  parse_flags (help ∷ flags) db o = exits db
  parse_flags (unknown ∷ flags) db o = parse_flags flags db o

  unfoldable pub path_or_default : List ℕ → List ℕ → List ℕ
  path_or_default default [] = take 127 default
  path_or_default default (b ∷ bs) = b ∷ bs

-- The variables of the loop. `count_tick_ms` is the bit pattern of an `int32_t`.
pub record Loop (lv : Lvgl) : Type 0 where
  pub calc : Calc
  pub count_tick_ms : ℕ
  pub ui : Ui lv

-- A round ends with another one, or with a `break`.
pub data Round (lv : Lvgl) : Type 0 where
  again : Loop lv → Round lv
  leave : Loop lv → Round lv

module _ (props : Properties) (lv : Lvgl) (use_arc : Bool) (sync_time : ℕ) where
  open props use {Db}

  abbrev pub show : String → Ui lv → Code × Ui lv
  show name ui = let (ret, s) = ui_page_show lv name ui.screen in (ret, record ui { screen = s })

  -- The synchronisation at the start of a round, every `sync_time`, the configured time, which is
  -- not 0: the source divides by it.
  unfoldable pub sync_round : Db → Loop lv → Loop lv
  sync_round db l =
      if l.count_tick_ms % sync_time == 0
      then record l {
        calc = record l.calc { progress = ota_sync_upgrade_progress props db l.calc.progress };
      }
      else l

  -- The success page, once the number is 100.
  unfoldable pub show_success : Code → Loop lv → Code × Loop lv
  show_success ret l =
      let (ret', ui) = show "upgrade_success_page" l.ui in
      if ui_page_exist lv (some "upgrade_success_page") l.ui.screen
        && leb_ℤ (pos 100) l.calc.progress.current
      then (ret', record l { ui = (ui_timer_handler lv use_arc ui).1 })
      else (ret, l)

  -- The upgrade is under way. What showing the page returned is not looked at.
  unfoldable pub show_upgrading : Loop lv → Option (Code × Loop lv)
  show_upgrading l = do
    let (_, ui) = show "upgrading_page" l.ui
    let calc = ota_calc_progress l.calc
    (ret, ui') ←
        ui_set_progress lv use_arc (some "upgrading_page") (uint32_of calc.progress.current) ui
    some (show_success ret (record l { calc = calc; ui = ui' }))

  unfoldable pub show_page : Bool → Loop lv → Option (Code × Loop lv)
  show_page logo_mode l =
      if logo_mode
      then some (let (ret, ui) = show "logo_page" l.ui in (ret, record l { ui = ui }))
      else if ltb_ℤ l.calc.progress.prev_node (pos 0)
      then some (let (ret, ui) = show "upgrade_fail_page" l.ui in (ret, record l { ui = ui }))
      else show_upgrading l

  -- The rest of a round, after the page is shown.
  unfoldable pub end_round : Bool → Code × Loop lv → Round lv
  end_round logo_mode (ret, l) =
      let next = record l {
        count_tick_ms = (l.count_tick_ms + tick_ms) % 2 ^ 32;
        ui = (ui_timer_handler lv use_arc l.ui).1;
      } in
      let p = l.calc.progress in
      if not (is_success ret)
      then leave l
      else if logo_mode || ltb_ℤ p.prev_node (pos 0) || leb_ℤ (pos 100) p.current
      then leave next
      else again next

  unfoldable pub round : Bool → Db → Loop lv → Option (Round lv)
  round logo_mode db l = do
    shown ← show_page logo_mode (sync_round db l)
    some (end_round logo_mode shown)

  -- The next round, unless there was a `break`.
  abbrev pub after_round : (Loop lv → Option (Round lv)) → Round lv → Option (Round lv)
  after_round rest (again l) = rest l
  after_round rest (leave l) = some (leave l)

  -- The loop, on the databases that its rounds find.
  unfoldable pub rounds : Bool → List Db → Loop lv → Option (Round lv)
  rounds logo_mode [] l = some (again l)
  rounds logo_mode (db ∷ dbs) l = do r ← round logo_mode db l; after_round (rounds logo_mode dbs) r

  -- Whether the command that ends the upgrade is run, for the database after the loop.
  unfoldable pub runs_command : Db → Loop lv → Bool
  runs_command db l =
      let p = ota_sync_upgrade_progress props db l.calc.progress in
      ltb_ℤ p.prev_node (pos 0) || ltb_ℤ (pos 100) p.prev_node
