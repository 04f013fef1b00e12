-- ===== src/Ota/Main/Program.antt =====
-- `main` of ui/ui_ota.c as a whole: the options, the configuration, the loop, and the end.
pub mod Ends
use frameworks_system_ota.Prelude.{
  ℕ, String, Bool, true, false, Option, none, some, List, [], if◌then◌else◌, ◌>>=◌,
}
use frameworks_system_ota.Prelude.Int.{ℤ, pos, negsuc}
use frameworks_system_ota.Ui.Code.{Code, is_success}
use frameworks_system_ota.Ui.Refresh.{Ui}
use frameworks_system_ota.Ui.Config.Env.{Env}
use frameworks_system_ota.Ui.Config.Pages.{ui_config_parse, ui_uninit}
use frameworks_system_ota.Ota.Progress.{Calc}
use frameworks_system_ota.Ota.Property.{Properties}
use frameworks_system_ota.Ota.Main.{
  Flag, Options, Parsed, exits, starts, parse_flags, path_or_default, Loop, Round, again, leave,
  rounds, runs_command,
}

-- The variables before the options.
abbrev pub no_options : Options
no_options = record { current = pos 0; logo_mode = false; path = [] }

module _ (props : Properties) (env : Env) (sync_time : ℕ) where
  open props use {Db}
  open env use {lv, use_arc}

  -- How the program ends: at once, with the database that an option changed; with an exit status,
  -- whether the command was run, and the screen; or not within the rounds that are given.
  pub data Outcome : Type 0 where
    stopped : Db → Outcome
    finished : ℤ → Bool → Ui lv → Outcome
    running : Loop lv → Outcome

  abbrev pub first_loop : Options → Ui lv → Loop lv
  first_loop o ui = record {
    calc = record {
      progress = record { current = o.current; prev_node = pos 0; next_node = pos 0 };
      slow_tick_count = 0;
      fast_tick_count = 0;
    };
    count_tick_ms = 0;
    ui = ui;
  }

  -- Behind the loop.
  abbrev pub after_loop : Db → Round lv → Outcome
  after_loop db (again l) = running l
  after_loop db (leave l) =
      finished (pos 0) (runs_command props lv use_arc sync_time db l) (ui_uninit env l.ui)

  -- From the result of `ui_config_parse` on.
  unfoldable pub after_config : Options → List Db → Db → Code × Ui lv → Option Outcome
  after_config o dbs last (code, ui) =
      if is_success code
      then (rounds props lv use_arc sync_time o.logo_mode dbs (first_loop o ui) >>= λ r.
          some (after_loop last r))
      else some (finished (negsuc 0) false ui)

  -- `text` is the string with these bytes, and `default_path` is UI_DEFAULT_CONFIG_PATH.
  module _ (text : List ℕ → String) (default_path : List ℕ) where
    unfoldable pub start : Options → List Db → Db → Ui lv → Option Outcome
    unfolding after_config path_or_default
    start o dbs last ui = do
      parsed ← ui_config_parse env (some (text (path_or_default props default_path o.path))) ui
      after_config o dbs last parsed

    -- With the databases that the rounds find, and the one after the loop.
    unfoldable pub main : List Flag → Db → List Db → Db → Ui lv → Option Outcome
    unfolding parse_flags start
    main flags db dbs last ui = elim (parse_flags props flags db no_options) [
      | exits db' ↦ some (stopped db')
      | starts o ↦ start o dbs last ui
    ]
