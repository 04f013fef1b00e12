-- ===== src/Tests/Render.antt =====
-- The drawing, the events and the destructor of ui/extra/lv_upgrade.c on widgets with three images.
use frameworks_system_ota.Prelude.{
  is_given, ◌≡◌, refl, true, false, none, some, List, [], ◌∷◌, arith,
}
use frameworks_system_ota.Prelude.Int.{pos, negsuc}
use frameworks_system_ota.Widget.Data.{Upgrade, num, anim}
use frameworks_system_ota.Widget.Closest.Best.{HasKeys}
use frameworks_system_ota.Widget.Layout.{Area, empty_area, lv_calc_number_mode_size}
use frameworks_system_ota.Widget.Free.{Owned, lv_upgrade_destructor}
use frameworks_system_ota.Widget.Free.Once.{owns, times, once, destructor_lem}
use frameworks_system_ota.Widget.Render.{
  Coords, Painter, Draw, lv_render_number_mode_content, lv_upgrade_event, minus,
}
use frameworks_system_ota.Widget.Render.Digits.{Tiles, number_mode-Tiles}
use frameworks_system_ota.Widget.Render.Events.{lv_upgrade_event_lem}
use frameworks_system_ota.Tests.Widget.{picture, bars, bar_of, key, bars-HasKeys}

destructor_lem_example :
    (freed : List Owned) × (lv_upgrade_destructor (bar_of bars)
      ≡ some (freed, record (bar_of bars) { image_array = none }))
    × ((b : Owned) → times b freed ≡ once (owns (bar_of bars) b))
destructor_lem_example = destructor_lem (bar_of bars) refl

-- 12 with a percent sign.
abbrev twelve : Upgrade
twelve = record (bar_of bars) {
  type = num;
  image_percent_sign = some picture;
  shown = record { progress = pos 2 ∷ pos 1 ∷ negsuc 0 ∷ []; value = pos 12 };
}

abbrev place : Coords
place = record { x1 = pos 100; y1 = pos 50; x2 = pos 130; y2 = pos 70 }

number_mode-Tiles_example :
    (draws : List Draw) × (a : Area) × (lv_render_number_mode_content none twelve place
      ≡ some draws)
    × (lv_calc_number_mode_size twelve empty_area ≡ some a)
    × Tiles none (pos 130) (minus (pos 130) a.x2) (pos 50) draws
number_mode-Tiles_example = number_mode-Tiles none twelve place picture (omega arith) refl

-- An animation of no frames in a second.
abbrev still : Upgrade
still = record (bar_of bars) { type = anim; anim_fps = 0 }

abbrev fresh : Painter
fresh = record {
  src = none;
  angle = 0;
  pivot = (pos 0, pos 0);
  rotation = 0;
  anim_data = none;
  running = none;
}

still-HasKeys : HasKeys still key
still-HasKeys = record { some_image = omega arith; at = bars-HasKeys.at }

lv_upgrade_event_lem_example :
    is_given (lv_upgrade_event true true true true (λ task area. area) place fresh still place)
    ≡ false
lv_upgrade_event_lem_example =
    lv_upgrade_event_lem still key still-HasKeys (omega arith) true true true true
      (λ task area. area) place fresh place (omega arith) (omega arith) (omega arith)
