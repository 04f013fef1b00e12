-- ===== src/Widget/Render/Events.antt =====
-- The events of ui/extra/lv_upgrade.c: which of them read outside the image array or divide by zero.
use frameworks_system_ota.Prelude.{
  is_given, ℕ, ◌+◌, ◌^◌, ◌≤◌, ◌<◌, ◌≡◌, refl, Bool, true, false, ◌&&◌, not, Option, none, some,
  arith, ◌==◌, get_elem?-of_lt,
}
use frameworks_system_ota.Prelude.Int.{ℤ}
use frameworks_system_ota.Widget.Value.{lv_upgrade_get_value}
use frameworks_system_ota.Widget.Data.{
  UpgradeType, num, bar, circle, anim, custom_anim, invalid, Upgrade,
}
use frameworks_system_ota.Widget.Images.{cells_of}
use frameworks_system_ota.Widget.Images.Bounds.{IsSized}
use frameworks_system_ota.Widget.Closest.{distance}
use frameworks_system_ota.Widget.Closest.Best.{HasKeys, chosen, lv_get_closest_element_index_lem}
use frameworks_system_ota.Widget.Anim.{anim_time}
use frameworks_system_ota.Widget.Render.{
  Coords, Anim, Painter, lv_render_bar_mode_content, lv_render_anim_mode_content, turn, draw_event,
  lv_upgrade_event,
}
use frameworks_system_ota.Widget.Render.Digits.{number_mode_total}

-- The event divides by the frames in a second: always in circle mode, and where the animation mode has
-- no animation yet.
abbrev pub divides : UpgradeType → Option Anim → Bool
divides circle running = true
divides anim none = true
divides _ _ = false

anim_event :
    (r : Option Anim) (p : Painter) (u : Upgrade) (c : Coords)
    → p.running ≡ r
    → is_given (lv_render_anim_mode_content p u c) ≡ not (divides anim r && (u.anim_fps == 0))
unfolding lv_render_anim_mode_content anim_time
anim_event none p u c e = ground arith
anim_event (some a) p u c e = ground arith

circle_event :
    (r : Option Anim) (use_arc : Bool) (align : Coords → Coords → Coords) (task : Coords)
    (p : Painter) (u : Upgrade) (c : Coords)
    → p.running ≡ r
    → p.rotation + 360 < 2 ^ 31
    → is_given (draw_event use_arc align task circle p u c) ≡ not (u.anim_fps == 0)
unfolding draw_event lv_render_anim_mode_content anim_time turn
circle_event none use_arc align task p u c e h = ground arith
circle_event (some a) use_arc align task p u c e h = ground arith

module _ (u : Upgrade) (key : ℕ → ℤ) (keys : HasKeys u key) (sized : IsSized u) where
  bar_event :
      (align : Coords → Coords → Coords) (task : Coords) (p : Painter) (c : Coords)
      → 2 ≤ u.image_array_size
      → u.image_array_size < 256
      → is_given (lv_render_bar_mode_content align task p u c) ≡ true
  unfolding lv_render_bar_mode_content
  bar_event align task p c two small =
      let value = lv_upgrade_get_value u.shown in
      let (t, best, e) = lv_get_closest_element_index_lem u key keys value small in
      let (cell, at) =
        get_elem?-of_lt (cells_of u) (chosen u.image_array_size (distance value (key t)) t)
          (ground (arith, best.below)) in
      rw (e, at) refl

  draw_event_lem :
      (type : UpgradeType) (use_arc : Bool) (align : Coords → Coords → Coords) (task : Coords)
      (p : Painter) (c : Coords)
      → 2 ≤ u.image_array_size
      → u.image_array_size < 256
      → p.rotation + 360 < 2 ^ 31
      → is_given (draw_event use_arc align task type p u c)
        ≡ not (divides type p.running && (u.anim_fps == 0))
  unfolding draw_event
  draw_event_lem num use_arc align task p c two small turns =
      let (draws, e) = number_mode_total p.src u c sized in rw e refl
  draw_event_lem bar use_arc align task p c two small turns = bar_event align task p c two small
  draw_event_lem circle use_arc align task p c two small turns =
      circle_event p.running use_arc align task p u c refl turns
  draw_event_lem anim use_arc align task p c two small turns = anim_event p.running p u c refl
  draw_event_lem custom_anim use_arc align task p c two small turns = refl
  draw_event_lem invalid use_arc align task p c two small turns = refl

  -- On a widget with two to 255 images, none missing, whose rotation is below 2^31 - 360: an event
  -- reads no image outside the array, and it is undefined exactly where it divides by a rate of zero
  -- frames in a second: a task that is added in circle mode, or in animation mode before the animation
  -- runs.
  pub lv_upgrade_event_lem :
      (ok added complete use_arc : Bool) (align : Coords → Coords → Coords) (task : Coords)
      (p : Painter) (c : Coords)
      → 2 ≤ u.image_array_size
      → u.image_array_size < 256
      → p.rotation + 360 < 2 ^ 31
      → is_given (lv_upgrade_event ok added complete use_arc align task p u c)
        ≡ not (ok && added && complete && divides u.type p.running && (u.anim_fps == 0))
  unfolding lv_upgrade_event
  lv_upgrade_event_lem true true true use_arc align task p c two small turns =
      draw_event_lem u.type use_arc align task p c two small turns
  lv_upgrade_event_lem true true false use_arc align task p c two small turns = refl
  lv_upgrade_event_lem true false complete use_arc align task p c two small turns = refl
  lv_upgrade_event_lem false added complete use_arc align task p c two small turns = refl
