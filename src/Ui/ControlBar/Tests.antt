-- ===== src/Ui/ControlBar/Tests.antt =====
-- Concrete runs of the control bar of app/ui.js.
use docker_baseimage_gui.Prelude.{
  ◌+◌, ◌-◌, ◌*◌, min, max, true, false, not, some, List, [], ◌∷◌, ◌≡◌, ltb, if◌then◌else◌, arith,
}
use docker_baseimage_gui.Prelude.Integers.{ℤ, pos, difference}
use docker_baseimage_gui.Ui.ControlBar.{
  ControlBar, Layout, right, margin, move_controlbar_handle, controlbar_handle_mouse_up,
  controlbar_handle_mouse_down,
}
use docker_baseimage_gui.Ui.ControlBar.Step.{
  Event, handle_pressed, handle_moved, handle_released, session_connected, timer_fired, run, start,
}
use docker_baseimage_gui.Ui.ControlBar.Handle.{from_top, move_controlbar_handle-clamps}
use docker_baseimage_gui.Ui.ControlBar.Timers.{BarInv, run-start-BarInv}
use docker_baseimage_gui.Ui.ControlBar.Clicks.{drags, any_drag, click-bar_open}

abbrev layout : Layout
layout = record {
  inner_width = 1000;
  bar_top = 100;
  bar_height = 400;
  handle_height = 50;
  drag_threshold = 10;
}

abbrev bar : ControlBar
bar = start false true (some right)

-- The handle is dragged to the other side and below the bar.
abbrev events : List (Layout × Event)
events =
    (layout, session_connected)
    ∷ (layout, handle_pressed (pos 220) (pos 200))
    ∷ (layout, handle_moved (pos 30) (pos 900))
    ∷ (layout, handle_released)
    ∷ (layout, timer_fired 0)
    ∷ []

run-start-BarInv_example : BarInv 2 (run events (start false true (some right)))
run-start-BarInv_example = run-start-BarInv 2 false true (some right) events

move_controlbar_handle-clamps_example :
    (move_controlbar_handle layout (pos 880) bar).handle_offset ≡ (
      if ltb 400 (50 + 2 * margin)
      then difference 400 50
      else pos
          (2 * (min (max (from_top (pos 880)) (100 + margin)) (100 + (400 - 50 - margin)) - 100)))
move_controlbar_handle-clamps_example =
    move_controlbar_handle-clamps layout (pos 880) bar (omega arith) (omega arith)

abbrev moves : List (ℤ × ℤ)
moves = (pos 960, pos 222) ∷ (pos 965, pos 217) ∷ []

click-bar_open_example :
    (controlbar_handle_mouse_up
      (drags layout moves (controlbar_handle_mouse_down (pos 220) (pos 200) bar))).bar_open
    ≡ (if any_drag layout bar.anchor_right (pos 220) moves then bar.bar_open else not bar.bar_open)
click-bar_open_example = click-bar_open layout (pos 220) (pos 200) moves bar
