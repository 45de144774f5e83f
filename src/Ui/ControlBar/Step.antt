-- ===== src/Ui/ControlBar/Step.antt =====
-- The events of the control bar of app/ui.js: the listeners on the bar and on its handle, the timers, and
-- what the session and the modals ask of it.
use docker_baseimage_gui.Prelude.{
  ℕ, Bool, true, false, Option, none, some, List, [], ◌∷◌, if◌then◌else◌,
}
use docker_baseimage_gui.Prelude.Integers.{ℤ, pos}
use docker_baseimage_gui.Ui.ControlBar.{
  idle_controlbar, close_bar, Callback, Focus, elsewhere, Side, right, ControlBar, Layout,
  clear_timeout, activate_controlbar, idle_bar, keep_controlbar, close_controlbar,
  toggle_controlbar_side, update_controlbar_handle, drag_controlbar_handle,
  controlbar_handle_mouse_up, controlbar_handle_mouse_down, show_anchor, hide_anchor,
  canvas_focused,
}

-- The listeners on the bar: mousemove and mouseup; mouseleave, touchmove and touchend; mousedown;
-- keydown, touchstart and input.
unfoldable pub pointed : ControlBar → ControlBar
unfolding activate_controlbar
pointed s = let t = activate_controlbar s in clear_timeout t.idle_timeout t

unfoldable pub pressed : ControlBar → ControlBar
unfolding pointed keep_controlbar
pressed s = keep_controlbar (pointed s)

unfoldable pub typed : ControlBar → ControlBar
unfolding activate_controlbar keep_controlbar
typed s = keep_controlbar (activate_controlbar s)

unfoldable pub timer_callback : Callback → ControlBar → ControlBar
unfolding idle_bar close_controlbar
timer_callback idle_controlbar s = idle_bar s
timer_callback close_bar s = close_controlbar s

unfoldable pub fired : Option Callback → ControlBar → ControlBar
unfolding timer_callback
fired none s = s
fired (some callback) s = timer_callback callback s

-- A timer fires, if it is pending.
unfoldable pub fire : ℕ → ControlBar → ControlBar
unfolding fired
fire j s = fired (s.pending j) (clear_timeout (some j) s)

-- `rfb_made` is connect, `session_connected` connectFinished, which ends with the focus on the screen,
-- `modal_opened` openFileManager or openTerminal.
pub data Event : Type 0 where
  handle_pressed handle_moved : ℤ → ℤ → Event
  window_resized : ℤ → Event
  handle_released bar_pointed bar_left bar_pressed bar_typed : Event
  timer_fired : ℕ → Event
  rfb_made screen_focused session_connected session_ended modal_opened : Event
  focus_moved : Focus → Event
  document_focused : Bool → Event

unfoldable pub step : Layout → Event → ControlBar → ControlBar
step l (handle_pressed y top) s = controlbar_handle_mouse_down y top s
step l (handle_moved x y) s = drag_controlbar_handle l x y s
step l (window_resized top) s = update_controlbar_handle l top s
step l handle_released s = controlbar_handle_mouse_up s
step l bar_pointed s = pointed s
step l bar_left s = activate_controlbar s
step l bar_pressed s = pressed s
step l bar_typed s = typed s
step l (timer_fired j) s = fire j s
step l screen_focused s = canvas_focused s
step l rfb_made s = record s { rfb = true }
step l session_connected s = canvas_focused (show_anchor s)
step l session_ended s = close_controlbar (hide_anchor (record s { rfb = false }))
step l modal_opened s = close_controlbar s
step l (focus_moved f) s = record s { focus = f }
step l (document_focused b) s = record s { document_has_focus = b }

-- The sizes may change between two events.
unfoldable pub run : List (Layout × Event) → ControlBar → ControlBar
run [] s = s
run ((l, e) ∷ es) s = run es (step l e s)

abbrev pub is_right : Option Side → Bool
is_right (some right) = true
is_right p = false

-- The page is loaded, and start has restored the position of the bar.
unfoldable pub start : Bool → Bool → Option Side → ControlBar
unfolding toggle_controlbar_side
start is_touch_device first_run saved =
    let s : ControlBar = record {
      is_touch_device = is_touch_device;
      rfb = false;
      focus = elsewhere;
      document_has_focus = true;
      bar_open = false;
      anchor_idle = false;
      anchor_hidden = true;
      anchor_right = false;
      bar_reversed = false;
      hint_active = false;
      grabbed = false;
      dragged = false;
      mouse_down_client_y = pos 0;
      mouse_down_offset_y = pos 0;
      handle_offset = pos 0;
      idle_timeout = none;
      close_timeout = none;
      pending = λ j. none;
      timers = 0;
      controlbar_pos = saved;
      first_run = first_run;
    } in
    if is_right saved then toggle_controlbar_side s else s
