-- ===== src/Ui/ControlBar/Forgotten.antt =====
-- The timer of the first run that closeControlbar of app/ui.js forgets.
use docker_baseimage_gui.Prelude.{ℕ, ◌<◌, true, false, some, none, ◌≡◌, ◌≢◌, arith}
use docker_baseimage_gui.Prelude.Integers.{ℤ}
use docker_baseimage_gui.Ui.ControlBar.{
  close_bar, ControlBar, Layout, activate_controlbar, keep_controlbar, open_controlbar,
  close_controlbar, toggle_controlbar, controlbar_handle_mouse_up, controlbar_handle_mouse_down,
  show_anchor, canvas_focused,
}
use docker_baseimage_gui.Ui.ControlBar.Step.{
  timer_callback, fire, handle_pressed, handle_released, timer_fired, session_connected,
  modal_opened, step, fired,
}
use docker_baseimage_gui.Ui.ControlBar.Timers.{BarInv}

-- Timer `k` is pending, is to close the bar, and is not remembered.
record IsForgotten (k : ℕ) (s : ControlBar) : Type 0 where
  no_timeout : s.close_timeout ≡ none
  not_idle : s.idle_timeout ≢ some k
  old : k < s.timers
  waits : s.pending k ≡ some close_bar

opened-IsForgotten :
    (s : ControlBar)
    → s.first_run ≡ true
    → BarInv s.timers s
    → IsForgotten s.timers (close_controlbar (canvas_focused (show_anchor s)))
unfolding show_anchor open_controlbar close_controlbar canvas_focused
opened-IsForgotten s h v = record {
  no_timeout = ground arith;
  not_idle = λ e. ground (arith, v.numbered);
  old = ground arith;
  waits = ground arith;
}

pressed-IsForgotten :
    (k : ℕ) (y top : ℤ) (s : ControlBar)
    → IsForgotten k s
    → IsForgotten k (controlbar_handle_mouse_down y top s)
unfolding controlbar_handle_mouse_down keep_controlbar activate_controlbar
pressed-IsForgotten k y top s v = record {
  no_timeout = ground arith;
  not_idle = λ e. ground (arith, v.old, v.no_timeout);
  old = ground (arith, v.old, v.no_timeout);
  waits = ground (arith, v.waits, v.old, v.no_timeout, v.not_idle);
}

released-IsForgotten :
    (k : ℕ) (s : ControlBar) → IsForgotten k s → IsForgotten k (controlbar_handle_mouse_up s)
unfolding controlbar_handle_mouse_up toggle_controlbar open_controlbar close_controlbar
    keep_controlbar activate_controlbar
released-IsForgotten k s v = record {
  no_timeout = ground (arith, v.no_timeout);
  not_idle = λ e. ground (arith, v.old, v.no_timeout, v.not_idle);
  old = ground (arith, v.old, v.no_timeout);
  waits = ground (arith, v.waits, v.old, v.no_timeout, v.not_idle);
}

forgotten-closes :
    (k : ℕ) (s : ControlBar) → s.pending k ≡ some close_bar → (fire k s).bar_open ≡ false
unfolding fire fired timer_callback close_controlbar
forgotten-closes k s p = ground arith

-- When the first session is made the control bar opens with a timer that is to close it. If a modal
-- closes the bar and the user then opens it by a press and a release of the handle, the timer is still
-- pending, and when it fires it closes the bar under the user's hands.
pub reopened-closes :
    (l : Layout) (y top : ℤ) (s : ControlBar)
    → s.first_run ≡ true
    → ((j : ℕ) → BarInv j s)
    → let opened = step l session_connected s in
      let reopened =
        step l handle_released (step l (handle_pressed y top) (step l modal_opened opened)) in
      (opened.bar_open ≡ true)
      × (reopened.bar_open ≡ true)
      × ((step l (timer_fired s.timers) reopened).bar_open ≡ false)
unfolding step canvas_focused show_anchor open_controlbar close_controlbar
    controlbar_handle_mouse_down controlbar_handle_mouse_up toggle_controlbar keep_controlbar
    activate_controlbar fire fired timer_callback
reopened-closes l y top s h v =
    let t = close_controlbar (canvas_focused (show_anchor s)) in
    let pressed_forgotten =
      pressed-IsForgotten s.timers y top t (opened-IsForgotten s h (v s.timers)) in
    let released_forgotten =
      released-IsForgotten s.timers (controlbar_handle_mouse_down y top t) pressed_forgotten in
    let u = controlbar_handle_mouse_up (controlbar_handle_mouse_down y top t) in
    (ground arith, ground arith, forgotten-closes s.timers u released_forgotten.waits)
