-- ===== src/Ui/ControlBar/Timers.antt =====
-- The timers and the side of the control bar of app/ui.js.
use docker_baseimage_gui.Prelude.{
  ℕ, ◌≤◌, ◌<◌, Bool, true, false, not, ◌&&◌, Option, some, none, List, [], ◌∷◌, ◌≡◌, arith,
  if◌then◌else◌, ltb,
}
use docker_baseimage_gui.Prelude.Integers.{ℤ, ◌-ℤ◌, abs}
use docker_baseimage_gui.Ui.ControlBar.{
  Callback, idle_controlbar, close_bar, Side, ControlBar, Layout, clear_timeout,
  activate_controlbar, idle_bar, keep_controlbar, open_controlbar, close_controlbar,
  toggle_controlbar, toggle_controlbar_side, move_controlbar_handle, update_controlbar_handle,
  follow, drag_controlbar_handle, controlbar_handle_mouse_up, controlbar_handle_mouse_down,
  show_anchor, hide_anchor, canvas_focused, change_side, is_far_left, is_far_right,
}
use docker_baseimage_gui.Ui.ControlBar.Step.{
  pointed, pressed, typed, timer_callback, fire, Event, handle_pressed, handle_moved,
  window_resized, handle_released, bar_pointed, bar_left, bar_pressed, bar_typed, timer_fired,
  rfb_made, screen_focused, session_connected, session_ended, modal_opened, focus_moved,
  document_focused, step, run, is_right, start, fired,
}

-- Timer `j` is the one remembered if it is to fade the bar, timers that are not made yet are neither
-- pending nor remembered, and the bar stands at the side that is saved.
pub record BarInv (j : ℕ) (s : ControlBar) : Type 0 where
  pub idle : s.pending j ≡ some idle_controlbar → s.idle_timeout ≡ some j
  pub made : s.timers ≤ j → s.pending j ≡ none
  pub numbered : s.idle_timeout ≡ some j → j < s.timers
  pub saved : s.anchor_right ≡ is_right s.controlbar_pos
  pub reversed : s.bar_reversed ≡ s.anchor_right

activate_controlbar-BarInv :
    (j : ℕ) (s : ControlBar) → BarInv j s → BarInv j (activate_controlbar s)
unfolding activate_controlbar
activate_controlbar-BarInv j s v = ground arith

keep_controlbar-BarInv : (j : ℕ) (s : ControlBar) → BarInv j s → BarInv j (keep_controlbar s)
unfolding keep_controlbar
keep_controlbar-BarInv j s v = ground arith

close_controlbar-BarInv : (j : ℕ) (s : ControlBar) → BarInv j s → BarInv j (close_controlbar s)
unfolding close_controlbar
close_controlbar-BarInv j s v = ground arith

toggle_controlbar-BarInv : (j : ℕ) (s : ControlBar) → BarInv j s → BarInv j (toggle_controlbar s)
unfolding toggle_controlbar open_controlbar close_controlbar
toggle_controlbar-BarInv j s v = ground arith

move_controlbar_handle-BarInv :
    (j : ℕ) (l : Layout) (y : ℤ) (s : ControlBar)
    → BarInv j s
    → BarInv j (move_controlbar_handle l y s)
unfolding move_controlbar_handle
move_controlbar_handle-BarInv j l y s v = ground arith

toggle_controlbar_side-BarInv :
    (j : ℕ) (s : ControlBar) → BarInv j s → BarInv j (toggle_controlbar_side s)
unfolding toggle_controlbar_side
toggle_controlbar_side-BarInv j s v = ground arith

show_anchor-BarInv : (j : ℕ) (s : ControlBar) → BarInv j s → BarInv j (show_anchor s)
unfolding show_anchor open_controlbar
show_anchor-BarInv j s v = ground arith

pointed-BarInv : (j : ℕ) (s : ControlBar) → BarInv j s → BarInv j (pointed s)
unfolding pointed activate_controlbar
pointed-BarInv j s v = ground arith

idle_bar-BarInv : (j : ℕ) (s : ControlBar) → BarInv j s → BarInv j (idle_bar s)
unfolding idle_bar activate_controlbar
idle_bar-BarInv j s v = ground arith

canvas_focused-BarInv : (j : ℕ) (s : ControlBar) → BarInv j s → BarInv j (canvas_focused s)
unfolding canvas_focused close_controlbar
canvas_focused-BarInv j s v = ground arith

if-BarInv :
    (j : ℕ) (b : Bool) (s t : ControlBar) → BarInv j s → BarInv j t → BarInv j (if b then s else t)
if-BarInv j true s t v w = v
if-BarInv j false s t v w = w

activated-BarInv :
    (j : ℕ) (s : ControlBar) → BarInv j s → BarInv j (activate_controlbar (keep_controlbar s))
activated-BarInv j s v =
    activate_controlbar-BarInv j (keep_controlbar s) (keep_controlbar-BarInv j s v)

follow-BarInv : (j : ℕ) (l : Layout) (y : ℤ) (s : ControlBar) → BarInv j s → BarInv j (follow l y s)
unfolding follow
follow-BarInv j l y s v =
    activated-BarInv j _
      (move_controlbar_handle-BarInv j l _ (record s { dragged = true }) (ground arith))

change_side-BarInv :
    (j : ℕ) (l : Layout) (x : ℤ) (s : ControlBar) → BarInv j s → BarInv j (change_side l x s)
change_side-BarInv j l x s v =
    let side = toggle_controlbar_side-BarInv j s v in
    if-BarInv j (is_far_left l x) _ _ (if-BarInv j s.anchor_right _ s side v)
      (if-BarInv j (is_far_right l x) _ s (if-BarInv j s.anchor_right s _ v side) v)

drag_controlbar_handle-BarInv :
    (j : ℕ) (l : Layout) (x y : ℤ) (s : ControlBar)
    → BarInv j s
    → BarInv j (drag_controlbar_handle l x y s)
unfolding drag_controlbar_handle
drag_controlbar_handle-BarInv j l x y s v =
    let t = change_side l x s in
    let w = change_side-BarInv j l x s v in
    if-BarInv j (not s.grabbed) s _ v (
      if-BarInv j (not t.dragged && ltb (abs (y -ℤ t.mouse_down_client_y)) l.drag_threshold) t _ w
        (follow-BarInv j l y t w))

controlbar_handle_mouse_up-BarInv :
    (j : ℕ) (s : ControlBar) → BarInv j s → BarInv j (controlbar_handle_mouse_up s)
unfolding controlbar_handle_mouse_up
controlbar_handle_mouse_up-BarInv j s v =
    let w = activated-BarInv j _ (toggle_controlbar-BarInv j s v) in
    let u = if-BarInv j (s.grabbed && not s.dragged) _ s w v in
    record {
      idle = u.idle;
      made = u.made;
      numbered = u.numbered;
      saved = u.saved;
      reversed = u.reversed;
    }

clear-BarInv : (j k : ℕ) (s : ControlBar) → BarInv j s → BarInv j (clear_timeout (some k) s)
clear-BarInv j k s v = ground arith

fired-BarInv : (j : ℕ) (o : Option Callback) (s : ControlBar) → BarInv j s → BarInv j (fired o s)
unfolding fired timer_callback
fired-BarInv j none s v = v
fired-BarInv j (some idle_controlbar) s v = idle_bar-BarInv j s v
fired-BarInv j (some close_bar) s v = close_controlbar-BarInv j s v

fire-BarInv : (j k : ℕ) (s : ControlBar) → BarInv j s → BarInv j (fire k s)
unfolding fire
fire-BarInv j k s v = fired-BarInv j (s.pending k) _ (clear-BarInv j k s v)

controlbar_handle_mouse_down-BarInv :
    (j : ℕ) (y top : ℤ) (s : ControlBar)
    → BarInv j s
    → BarInv j (controlbar_handle_mouse_down y top s)
unfolding controlbar_handle_mouse_down keep_controlbar activate_controlbar
controlbar_handle_mouse_down-BarInv j y top s v = ground arith

pub step-BarInv :
    (j : ℕ) (l : Layout) (e : Event) (s : ControlBar) → BarInv j s → BarInv j (step l e s)
unfolding step update_controlbar_handle pressed typed hide_anchor
step-BarInv j l (handle_pressed y top) s v = controlbar_handle_mouse_down-BarInv j y top s v
step-BarInv j l (handle_moved x y) s v = drag_controlbar_handle-BarInv j l x y s v
step-BarInv j l (window_resized top) s v = move_controlbar_handle-BarInv j l top s v
step-BarInv j l handle_released s v = controlbar_handle_mouse_up-BarInv j s v
step-BarInv j l bar_pointed s v = pointed-BarInv j s v
step-BarInv j l bar_left s v = activate_controlbar-BarInv j s v
step-BarInv j l bar_pressed s v = keep_controlbar-BarInv j _ (pointed-BarInv j s v)
step-BarInv j l bar_typed s v = keep_controlbar-BarInv j _ (activate_controlbar-BarInv j s v)
step-BarInv j l (timer_fired k) s v = fire-BarInv j k s v
step-BarInv j l screen_focused s v = canvas_focused-BarInv j s v
step-BarInv j l rfb_made s v = record {
  idle = v.idle;
  made = v.made;
  numbered = v.numbered;
  saved = v.saved;
  reversed = v.reversed;
}
step-BarInv j l session_connected s v =
    canvas_focused-BarInv j (show_anchor s) (show_anchor-BarInv j s v)
step-BarInv j l session_ended s v =
    let t = record s { rfb = false } in
    let w = close_controlbar-BarInv j t (record {
      idle = v.idle;
      made = v.made;
      numbered = v.numbered;
      saved = v.saved;
      reversed = v.reversed;
    }) in
    close_controlbar-BarInv j (hide_anchor t) (record {
      idle = w.idle;
      made = w.made;
      numbered = w.numbered;
      saved = w.saved;
      reversed = w.reversed;
    })
step-BarInv j l modal_opened s v = close_controlbar-BarInv j s v
step-BarInv j l (focus_moved f) s v = ground arith
step-BarInv j l (document_focused b) s v = ground arith

run-BarInv :
    (j : ℕ) (es : List (Layout × Event)) (s : ControlBar) → BarInv j s → BarInv j (run es s)
unfolding run
run-BarInv j [] s v = v
run-BarInv j ((l, e) ∷ es) s v = run-BarInv j es (step l e s) (step-BarInv j l e s v)

pub start-BarInv : (j : ℕ) (touch first : Bool) (p : Option Side) → BarInv j (start touch first p)
unfolding start toggle_controlbar_side
start-BarInv j touch first p = ground arith

-- From the start on, whatever happens: the only timer that may fade the control bar is the one that is
-- remembered, so that there is at most one; and the bar stands, in both its classes, at the side that
-- is saved.
pub run-start-BarInv :
    (j : ℕ) (touch first : Bool) (p : Option Side) (es : List (Layout × Event))
    → BarInv j (run es (start touch first p))
run-start-BarInv j touch first p es =
    run-BarInv j es (start touch first p) (start-BarInv j touch first p)
