-- ===== src/Ui/ControlBar.antt =====
-- The control bar: activateControlbar to controlbarHandleMouseDown of app/ui.js, with the part of
-- updateVisualState that shows it on the first run and the focus listener of connect. Positions are
-- whole pixels; the offset of the handle is counted in half pixels, since it is the half of a
-- difference where the bar is too small.
pub mod Step
pub mod Timers
pub mod Forgotten
pub mod Handle
pub mod Clicks
mod Tests
use docker_baseimage_gui.Prelude.{
  ℕ, suc, ◌+◌, ◌-◌, ◌*◌, Bool, true, false, not, ◌&&◌, ◌||◌, Option, none, some, List, [], ◌∷◌,
  ◌==◌, ltb, if◌then◌else◌,
}
use docker_baseimage_gui.Prelude.Integers.{
  ℤ, pos, negsuc, difference, ◌-ℤ◌, is_below, is_above, abs,
}

-- The callbacks of the timers: idleControlbar, closeControlbar.
pub data Callback : Type 0 where
  idle_controlbar close_bar : Callback

-- The active element: within the bar, the canvas of the screen, noVNC_keyboardinput, another one.
pub data Focus : Type 0 where
  on_bar on_screen on_keyboardinput elsewhere : Focus

pub data Side : Type 0 where
  left right : Side

pub record ControlBar : Type 0 where
  pub is_touch_device : Bool
  pub rfb : Bool
  pub focus : Focus
  pub document_has_focus : Bool
  -- The classes noVNC_open, noVNC_idle, noVNC_hidden, noVNC_right, flex-row-reverse and noVNC_active.
  pub bar_open : Bool
  pub anchor_idle : Bool
  pub anchor_hidden : Bool
  pub anchor_right : Bool
  pub bar_reversed : Bool
  pub hint_active : Bool
  -- UI.controlbarGrabbed, UI.controlbarDrag, the position of the pointer when it was pressed.
  pub grabbed : Bool
  pub dragged : Bool
  pub mouse_down_client_y : ℤ
  pub mouse_down_offset_y : ℤ
  -- The translation of the handle, in half pixels.
  pub handle_offset : ℤ
  -- UI.idleControlbarTimeout, UI.closeControlbarTimeout, and the timers.
  pub idle_timeout : Option ℕ
  pub close_timeout : Option ℕ
  pub pending : ℕ → Option Callback
  pub timers : ℕ
  -- The settings `controlbar_pos` and `first_run`.
  pub controlbar_pos : Option Side
  pub first_run : Bool

-- The sizes that the browser measures: window.innerWidth, the top and the height of the bar, the
-- height of the handle; and noVNC's dragThreshold.
pub record Layout : Type 0 where
  pub inner_width : ℕ
  pub bar_top : ℕ
  pub bar_height : ℕ
  pub handle_height : ℕ
  pub drag_threshold : ℕ

abbrev pub clear_timeout : Option ℕ → ControlBar → ControlBar
clear_timeout none s = s
clear_timeout (some j) s = record s { pending = λ k. if k == j then none else s.pending k }

abbrev pub set_timeout : Callback → ControlBar → ControlBar
set_timeout callback s = record s {
  pending = λ k. if k == s.timers then some callback else s.pending k;
  timers = suc s.timers;
}

unfoldable pub activate_controlbar : ControlBar → ControlBar
activate_controlbar s =
    let t = record (clear_timeout s.idle_timeout s) { anchor_idle = false } in
    record (set_timeout idle_controlbar t) { idle_timeout = some t.timers }

abbrev pub is_on_bar : Focus → Bool
is_on_bar on_bar = true
is_on_bar f = false

abbrev pub is_on_keyboardinput : Focus → Bool
is_on_keyboardinput on_keyboardinput = true
is_on_keyboardinput f = false

unfoldable pub idle_bar : ControlBar → ControlBar
unfolding activate_controlbar
idle_bar s =
    if is_on_bar s.focus && s.document_has_focus
    then activate_controlbar s
    else record s { anchor_idle = true }

unfoldable pub keep_controlbar : ControlBar → ControlBar
keep_controlbar s = record (clear_timeout s.close_timeout s) { close_timeout = none }

unfoldable pub open_controlbar : ControlBar → ControlBar
open_controlbar s = record s {
  bar_open = true;
  focus = if s.is_touch_device then s.focus else on_bar;
}

-- The focus event of the canvas finds the bar closed, and does nothing more.
unfoldable pub close_controlbar : ControlBar → ControlBar
close_controlbar s =
    let moves = s.rfb && (not s.is_touch_device || not (is_on_keyboardinput s.focus)) in
    record s {
      bar_open = false;
      focus = if moves then on_screen else s.focus;
      close_timeout = none;
    }

unfoldable pub toggle_controlbar : ControlBar → ControlBar
unfolding open_controlbar close_controlbar
toggle_controlbar s = if s.bar_open then close_controlbar s else open_controlbar s

unfoldable pub toggle_controlbar_side : ControlBar → ControlBar
toggle_controlbar_side s =
    let t =
      if s.anchor_right
      then record s { controlbar_pos = some left; anchor_right = false; bar_reversed = false }
      else record s { controlbar_pos = some right; anchor_right = true; bar_reversed = true } in
    record t { dragged = true; hint_active = false }

abbrev pub margin : ℕ
margin = 10

-- Where moveControlbarHandle puts the top of the handle, before the corner case. The difference of
-- natural numbers is exact unless the corner case follows.
abbrev pub kept_inside : ℕ → ℕ → ℕ → ℤ → ℤ
kept_inside bar_top bar_height handle_height y =
    if is_below y (bar_top + margin)
    then pos (bar_top + margin)
    else if is_above y (bar_top + bar_height - handle_height - margin)
    then pos (bar_top + bar_height - handle_height - margin)
    else y

abbrev pub double : ℤ → ℤ
double (pos n) = pos (2 * n)
double (negsuc n) = negsuc (2 * n + 1)

module _ (l : Layout) where
  unfoldable pub move_controlbar_handle : ℤ → ControlBar → ControlBar
  move_controlbar_handle viewport_relative_y s =
      let y = kept_inside l.bar_top l.bar_height l.handle_height viewport_relative_y in
      let parent_relative = double (y -ℤ pos l.bar_top) in
      let centred = difference l.bar_height l.handle_height in
      if (l.handle_height == 0) || (l.bar_height == 0) then s else record s {
        handle_offset =
            if ltb l.bar_height (l.handle_height + margin * 2) then centred else parent_relative;
      }

  -- updateControlbarHandle, where the handle stands at this position.
  unfoldable pub update_controlbar_handle : ℤ → ControlBar → ControlBar
  unfolding move_controlbar_handle
  update_controlbar_handle handle_top s = move_controlbar_handle handle_top s

  -- The pointer is within a tenth of the width from the left, or from the right.
  abbrev pub is_far_left : ℤ → Bool
  is_far_left (pos x) = ltb (10 * x) l.inner_width
  is_far_left (negsuc x) = true

  abbrev pub is_far_right : ℤ → Bool
  is_far_right (pos x) = ltb (9 * l.inner_width) (10 * x)
  is_far_right (negsuc x) = false

  abbrev pub change_side : ℤ → ControlBar → ControlBar
  change_side x s =
      if is_far_left x
      then (if s.anchor_right then toggle_controlbar_side s else s)
      else if is_far_right x
      then (if s.anchor_right then s else toggle_controlbar_side s)
      else s

  -- The rest of dragControlbarHandle, when the pointer has been dragged.
  unfoldable pub follow : ℤ → ControlBar → ControlBar
  unfolding move_controlbar_handle keep_controlbar activate_controlbar
  follow y s =
      let t = move_controlbar_handle (y -ℤ s.mouse_down_offset_y) (record s { dragged = true }) in
      activate_controlbar (keep_controlbar t)

  -- dragControlbarHandle, with the position of the pointer.
  unfoldable pub drag_controlbar_handle : ℤ → ℤ → ControlBar → ControlBar
  unfolding toggle_controlbar_side follow
  drag_controlbar_handle x y s =
      let t = change_side x s in
      if not s.grabbed
      then s
      else if not t.dragged && ltb (abs (y -ℤ t.mouse_down_client_y)) l.drag_threshold
      then t
      else follow y t

-- controlbarHandleMouseUp, for the first button or a touch.
unfoldable pub controlbar_handle_mouse_up : ControlBar → ControlBar
unfolding toggle_controlbar keep_controlbar activate_controlbar
controlbar_handle_mouse_up s =
    let t =
      if s.grabbed && not s.dragged
      then activate_controlbar (keep_controlbar (toggle_controlbar s))
      else s in
    record t { grabbed = false; hint_active = false }

-- controlbarHandleMouseDown, likewise, with the positions of the pointer and of the handle.
unfoldable pub controlbar_handle_mouse_down : ℤ → ℤ → ControlBar → ControlBar
unfolding keep_controlbar activate_controlbar
controlbar_handle_mouse_down client_y handle_top s = activate_controlbar (
    keep_controlbar (record s {
      grabbed = true;
      dragged = false;
      hint_active = true;
      mouse_down_client_y = client_y;
      mouse_down_offset_y = client_y -ℤ handle_top;
    }))

-- updateVisualState while connected, and otherwise.
unfoldable pub show_anchor : ControlBar → ControlBar
unfolding open_controlbar
show_anchor s =
    let t = record s { anchor_hidden = false } in
    let u = open_controlbar t in
    if t.first_run
    then record (set_timeout close_bar u) { close_timeout = some u.timers; first_run = false }
    else t

unfoldable pub hide_anchor : ControlBar → ControlBar
unfolding close_controlbar
hide_anchor s = record (close_controlbar s) { anchor_hidden = true }

-- The listener of connect for the focus event of the canvas.
unfoldable pub canvas_focused : ControlBar → ControlBar
unfolding close_controlbar
canvas_focused s =
    let t = record s { focus = on_screen } in
    let no_timeout : Bool = elim t.close_timeout [ none ↦ true | some j ↦ false ] in
    if no_timeout && t.bar_open then close_controlbar t else t
