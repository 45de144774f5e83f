-- ===== src/Ui/Listeners/Bar.antt =====
-- What the listeners of app/ui.js do to the control bar when the browser calls them: the events of the
-- pointer on the handle, which may stop at the handle or go on to the bar, those on the bar, and the
-- sizes of the window.
use docker_baseimage_gui.Prelude.{
  Bool, true, false, not, ◌&&◌, ◌||◌, List, [], ◌∷◌, ltb, if◌then◌else◌,
}
use docker_baseimage_gui.Prelude.Integers.{ℤ, ◌-ℤ◌, abs}
use docker_baseimage_gui.Prelude.Text.{Text, codes, text_eq}
use docker_baseimage_gui.Page.{Features}
use docker_baseimage_gui.Ui.ControlBar.{ControlBar, Layout, change_side}
use docker_baseimage_gui.Ui.ControlBar
use docker_baseimage_gui.Ui.ControlBar.Step.{
  Event, handle_pressed, handle_moved, window_resized, handle_released, bar_pointed, bar_left,
  bar_pressed, bar_typed, pointed,
}
use docker_baseimage_gui.Ui.Listeners.{
  Target, window, document_element, element, Handler, activate_controlbar, keep_controlbar,
  update_controlbar_handle, controlbar_handle_mouse_down, controlbar_handle_mouse_up,
  drag_controlbar_handle, activate_and_stay, dispatch,
}
use docker_baseimage_gui.Ui.Listeners.Registered.{start_listeners}

-- The positions of the pointer and of the handle, and whether it is the first button of the mouse.
pub record Pointer : Type 0 where
  pub x : ℤ
  pub y : ℤ
  pub handle_top : ℤ
  pub first_button : Bool

-- The events on the handle, on the rest of the bar, and of the window.
pub data Kind : Type 0 where
  mousedown mouseup mousemove touchstart touchend touchmove : Kind

pub data Gesture : Type 0 where
  on_handle on_bar : Kind → Gesture
  mouseleave_of_bar keydown_on_bar input_on_bar resize_of_window : Gesture

abbrev pub kind_name : Kind → Text
kind_name mousedown = codes "mousedown"
kind_name mouseup = codes "mouseup"
kind_name mousemove = codes "mousemove"
kind_name touchstart = codes "touchstart"
kind_name touchend = codes "touchend"
kind_name touchmove = codes "touchmove"

abbrev pub kind_of : Gesture → Text
kind_of (on_handle k) = kind_name k
kind_of (on_bar k) = kind_name k
kind_of mouseleave_of_bar = codes "mouseleave"
kind_of keydown_on_bar = codes "keydown"
kind_of input_on_bar = codes "input"
kind_of resize_of_window = codes "resize"

-- The handle is within the bar.
abbrev pub bar_path : List Target
bar_path =
    element (codes "noVNC_control_bar")
    ∷ element (codes "noVNC_control_bar_anchor")
    ∷ document_element
    ∷ window
    ∷ []

abbrev pub handle_path : List Target
handle_path = element (codes "noVNC_control_bar_handle") ∷ bar_path

abbrev pub path_of : Gesture → List Target
path_of (on_handle k) = handle_path
path_of resize_of_window = window ∷ []
path_of g = bar_path

abbrev pub bubbles : Gesture → Bool
bubbles mouseleave_of_bar = false
bubbles g = true

-- The handlers of the handle return at once for another button of the mouse.
abbrev ignores : Text → Text → Pointer → Bool
ignores mouse_kind kind p = text_eq kind mouse_kind && not p.first_button

module _ (l : Layout) (p : Pointer) where
  -- What a handler does to the bar; the others leave it as it is.
  unfoldable pub react : Text → Handler → ControlBar → ControlBar
  react kind activate_controlbar s = ControlBar.activate_controlbar s
  react kind activate_and_stay s = pointed s
  react kind keep_controlbar s = ControlBar.keep_controlbar s
  react kind update_controlbar_handle s = ControlBar.update_controlbar_handle l p.handle_top s
  react kind drag_controlbar_handle s = ControlBar.drag_controlbar_handle l p.x p.y s
  react kind controlbar_handle_mouse_down s =
      if ignores (codes "mousedown") kind p
      then s
      else ControlBar.controlbar_handle_mouse_down p.y p.handle_top s
  react kind controlbar_handle_mouse_up s =
      if ignores (codes "mouseup") kind p then s else ControlBar.controlbar_handle_mouse_up s
  react kind h s = s

  -- The pointer has been dragged by the threshold, or the bar has just changed its side.
  abbrev pub is_drag : ControlBar → Bool
  is_drag s =
      let t = change_side l p.x s in
      s.grabbed && (t.dragged || not (ltb (abs (p.y -ℤ t.mouse_down_client_y)) l.drag_threshold))

  -- Whether a handler stops the propagation.
  unfoldable pub stops : Text → Handler → ControlBar → Bool
  stops kind drag_controlbar_handle s = is_drag s
  stops kind controlbar_handle_mouse_down s = not (ignores (codes "mousedown") kind p)
  stops kind controlbar_handle_mouse_up s =
      not (ignores (codes "mouseup") kind p) && (s.grabbed && not s.dragged)
  stops kind h s = false

  unfoldable pub happens : Features → Bool → Gesture → ControlBar → ControlBar
  unfolding dispatch react stops start_listeners
  happens k can_fullscreen g s =
      dispatch (react (kind_of g)) (stops (kind_of g)) (path_of g) (kind_of g) (bubbles g)
        (start_listeners k can_fullscreen) s

  -- The events of the control bar that a gesture is: those on the handle go on to the bar, except for
  -- a press of the first button or a touch, the release that is a click, and a drag.
  unfoldable pub meaning : Gesture → ControlBar → List Event
  meaning (on_handle mousedown) s =
      if p.first_button then handle_pressed p.y p.handle_top ∷ [] else bar_pressed ∷ []
  meaning (on_handle mouseup) s =
      if not p.first_button
      then bar_pointed ∷ []
      else if s.grabbed && not s.dragged
      then handle_released ∷ []
      else handle_released ∷ bar_pointed ∷ []
  meaning (on_handle mousemove) s =
      if is_drag s then handle_moved p.x p.y ∷ [] else handle_moved p.x p.y ∷ bar_pointed ∷ []
  meaning (on_handle touchstart) s = handle_pressed p.y p.handle_top ∷ []
  meaning (on_handle touchend) s =
      if s.grabbed && not s.dragged then handle_released ∷ [] else handle_released ∷ bar_left ∷ []
  meaning (on_handle touchmove) s =
      if is_drag s then handle_moved p.x p.y ∷ [] else handle_moved p.x p.y ∷ bar_left ∷ []
  meaning (on_bar mousedown) s = bar_pressed ∷ []
  meaning (on_bar mouseup) s = bar_pointed ∷ []
  meaning (on_bar mousemove) s = bar_pointed ∷ []
  meaning mouseleave_of_bar s = bar_left ∷ []
  meaning (on_bar touchstart) s = bar_typed ∷ []
  meaning (on_bar touchend) s = bar_left ∷ []
  meaning (on_bar touchmove) s = bar_left ∷ []
  meaning keydown_on_bar s = bar_typed ∷ []
  meaning input_on_bar s = bar_typed ∷ []
  meaning resize_of_window s = window_resized p.handle_top ∷ []
