-- ===== src/Ui/Listeners/Gestures.antt =====
-- The events on the control bar of app/ui.js as the browser reports them, and the events of its model.
use docker_baseimage_gui.Prelude.{Bool, map, ◌≡◌, ap, ◌∙◌, arith}
use docker_baseimage_gui.Prelude.Text.{text_eq}
use docker_baseimage_gui.Page.{Features}
use docker_baseimage_gui.Ui.ControlBar.{ControlBar, Layout}
use docker_baseimage_gui.Ui.ControlBar.Step.{pressed, typed, step, run}
use docker_baseimage_gui.Ui.Listeners.{propagate, dispatch}
use docker_baseimage_gui.Ui.Listeners.Bar.{
  Pointer, Gesture, mousedown, on_handle, on_bar, mouseup, mousemove, touchstart, touchend,
  touchmove, mouseleave_of_bar, keydown_on_bar, input_on_bar, resize_of_window, kind_of, react,
  stops, happens, meaning,
}
use docker_baseimage_gui.Ui.Listeners.Route.{expected_route, start_listeners-route}

module _ (l : Layout) (p : Pointer) where
  -- What the handlers on the route do, while they are not stopped.
  propagate-run :
      (b : Bool) (g : Gesture) (s : ControlBar)
      → propagate (react l p (kind_of g)) (stops l p (kind_of g)) (expected_route b g) s
        ≡ run (map (λ e. (l, e)) (meaning l p g s)) s
  unfolding propagate react stops meaning run step text_eq pressed typed
  propagate-run b (on_handle mousedown) s = ground arith
  propagate-run b (on_handle mouseup) s = ground arith
  propagate-run b (on_handle mousemove) s = ground arith
  propagate-run b (on_handle touchstart) s = ground arith
  propagate-run b (on_handle touchend) s = ground arith
  propagate-run b (on_handle touchmove) s = ground arith
  propagate-run b (on_bar mousedown) s = ground arith
  propagate-run b (on_bar mouseup) s = ground arith
  propagate-run b (on_bar mousemove) s = ground arith
  propagate-run b mouseleave_of_bar s = ground arith
  propagate-run b (on_bar touchstart) s = ground arith
  propagate-run b (on_bar touchend) s = ground arith
  propagate-run b (on_bar touchmove) s = ground arith
  propagate-run b keydown_on_bar s = ground arith
  propagate-run b input_on_bar s = ground arith
  propagate-run b resize_of_window s = ground arith

  -- Whatever services there are, the listeners that start registers, called by the browser in the order
  -- of capture and bubbling and until one stops the propagation, do to the control bar what the events
  -- in `meaning` do: the press of the first button, the release that is a click and a drag are seen by
  -- the handle alone, all else on the handle also reaches the bar.
  pub happens-run :
      (k : Features) (can_fullscreen : Bool) (g : Gesture) (s : ControlBar)
      → happens l p k can_fullscreen g s ≡ run (map (λ e. (l, e)) (meaning l p g s)) s
  unfolding happens dispatch
  happens-run k can_fullscreen g s =
      ap (λ r. propagate (react l p (kind_of g)) (stops l p (kind_of g)) r s)
        (start_listeners-route k can_fullscreen g)
      ∙ propagate-run k.has_terminal g s
