-- ===== src/Ui/Listeners/Route.antt =====
-- Which handlers of app/ui.js the browser calls for the events around the control bar.
use docker_baseimage_gui.Prelude.{
  Bool, true, false, List, [], ◌∷◌, ◌++◌, map, if◌then◌else◌, ◌≡◌, refl, ap, ◌∙◌, arith,
}
use docker_baseimage_gui.Prelude.Text.{Text}
use docker_baseimage_gui.Page.{Features}
use docker_baseimage_gui.Ui.Listeners.{
  Target, Handler, activate_controlbar, keep_controlbar, update_controlbar_handle,
  controlbar_handle_mouse_down, controlbar_handle_mouse_up, drag_controlbar_handle,
  activate_and_stay, keep_virtual_keyboard, resize_terminal, Listener, called_on, legs, route,
}
use docker_baseimage_gui.Ui.Listeners.Registered.{feature_listeners, start_listeners}
use docker_baseimage_gui.Ui.Listeners.Bar.{
  Gesture, mousedown, on_handle, on_bar, Kind, mouseup, mousemove, touchstart, touchend, touchmove,
  mouseleave_of_bar, keydown_on_bar, input_on_bar, resize_of_window, kind_of, path_of, bubbles,
}
use docker_baseimage_gui.Ui.Listeners.Silence.{called_on-append, silent, feature_listeners-silent}

-- The handlers of the bar and of the handle that are called, in their order.
abbrev handlers_on_bar : Kind → List Handler
handlers_on_bar mousedown = activate_and_stay ∷ keep_controlbar ∷ []
handlers_on_bar mouseup = activate_and_stay ∷ []
handlers_on_bar mousemove = activate_and_stay ∷ []
handlers_on_bar touchstart = activate_controlbar ∷ keep_controlbar ∷ []
handlers_on_bar touchend = activate_controlbar ∷ []
handlers_on_bar touchmove = activate_controlbar ∷ []

-- The route of an event on the bar, of one on the handle, and of one of the window.
abbrev around_bar : List Handler → List Handler → List (List Handler)
around_bar captured hs = [] ∷ captured ∷ [] ∷ [] ∷ hs ∷ [] ∷ [] ∷ [] ∷ []

abbrev around_handle : List Handler → Handler → List Handler → List (List Handler)
around_handle captured h hs = [] ∷ captured ∷ [] ∷ [] ∷ [] ∷ (h ∷ []) ∷ hs ∷ [] ∷ [] ∷ [] ∷ []

abbrev pub expected_route : Bool → Gesture → List (List Handler)
expected_route has_terminal (on_handle mousedown) =
    around_handle (keep_virtual_keyboard ∷ []) controlbar_handle_mouse_down
      (handlers_on_bar mousedown)
expected_route has_terminal (on_handle mouseup) =
    around_handle [] controlbar_handle_mouse_up (handlers_on_bar mouseup)
expected_route has_terminal (on_handle mousemove) =
    around_handle [] drag_controlbar_handle (handlers_on_bar mousemove)
expected_route has_terminal (on_handle touchstart) =
    around_handle [] controlbar_handle_mouse_down (handlers_on_bar touchstart)
expected_route has_terminal (on_handle touchend) =
    around_handle [] controlbar_handle_mouse_up (handlers_on_bar touchend)
expected_route has_terminal (on_handle touchmove) =
    around_handle [] drag_controlbar_handle (handlers_on_bar touchmove)
expected_route has_terminal (on_bar mousedown) =
    around_bar (keep_virtual_keyboard ∷ []) (handlers_on_bar mousedown)
expected_route has_terminal mouseleave_of_bar = [] ∷ [] ∷ [] ∷ [] ∷ (activate_controlbar ∷ []) ∷ []
expected_route has_terminal resize_of_window =
    []
    ∷ (if has_terminal
        then resize_terminal ∷ update_controlbar_handle ∷ []
        else update_controlbar_handle ∷ [])
    ∷ []
expected_route has_terminal (on_bar k) = around_bar [] (handlers_on_bar k)
expected_route has_terminal g = around_bar [] (activate_controlbar ∷ keep_controlbar ∷ [])

abbrev no_features : Features
no_features = record {
  has_audio = false;
  has_file_manager = false;
  has_notification = false;
  has_terminal = false;
}

-- The rest of start registers the same whatever there is already.
start_listeners-append :
    (k : Features) (can_fullscreen : Bool)
    → start_listeners k can_fullscreen
      ≡ feature_listeners k can_fullscreen ++ start_listeners no_features false
unfolding start_listeners feature_listeners
start_listeners-append k can_fullscreen = ground arith

-- The handlers of two lists of listeners, target by target.
abbrev joined : List (List Handler) → List (List Handler) → List (List Handler)
joined (hs ∷ rs) (js ∷ qs) = (hs ++ js) ∷ joined rs qs
joined rs qs = []

map-joined :
    (kind : Text) (ls ms : List Listener) (ts : List (Target × Bool))
    → map (λ t. called_on t.0 kind t.1 (ls ++ ms)) ts
      ≡ joined (map (λ t. called_on t.0 kind t.1 ls) ts) (map (λ t. called_on t.0 kind t.1 ms) ts)
map-joined kind ls ms [] = refl
map-joined kind ls ms (t ∷ ts) = rw (called_on-append t.0 kind t.1 ls ms, map-joined kind ls ms ts)

route-append :
    (path : List Target) (kind : Text) (b : Bool) (ls ms : List Listener)
    → route path kind b (ls ++ ms) ≡ joined (route path kind b ls) (route path kind b ms)
unfolding route
route-append path kind b ls ms = map-joined kind ls ms (legs path b)

-- The listeners of the features only take part in the events of the window.
abbrev feature_route : Bool → Gesture → List (List Handler)
feature_route has_terminal resize_of_window =
    [] ∷ (if has_terminal then resize_terminal ∷ [] else []) ∷ []
feature_route has_terminal g = silent (legs (path_of g) (bubbles g))

feature_listeners-route :
    (k : Features) (can_fullscreen : Bool) (g : Gesture)
    → route (path_of g) (kind_of g) (bubbles g) (feature_listeners k can_fullscreen)
      ≡ feature_route k.has_terminal g
unfolding route feature_listeners
feature_listeners-route k b resize_of_window = ground arith
feature_listeners-route k b (on_handle x) = feature_listeners-silent k b (on_handle x) refl
feature_listeners-route k b (on_bar x) = feature_listeners-silent k b (on_bar x) refl
feature_listeners-route k b mouseleave_of_bar = feature_listeners-silent k b mouseleave_of_bar refl
feature_listeners-route k b keydown_on_bar = feature_listeners-silent k b keydown_on_bar refl
feature_listeners-route k b input_on_bar = feature_listeners-silent k b input_on_bar refl

feature_route-joined :
    (has_terminal : Bool) (g : Gesture)
    → joined
        (feature_route has_terminal g)
        (route (path_of g) (kind_of g) (bubbles g) (start_listeners no_features false))
      ≡ expected_route has_terminal g
unfolding route start_listeners
feature_route-joined b (on_handle mousedown) = refl
feature_route-joined b (on_handle mouseup) = refl
feature_route-joined b (on_handle mousemove) = refl
feature_route-joined b (on_handle touchstart) = refl
feature_route-joined b (on_handle touchend) = refl
feature_route-joined b (on_handle touchmove) = refl
feature_route-joined b (on_bar mousedown) = refl
feature_route-joined b (on_bar mouseup) = refl
feature_route-joined b (on_bar mousemove) = refl
feature_route-joined b mouseleave_of_bar = refl
feature_route-joined b (on_bar touchstart) = refl
feature_route-joined b (on_bar touchend) = refl
feature_route-joined b (on_bar touchmove) = refl
feature_route-joined b keydown_on_bar = refl
feature_route-joined b input_on_bar = refl
feature_route-joined true resize_of_window = refl
feature_route-joined false resize_of_window = refl

pub start_listeners-route :
    (k : Features) (can_fullscreen : Bool) (g : Gesture)
    → route (path_of g) (kind_of g) (bubbles g) (start_listeners k can_fullscreen)
      ≡ expected_route k.has_terminal g
start_listeners-route k can_fullscreen g =
    ap (route (path_of g) (kind_of g) (bubbles g)) (start_listeners-append k can_fullscreen)
    ∙ route-append (path_of g) (kind_of g) (bubbles g) _ _
    ∙ ap
        (λ r.
          joined r (route (path_of g) (kind_of g) (bubbles g) (start_listeners no_features false)))
        (feature_listeners-route k can_fullscreen g)
    ∙ feature_route-joined k.has_terminal g
