-- ===== src/Ui/Listeners.antt =====
-- The listeners that app/ui.js registers when the page starts, addControlbarHandlers to
-- addTerminalHandlers and the end of start, and how the browser calls them. Arrow functions are new
-- objects each time; a function of UI that is registered already is not registered again.
pub mod Registered
pub mod Bar
pub mod Silence
pub mod Route
pub mod Gestures
pub mod Removal
pub mod Section
mod Tests
use Prim.Native.String.{String}
use docker_baseimage_gui.Prelude.{
  ℕ, ◌+◌, Bool, true, false, not, ◌&&◌, ◌||◌, Option, none, some, List, [], ◌∷◌, ◌++◌, map, take,
  ◌==◌, if◌then◌else◌,
}
use docker_baseimage_gui.Prelude.Text.{Text, codes, text_eq}
use docker_baseimage_gui.Ui.Settings.Handlers.{
  Action, save, update_quality, update_compression, update_logging, apply_resize_mode,
  update_view_clip, update_host_clipboard_sync, update_audio_volume,
}

-- The window, the document element, an element of the page by its id, and the form around one.
pub data Target : Type 0 where
  window document_element : Target
  element form_around : Text → Target

abbrev same_target : Target → Target → Bool
same_target window window = true
same_target document_element document_element = true
same_target (element n) (element m) = text_eq n m
same_target (form_around n) (form_around m) = text_eq n m
same_target t u = false

-- The functions of UI that are registered by their name, and then the arrow functions.
pub data Handler : Type 0 where
  activate_controlbar keep_controlbar toggle_view_drag update_controlbar_handle : Handler
  controlbar_handle_mouse_down controlbar_handle_mouse_up drag_controlbar_handle : Handler
  toggle_virtual_keyboard key_input onfocus_virtual_keyboard onblur_virtual_keyboard : Handler
  keep_virtual_keyboard set_credentials clipboard_send clipboard_clear hide_status : Handler
  toggle_fullscreen update_fullscreen_button toggle_audio : Handler
  change_setting : Text → Action → Handler
  activate_and_stay ignore_submit open_file_manager close_file_manager : Handler
  open_terminal close_terminal resize_terminal redraw_body : Handler

-- What tells the functions of UI apart; an arrow function has no name.
abbrev action_name : Action → Option ℕ
action_name save = none
action_name update_quality = some 19
action_name update_compression = some 20
action_name update_logging = some 21
action_name apply_resize_mode = some 22
action_name update_view_clip = some 23
action_name update_host_clipboard_sync = some 24
action_name update_audio_volume = some 25

abbrev pub name_of : Handler → Option ℕ
name_of activate_controlbar = some 0
name_of keep_controlbar = some 1
name_of toggle_view_drag = some 2
name_of update_controlbar_handle = some 3
name_of controlbar_handle_mouse_down = some 4
name_of controlbar_handle_mouse_up = some 5
name_of drag_controlbar_handle = some 6
name_of toggle_virtual_keyboard = some 7
name_of key_input = some 8
name_of onfocus_virtual_keyboard = some 9
name_of onblur_virtual_keyboard = some 10
name_of keep_virtual_keyboard = some 11
name_of set_credentials = some 12
name_of clipboard_send = some 13
name_of clipboard_clear = some 14
name_of hide_status = some 15
name_of toggle_fullscreen = some 16
name_of update_fullscreen_button = some 17
name_of toggle_audio = some 18
name_of (change_setting n a) = action_name a
name_of h = none

abbrev pub same_name : Option ℕ → Option ℕ → Bool
same_name (some i) (some j) = i == j
same_name o p = false

pub record Listener : Type 0 where
  pub target : Target
  pub kind : Text
  pub handler : Handler
  pub capture : Bool

abbrev pub listens : Target → Text → Bool → Listener → Bool
listens t kind capture l =
    (if capture then l.capture else not l.capture)
    && (text_eq kind l.kind && same_target t l.target)

abbrev pub same_listener : Listener → Listener → Bool
same_listener l m =
    same_name (name_of l.handler) (name_of m.handler) && listens l.target l.kind l.capture m

abbrev pub is_registered : Listener → List Listener → Bool
is_registered l [] = false
is_registered l (m ∷ ms) = same_listener l m || is_registered l ms

unfoldable pub add_event_listener : Listener → List Listener → List Listener
unfolding text_eq
add_event_listener l ls = if is_registered l ls then ls else ls ++ (l ∷ [])

unfoldable pub remove_event_listener : Listener → List Listener → List Listener
unfolding text_eq
remove_event_listener l [] = []
remove_event_listener l (m ∷ ms) =
    let rest = remove_event_listener l ms in if same_listener l m then rest else m ∷ rest

unfoldable pub add_all : List Listener → List Listener → List Listener
unfolding add_event_listener
add_all [] ls = ls
add_all (m ∷ ms) ls = add_all ms (add_event_listener m ls)

-- The listeners of one target for a kind of event, in the order in which they were registered.
unfoldable pub called_on : Target → Text → Bool → List Listener → List Handler
unfolding text_eq
called_on t kind capture [] = []
called_on t kind capture (l ∷ ls) =
    let rest = called_on t kind capture ls in
    if listens t kind capture l then l.handler ∷ rest else rest

-- `element.addEventListener(kind, handler)`
abbrev pub on : String → String → Handler → Listener
on name kind handler = record {
  target = element (codes name);
  kind = codes kind;
  handler = handler;
  capture = false;
}

abbrev pub on_window : String → Handler → Listener
on_window kind handler = record {
  target = window;
  kind = codes kind;
  handler = handler;
  capture = false;
}

-- From the last target of a path to its first.
abbrev downwards : List Target → List Target
downwards [] = []
downwards (t ∷ ts) = downwards ts ++ (t ∷ [])

-- Where an event comes by: from the window down to the target, where the listeners with `capture` are
-- called, and up again, if the event bubbles. The path begins at the target.
abbrev pub legs : List Target → Bool → List (Target × Bool)
legs path bubbles =
    map (λ t. (t, true)) (downwards path)
    ++ map (λ t. (t, false)) (if bubbles then path else take 1 path)

-- The handlers of an event, target by target.
unfoldable pub route : List Target → Text → Bool → List Listener → List (List Handler)
unfolding called_on
route path kind bubbles ls = map (λ leg. called_on leg.0 kind leg.1 ls) (legs path bubbles)

-- How the browser calls them: a state, what a handler does to it, and whether the handler stops the
-- propagation.
module _ {S : Type 0} (react : Handler → S → S) (stops : Handler → S → Bool) where
  -- All listeners of one target are called, also those behind the one that stops.
  unfoldable pub visit : List Handler → S × Bool → S × Bool
  visit [] r = r
  visit (h ∷ hs) r = visit hs (react h r.0, r.1 || stops h r.0)

  unfoldable pub propagate : List (List Handler) → S → S
  unfolding visit
  propagate [] s = s
  propagate (hs ∷ rest) s =
      let r = visit hs (s, false) in
      let further = propagate rest r.0 in if r.1 then r.0 else further

  unfoldable pub dispatch : List Target → Text → Bool → List Listener → S → S
  unfolding route propagate
  dispatch path kind bubbles ls s = propagate (route path kind bubbles ls) s
