-- ===== src/Ui/Fullscreen.antt =====
-- Fullscreen: toggleFullscreen and updateFullscreenButton of app/ui.js.
use docker_baseimage_gui.Prelude.{Bool, true, ◌||◌, List, ◌∷◌, if◌then◌else◌, ◌≡◌, arith}

-- A name of the four that browsers have given to a function or an attribute.
pub data Vendor : Type 0 where
  standard moz webkit ms : Vendor

-- Which attribute names a fullscreen element, which functions the browser has, and the calls, newest
-- first.
pub record Screen : Type 0 where
  pub element : Vendor → Bool
  pub exits : Vendor → Bool
  pub requests : Vendor → Bool
  pub exited : List Vendor
  pub requested : List Vendor
  pub button_selected : Bool

abbrev pub is_fullscreen : Screen → Bool
is_fullscreen s = s.element standard || (s.element moz || (s.element webkit || s.element ms))

unfoldable pub update_fullscreen_button : Screen → Screen
update_fullscreen_button s = record s { button_selected = is_fullscreen s }

abbrev pub call_exit : Vendor → Screen → Screen
call_exit v s = record s { exited = v ∷ s.exited }

abbrev pub call_request : Vendor → Screen → Screen
call_request v s = record s { requested = v ∷ s.requested }

unfoldable pub exit_fullscreen : Screen → Screen
exit_fullscreen s =
    if s.exits standard
    then call_exit standard s
    else if s.exits moz
    then call_exit moz s
    else if s.exits webkit
    then call_exit webkit s
    else if s.exits ms
    then call_exit ms s
    else s

unfoldable pub request_fullscreen : Screen → Screen
request_fullscreen s =
    if s.requests standard
    then call_request standard s
    else if s.requests moz
    then call_request moz s
    else if s.requests webkit
    then call_request webkit s
    else if s.requests ms
    then call_request ms s
    else s

-- What the calls change is told by an event, for which updateFullscreenButton is the handler.
unfoldable pub toggle_fullscreen : Screen → Screen
unfolding exit_fullscreen request_fullscreen update_fullscreen_button
toggle_fullscreen s =
    update_fullscreen_button (if is_fullscreen s then exit_fullscreen s else request_fullscreen s)

-- A click asks to leave only where an element is shown in fullscreen and to enter only where none is,
-- by a function that the browser has.
pub toggle_fullscreen-asks :
    (s : Screen)
    → s.exits standard ≡ true
    → s.requests standard ≡ true
    → let t = toggle_fullscreen s in
      (t.exited ≡ (if is_fullscreen s then standard ∷ s.exited else s.exited))
      × (t.requested ≡ (if is_fullscreen s then s.requested else standard ∷ s.requested))
      × (t.button_selected ≡ is_fullscreen t)
unfolding toggle_fullscreen exit_fullscreen request_fullscreen update_fullscreen_button
toggle_fullscreen-asks s e r = ground arith
