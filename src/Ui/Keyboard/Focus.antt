-- ===== src/Ui/Keyboard/Focus.antt =====
-- Showing and hiding the virtual keyboard: showVirtualKeyboard to keepVirtualKeyboard, keyEvent, sendKey
-- and updateViewOnly of app/ui.js. The keyboard is shown by the device while noVNC_keyboardinput is the
-- active element; the listeners of its focus and blur events run at once.
use docker_baseimage_gui.Prelude.{
  ℕ, Bool, true, false, not, ◌&&◌, ◌||◌, List, [], ◌∷◌, if◌then◌else◌, ◌≡◌, arith,
}
use docker_baseimage_gui.Prelude.Text.{Text}

-- The active element: noVNC_keyboardinput, the screen, another one.
pub data Active : Type 0 where
  keyboardinput screen other : Active

abbrev pub is_keyboardinput : Active → Bool
is_keyboardinput keyboardinput = true
is_keyboardinput a = false

-- A key that is sent: keysym, code and whether it goes down.
pub record KeyEvent : Type 0 where
  pub keysym : ℕ
  pub code : Text
  pub down : Bool

pub record Touch : Type 0 where
  pub is_touch_device : Bool
  pub active : Active
  pub caret_at_end : Bool
  -- noVNC_keyboard_button.
  pub button_selected : Bool
  pub button_hidden : Bool
  -- UI.rfb is defined; its properties focusOnClick and viewOnly, and the keys sent, the newest first.
  pub rfb : Bool
  pub focus_on_click : Bool
  pub view_only : Bool
  pub keys : List KeyEvent
  pub threw : Bool

-- The listeners of the focus and the blur event.
unfoldable pub onfocus_virtual_keyboard : Touch → Touch
onfocus_virtual_keyboard s = record s {
  button_selected = true;
  focus_on_click = if s.rfb then false else s.focus_on_click;
}

unfoldable pub onblur_virtual_keyboard : Touch → Touch
onblur_virtual_keyboard s = record s {
  button_selected = false;
  focus_on_click = if s.rfb then true else s.focus_on_click;
}

-- `focus()` of an element, or `blur()` where another one becomes active.
abbrev pub moved : Bool → Active → Touch → Touch
moved true keyboardinput s = record s { active = keyboardinput }
moved true a s = onblur_virtual_keyboard (record s { active = a })
moved false keyboardinput s = onfocus_virtual_keyboard (record s { active = keyboardinput })
moved false a s = record s { active = a }

unfoldable pub focus : Active → Touch → Touch
unfolding onfocus_virtual_keyboard onblur_virtual_keyboard
focus a s = moved (is_keyboardinput s.active) a s

unfoldable pub show_virtual_keyboard : Touch → Touch
unfolding focus
show_virtual_keyboard s =
    if not s.is_touch_device || is_keyboardinput s.active
    then s
    else (let t = focus keyboardinput s in record t { caret_at_end = true })

unfoldable pub hide_virtual_keyboard : Touch → Touch
unfolding focus
hide_virtual_keyboard s =
    if not s.is_touch_device || not (is_keyboardinput s.active) then s else focus other s

unfoldable pub toggle_virtual_keyboard : Touch → Touch
unfolding show_virtual_keyboard hide_virtual_keyboard
toggle_virtual_keyboard s =
    if s.button_selected then hide_virtual_keyboard s else show_virtual_keyboard s

-- The target of a press: what belongs to a form, a field that takes texts or a selection.
pub data Target : Type 0 where
  outside_forms text_field form_element : Target

abbrev pub may_take_focus : Target → Bool
may_take_focus text_field = true
may_take_focus t = false

-- Whether the press is prevented from moving the focus.
unfoldable pub keep_virtual_keyboard : Target → Touch → Bool
keep_virtual_keyboard target s = is_keyboardinput s.active && not (may_take_focus target)

unfoldable pub key_event : KeyEvent → Touch → Touch
key_event k s = if s.rfb then record s { keys = k ∷ s.keys } else s

-- Without an RFB object sendKey throws. At the end it calls idleControlbar.
unfoldable pub send_key : KeyEvent → Touch → Touch
unfolding focus
send_key k s =
    let t = record s { keys = k ∷ s.keys } in
    if not s.rfb
    then record s { threw = true }
    else if s.button_selected
    then focus keyboardinput t
    else focus screen t

unfoldable pub update_view_only : Bool → Touch → Touch
update_view_only setting s =
    if s.rfb then record s { view_only = setting; button_hidden = setting } else s

-- connect: noVNC makes an RFB object with focusOnClick set.
unfoldable pub connect : Bool → Touch → Touch
unfolding update_view_only
connect view_only s = update_view_only view_only (record s { rfb = true; focus_on_click = true })

-- The page is loaded.
unfoldable pub loaded : Bool → Touch
loaded is_touch_device = record {
  is_touch_device = is_touch_device;
  active = other;
  caret_at_end = false;
  button_selected = false;
  button_hidden = false;
  rfb = false;
  focus_on_click = false;
  view_only = false;
  keys = [];
  threw = false;
}

-- What can happen: connectFinished ends with the focus on the screen, and a press moves the focus where it is not prevented.
pub data Event : Type 0 where
  button_clicked rfb_gone rfb_connected : Event
  rfb_made : Bool → Event
  pressed : Target → Active → Event
  typed sent : KeyEvent → Event

unfoldable pub step : Event → Touch → Touch
unfolding toggle_virtual_keyboard keep_virtual_keyboard key_event send_key connect focus
step button_clicked s = if s.button_hidden then s else toggle_virtual_keyboard s
step rfb_gone s = record s { rfb = false }
step rfb_connected s = if s.rfb then focus screen s else s
step (rfb_made b) s = if s.rfb then s else connect b s
step (pressed target a) s = if keep_virtual_keyboard target s then s else focus a s
step (typed k) s = key_event k s
step (sent k) s = send_key k s

unfoldable pub run : List Event → Touch → Touch
run [] s = s
run (e ∷ es) s = run es (step e s)

-- The button is selected exactly while the virtual keyboard has the focus.
abbrev pub ShowsFocus : Touch → Type 0
ShowsFocus s = s.button_selected ≡ is_keyboardinput s.active

moved-ShowsFocus :
    (b : Bool) (a : Active) (s : Touch)
    → ShowsFocus s
    → is_keyboardinput s.active ≡ b
    → ShowsFocus (moved b a s)
unfolding onfocus_virtual_keyboard onblur_virtual_keyboard
moved-ShowsFocus true keyboardinput s h e = ground arith
moved-ShowsFocus true screen s h e = ground arith
moved-ShowsFocus true other s h e = ground arith
moved-ShowsFocus false keyboardinput s h e = ground arith
moved-ShowsFocus false screen s h e = ground arith
moved-ShowsFocus false other s h e = ground arith

pub step-ShowsFocus : (e : Event) (s : Touch) → ShowsFocus s → ShowsFocus (step e s)
unfolding step toggle_virtual_keyboard show_virtual_keyboard hide_virtual_keyboard
    keep_virtual_keyboard key_event send_key connect update_view_only focus onfocus_virtual_keyboard
    onblur_virtual_keyboard
step-ShowsFocus button_clicked s h = ground arith
step-ShowsFocus rfb_gone s h = ground arith
step-ShowsFocus rfb_connected s h = ground arith
step-ShowsFocus (rfb_made b) s h = ground arith
step-ShowsFocus (pressed target keyboardinput) s h = ground arith
step-ShowsFocus (pressed target screen) s h = ground arith
step-ShowsFocus (pressed target other) s h = ground arith
step-ShowsFocus (typed k) s h = ground arith
step-ShowsFocus (sent k) s h = ground arith

-- Whatever happens, the button of the virtual keyboard stays selected exactly while it has the focus.
pub run-ShowsFocus : (es : List Event) (s : Touch) → ShowsFocus s → ShowsFocus (run es s)
unfolding run
run-ShowsFocus [] s h = h
run-ShowsFocus (e ∷ es) s h = run-ShowsFocus es (step e s) (step-ShowsFocus e s h)

-- If the RFB object is made anew while the virtual keyboard is shown, the new object takes the focus
-- on a click, which would close the keyboard, until the keyboard is shown again.
pub remade-focuses :
    (view_only : Bool) (s : Touch)
    → s.rfb ≡ true
    → s.active ≡ keyboardinput
    → s.focus_on_click ≡ false
    → let t = step (rfb_made view_only) (step rfb_gone s) in
      (t.active ≡ keyboardinput) × (t.focus_on_click ≡ true)
unfolding step connect update_view_only
remade-focuses view_only s h a f = ground arith

-- At the end of the reconnection the screen takes the focus anyway, which hides the keyboard.
pub reconnected-hides :
    (view_only : Bool) (s : Touch)
    → s.rfb ≡ true
    → let t = step rfb_connected (step (rfb_made view_only) (step rfb_gone s)) in
      (t.active ≡ screen) × (is_keyboardinput s.active ≡ true → t.button_selected ≡ false)
unfolding step connect update_view_only focus onblur_virtual_keyboard
reconnected-hides view_only s h = ground arith
