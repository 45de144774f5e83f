-- ===== src/Ui/Listeners/Registered.antt =====
-- What app/ui.js registers: addControlbarHandlers to addTerminalHandlers, and the end of start.
use docker_baseimage_gui.Prelude.{Bool, true, false, List, [], ◌∷◌, ◌++◌, map, if◌then◌else◌}
use docker_baseimage_gui.Prelude.Text.{Text, codes}
use docker_baseimage_gui.Page.{Features}
use docker_baseimage_gui.Ui.Settings.Handlers.{Action, handlers}
use docker_baseimage_gui.Ui.Listeners.{
  document_element, element, form_around, activate_controlbar, keep_controlbar, toggle_view_drag,
  update_controlbar_handle, controlbar_handle_mouse_down, controlbar_handle_mouse_up,
  drag_controlbar_handle, toggle_virtual_keyboard, key_input, onfocus_virtual_keyboard,
  onblur_virtual_keyboard, keep_virtual_keyboard, set_credentials, clipboard_send, clipboard_clear,
  hide_status, toggle_fullscreen, update_fullscreen_button, toggle_audio, change_setting,
  activate_and_stay, ignore_submit, open_file_manager, close_file_manager, open_terminal,
  close_terminal, resize_terminal, redraw_body, Listener, add_event_listener, remove_event_listener,
  add_all, on, on_window,
}

unfoldable pub add_controlbar_handlers : List Listener → List Listener
unfolding add_all
add_controlbar_handlers ls =
    add_all
      (on "noVNC_control_bar" "mousemove" activate_and_stay
        ∷ on "noVNC_control_bar" "mouseleave" activate_controlbar
        ∷ on "noVNC_control_bar" "mouseup" activate_and_stay
        ∷ on "noVNC_control_bar" "mousedown" activate_and_stay
        ∷ on "noVNC_control_bar" "keydown" activate_controlbar
        ∷ on "noVNC_control_bar" "mousedown" keep_controlbar
        ∷ on "noVNC_control_bar" "keydown" keep_controlbar
        ∷ on "noVNC_view_drag_button" "click" toggle_view_drag
        ∷ on "noVNC_control_bar_handle" "mousedown" controlbar_handle_mouse_down
        ∷ on "noVNC_control_bar_handle" "mouseup" controlbar_handle_mouse_up
        ∷ on "noVNC_control_bar_handle" "mousemove" drag_controlbar_handle
        ∷ on_window "resize" update_controlbar_handle
        ∷ [])
      ls

-- The new Keyboard is noVNC's.
unfoldable pub add_touch_specific_handlers : List Listener → List Listener
unfolding add_all
add_touch_specific_handlers ls =
    add_all
      (on "noVNC_keyboard_button" "click" toggle_virtual_keyboard
        ∷ on "noVNC_keyboardinput" "input" key_input
        ∷ on "noVNC_keyboardinput" "focus" onfocus_virtual_keyboard
        ∷ on "noVNC_keyboardinput" "blur" onblur_virtual_keyboard
        ∷ on "noVNC_keyboardinput" "submit" ignore_submit
        ∷ record {
          target = document_element;
          kind = codes "mousedown";
          handler = keep_virtual_keyboard;
          capture = true;
        }
        ∷ on "noVNC_control_bar" "touchstart" activate_controlbar
        ∷ on "noVNC_control_bar" "touchmove" activate_controlbar
        ∷ on "noVNC_control_bar" "touchend" activate_controlbar
        ∷ on "noVNC_control_bar" "input" activate_controlbar
        ∷ on "noVNC_control_bar" "touchstart" keep_controlbar
        ∷ on "noVNC_control_bar" "input" keep_controlbar
        ∷ on "noVNC_control_bar_handle" "touchstart" controlbar_handle_mouse_down
        ∷ on "noVNC_control_bar_handle" "touchend" controlbar_handle_mouse_up
        ∷ on "noVNC_control_bar_handle" "touchmove" drag_controlbar_handle
        ∷ [])
      ls

unfoldable pub add_connection_control_handlers : List Listener → List Listener
unfolding add_event_listener
add_connection_control_handlers ls =
    add_event_listener
      (record {
        target = form_around (codes "noVNC_credentials_button");
        kind = codes "submit";
        handler = set_credentials;
        capture = false;
      })
      ls

unfoldable pub add_clipboard_handlers : List Listener → List Listener
unfolding add_event_listener
add_clipboard_handlers ls =
    add_event_listener (on "noVNC_clipboard_clear_button" "click" clipboard_clear)
      (add_event_listener (on "noVNC_clipboard_text" "change" clipboard_send) ls)

unfoldable pub remove_clipboard_handlers : List Listener → List Listener
unfolding remove_event_listener
remove_clipboard_handlers ls =
    remove_event_listener (on "noVNC_clipboard_clear_button" "click" clipboard_clear)
      (remove_event_listener (on "noVNC_clipboard_text" "change" clipboard_send) ls)

abbrev setting_listener : Text × Action → Listener
setting_listener p = record {
  target = element (codes "noVNC_setting_" ++ p.0);
  kind = codes "change";
  handler = change_setting p.0 p.1;
  capture = false;
}

unfoldable pub add_settings_handlers : List Listener → List Listener
unfolding add_all handlers
add_settings_handlers ls = add_all (map setting_listener handlers) ls

unfoldable pub add_fullscreen_handlers : List Listener → List Listener
unfolding add_all
add_fullscreen_handlers ls =
    add_all
      (on "noVNC_fullscreen_button" "click" toggle_fullscreen
        ∷ on_window "fullscreenchange" update_fullscreen_button
        ∷ on_window "mozfullscreenchange" update_fullscreen_button
        ∷ on_window "webkitfullscreenchange" update_fullscreen_button
        ∷ on_window "msfullscreenchange" update_fullscreen_button
        ∷ [])
      ls

unfoldable pub add_audio_handlers : List Listener → List Listener
unfolding add_event_listener
add_audio_handlers ls = add_event_listener (on "noVNC_audio_button" "click" toggle_audio) ls

unfoldable pub add_file_manager_handlers : List Listener → List Listener
unfolding add_all
add_file_manager_handlers ls =
    add_all
      (on "fmgr_modal" "shown.bs.modal" open_file_manager
        ∷ on "fmgr_modal" "hidden.bs.modal" close_file_manager
        ∷ [])
      ls

unfoldable pub add_terminal_handlers : List Listener → List Listener
unfolding add_all
add_terminal_handlers ls =
    add_all
      (on "terminal_modal" "shown.bs.modal" open_terminal
        ∷ on "terminal_modal" "hidden.bs.modal" close_terminal
        ∷ on_window "resize" resize_terminal
        ∷ [])
      ls

-- start: first those of the services that there are, and of fullscreen where it is supported.
unfoldable pub feature_listeners : Features → Bool → List Listener
unfolding add_fullscreen_handlers add_audio_handlers add_file_manager_handlers add_terminal_handlers
feature_listeners k can_fullscreen =
    let audio = if k.has_audio then add_audio_handlers [] else [] in
    let files = if k.has_file_manager then add_file_manager_handlers audio else audio in
    let terminal = if k.has_terminal then add_terminal_handlers files else files in
    if can_fullscreen then add_fullscreen_handlers terminal else terminal

unfoldable pub start_listeners : Features → Bool → List Listener
unfolding feature_listeners add_controlbar_handlers add_touch_specific_handlers
    add_connection_control_handlers add_clipboard_handlers add_settings_handlers
start_listeners k can_fullscreen =
    let controls =
      add_touch_specific_handlers (add_controlbar_handlers (feature_listeners k can_fullscreen)) in
    let clipboard = add_clipboard_handlers (add_connection_control_handlers controls) in
    add_event_listener (on_window "orientationchange" redraw_body)
      (add_event_listener (on "noVNC_status" "click" hide_status) (add_settings_handlers clipboard))
