-- ===== src/Ui/Listeners/Tests.antt =====
-- Concrete runs of the listeners of app/ui.js.
use docker_baseimage_gui.Prelude.{true, false, none, List, [], ◌∷◌, map, if◌then◌else◌, ◌≡◌}
use docker_baseimage_gui.Prelude.Text.{codes}
use docker_baseimage_gui.Ui.Clipboard
use docker_baseimage_gui.Ui.Listeners.{element, clipboard_send, clipboard_clear, called_on}
use docker_baseimage_gui.Ui.Listeners.Registered.{start_listeners}
use docker_baseimage_gui.Ui.Listeners.Section.{
  Call, adds, removes, registered_after, followed, registered_after-has_handlers,
}
use docker_baseimage_gui.Prelude.Integers.{pos}
use docker_baseimage_gui.Page.{Features}
use docker_baseimage_gui.Ui.ControlBar.{ControlBar, Layout}
use docker_baseimage_gui.Ui.ControlBar.Step.{session_connected, handle_pressed, run, start}
use docker_baseimage_gui.Ui.Listeners.Bar.{Pointer, on_handle, mouseup, happens, meaning}
use docker_baseimage_gui.Ui.Listeners.Gestures.{happens-run}

abbrev layout : Layout
layout = record {
  inner_width = 1000;
  bar_top = 100;
  bar_height = 400;
  handle_height = 50;
  drag_threshold = 10;
}

abbrev pointer : Pointer
pointer = record { x = pos 60; y = pos 220; handle_top = pos 200; first_button = true }

abbrev features : Features
features = record {
  has_audio = true;
  has_file_manager = true;
  has_notification = false;
  has_terminal = true;
}

-- The handle has been pressed.
abbrev grabbed : ControlBar
grabbed =
    run ((layout, session_connected) ∷ (layout, handle_pressed (pos 220) (pos 200)) ∷ [])
      (start false false none)

happens-run_example :
    happens layout pointer features true (on_handle mouseup) grabbed
    ≡ run (map (λ e. (layout, e)) (meaning layout pointer (on_handle mouseup) grabbed)) grabbed
happens-run_example = happens-run layout pointer features true (on_handle mouseup) grabbed

abbrev calls : List Call
calls = removes ∷ adds ∷ adds ∷ []

registered_after-has_handlers_example :
    let ls = registered_after calls (start_listeners features true) in
    let b = (followed calls (Clipboard.loaded true false)).has_handlers in
    (called_on (element (codes "noVNC_clipboard_text")) (codes "change") false ls
      ≡ (if b then clipboard_send ∷ [] else []))
    × (called_on (element (codes "noVNC_clipboard_clear_button")) (codes "click") false ls
        ≡ (if b then clipboard_clear ∷ [] else []))
registered_after-has_handlers_example = registered_after-has_handlers features true true false calls
