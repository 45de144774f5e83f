-- ===== src/FileManager/Step.antt =====
-- The handlers that initialize of app/fileManager.js installs, the module's public API, and the
-- events of the browser, as one step function.
use docker_baseimage_gui.Prelude.{ℕ, true, false, Option, none, some, List, [], ◌∷◌, if◌then◌else◌}
use docker_baseimage_gui.Prelude.Text.{Text}
use docker_baseimage_gui.Browser.{
  Callback, connect_web_socket, reset_upload_ui, opened, closed, clear_timeout, may_open,
  may_receive, may_close, set_ready,
}
use docker_baseimage_gui.FileManager.State.{File, create_action, State, discard_popover}
use docker_baseimage_gui.FileManager.Upload.{
  reset_ui, refresh, on_block, on_read_error, upload_files, terminate_upload,
}
use docker_baseimage_gui.FileManager.Connection.{
  connect, open_file_manager, close_file_manager, on_open, on_close,
}
use docker_baseimage_gui.FileManager.Dialog.{
  go_up, show_popover, FileAction, handle_file_action_click, submit_popover, Answer, handle_message,
}

-- What can happen. The text of `popover_submitted` is the value of the form's input, the two texts
-- of `action_clicked` are the attributes of the entry.
pub data Event : Type 0 where
  open_called close_called : Event
  upload_clicked new_folder_clicked go_up_clicked cancel_clicked refresh_clicked : Event
  files_chosen : List File → Event
  action_clicked : FileAction → Text × Text → Event
  popover_submitted : Text → Event
  popover_cancelled : Event
  socket_opened socket_closed : ℕ → Event
  message_received : ℕ → Option Answer → Event
  block_read read_failed : Event
  timer_fired : ℕ → Event

unfoldable pub fire : Callback → State → State
fire connect_web_socket s = connect s
fire reset_upload_ui s = reset_ui s

-- An event of a socket or a timer that the browser cannot deliver in a state changes nothing.
unfoldable pub handle : Event → State → State
unfolding fire
handle open_called s = open_file_manager s
handle close_called s = close_file_manager s
handle upload_clicked s = discard_popover s
handle new_folder_clicked s = show_popover create_action none s
handle go_up_clicked s = go_up (discard_popover s)
handle cancel_clicked s = terminate_upload true s
handle refresh_clicked s = refresh (discard_popover s)
handle (files_chosen files) s = upload_files files s
handle (action_clicked action attrs) s = handle_file_action_click action attrs (discard_popover s)
handle (popover_submitted input) s = submit_popover input s
handle popover_cancelled s = discard_popover s
handle (socket_opened i) s =
    if may_open (s.ready i)
    then on_open (record s { browser = set_ready i opened s.browser })
    else s
handle (socket_closed i) s =
    if may_close (s.ready i)
    then on_close (record s { browser = set_ready i closed s.browser })
    else s
handle (message_received i a) s = if may_receive (s.ready i) then handle_message a s else s
handle block_read s = on_block s
handle read_failed s = on_read_error s
handle (timer_fired j) s = elim (s.pending j) [
  | none ↦ s
  | some callback ↦ fire callback (record s { browser = clear_timeout j s.browser })
]

unfoldable pub step : Event → State → State
unfolding handle
step e s = handle e (record s { threw = false })

unfoldable pub run : List Event → State → State
run [] s = s
run (e ∷ es) s = run es (step e s)
