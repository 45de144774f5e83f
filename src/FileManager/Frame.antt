-- ===== src/FileManager/Frame.antt =====
-- The handlers of app/fileManager.js that leave the connection and the timers alone.
use docker_baseimage_gui.Prelude.{Bool, ◌≡◌, arith}
use docker_baseimage_gui.Prelude.Text.{Text}
use docker_baseimage_gui.FileManager.State.{spinner_shown, Upload, Request, State, send}
use docker_baseimage_gui.FileManager.Upload.{
  prepare, advance, terminate, on_block, download_file, start_download,
}
use docker_baseimage_gui.FileManager.Dialog.{
  go_up, FileAction, handle_file_action_click, submit_popover,
}

-- A step that leaves the connection and the timers alone.
pub record Frame (s t : State) : Type 0 where
  pub same_browser : t.browser ≡ s.browser
  pub same_socket : t.web_socket ≡ s.web_socket
  pub same_connected : t.web_socket_connected ≡ s.web_socket_connected
  pub same_timer : t.connect_timer ≡ s.connect_timer
  pub same_opened : t.manager_opened ≡ s.manager_opened
  pub same_spinner : spinner_shown t.callbacks ≡ spinner_shown s.callbacks
  pub same_reset : t.upload_ui_reset_timer ≡ s.upload_ui_reset_timer

pub send-Frame : (m : Request) (s : State) → Frame s (send m s)
unfolding send
send-Frame m s = ground arith

pub prepare-Frame : (u : Upload) (s : State) → Frame s (prepare u s)
unfolding prepare send
prepare-Frame u s = ground arith

pub advance-Frame : (u : Upload) (s : State) → Frame s (advance u s).0
unfolding advance send
advance-Frame u s = ground arith

pub terminate-Frame : (cancel : Bool) (u : Upload) (s : State) → Frame s (terminate cancel u s)
unfolding terminate send
terminate-Frame cancel u s = ground arith

pub start_download-Frame : (uuid : Text) (s : State) → Frame s (start_download uuid s)
unfolding start_download
start_download-Frame uuid s = ground arith

pub on_block-Frame : (s : State) → Frame s (on_block s)
unfolding on_block send
on_block-Frame s = ground arith

pub go_up-Frame : (s : State) → Frame s (go_up s)
unfolding go_up send
go_up-Frame s = ground arith

pub handle_file_action_click-Frame :
    (a : FileAction) (attrs : Text × Text) (s : State)
    → Frame s (handle_file_action_click a attrs s)
unfolding handle_file_action_click download_file send
handle_file_action_click-Frame a attrs s = ground arith

pub submit_popover-Frame : (input : Text) (s : State) → Frame s (submit_popover input s)
unfolding submit_popover send
submit_popover-Frame input s = ground arith
