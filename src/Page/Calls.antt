-- ===== src/Page/Calls.antt =====
-- What the calls of disconnectFinished of app/ui.js do with audio and the services.
use docker_baseimage_gui.Prelude.{true, false, List, [], ◌∷◌, ◌≡◌, arith, if◌then◌else◌}
use docker_baseimage_gui.Ui.Session.{
  Session, Call, stop_notification, close_file_manager, close_terminal, stop_audio,
  rfb_disconnected, disconnect_finished,
}
use docker_baseimage_gui.Ui.Session
use docker_baseimage_gui.Ui.Audio
use docker_baseimage_gui.Notification
use docker_baseimage_gui.Terminal
use docker_baseimage_gui.Terminal.Invariant.{has_terminal}
use docker_baseimage_gui.FileManager.State
use docker_baseimage_gui.FileManager.Step
use docker_baseimage_gui.FileManager.Connection
use docker_baseimage_gui.FileManager.Upload
use docker_baseimage_gui.Page.{Features, Page, perform, perform_all}

-- The calls of disconnectFinished.
abbrev pub all_off : List Call
all_off = stop_notification ∷ stop_audio ∷ close_terminal ∷ close_file_manager ∷ []

pub audio_lost : (s : Audio.Audio) → (Audio.step Audio.connection_lost s).audio_enabled ≡ false
unfolding Audio.step Audio.on_disconnected Audio.update_audio Audio.disable_audio
audio_lost s = ground arith

pub terminal_closed :
    (s : Terminal.State) → has_terminal (Terminal.step Terminal.close_called s) ≡ false
unfolding Terminal.step Terminal.close_terminal Terminal.disconnect
terminal_closed s = ground arith

pub file_manager_closed : (s : State.State) → (Step.step Step.close_called s).manager_opened ≡ false
unfolding Step.step Step.handle Connection.close_file_manager Connection.disconnect
    Upload.terminate_upload
file_manager_closed s = ground arith

module _ (k : Features) (p : Page) where
  pub all_off-audio :
      (perform_all k all_off p).audio
      ≡ (if k.has_audio then Audio.step Audio.connection_lost p.audio else p.audio)
  unfolding perform_all perform
  all_off-audio = ground arith

  pub all_off-notification : (perform_all k all_off p).notification ≡ (
      if k.has_notification
      then Notification.step Notification.stop_called p.notification
      else p.notification)
  unfolding perform_all perform
  all_off-notification = ground arith

  pub all_off-terminal :
      (perform_all k all_off p).terminal
      ≡ (if k.has_terminal then Terminal.step Terminal.close_called p.terminal else p.terminal)
  unfolding perform_all perform
  all_off-terminal = ground arith

  pub all_off-file_manager :
      (perform_all k all_off p).file_manager
      ≡ (if k.has_file_manager then Step.step Step.close_called p.file_manager else p.file_manager)
  unfolding perform_all perform
  all_off-file_manager = ground arith

pub disconnected-calls :
    (s : Session)
    → s.rfb ≡ true
    → (Session.step rfb_disconnected (record s { calls = [] })).calls ≡ all_off
unfolding Session.step disconnect_finished Session.update_visual_state
disconnected-calls s h = ground arith
