-- ===== src/Page.antt =====
-- The page: the session of app/ui.js with audio and the services that it starts and stops. Each has
-- the state of its own module; what happens is one event of the session, of a modal or of a service.
pub mod Parts
pub mod Calls
pub mod Disconnect
pub mod Silence
mod Tests
use docker_baseimage_gui.Prelude.{ℕ, Bool, true, false, List, [], ◌∷◌, if◌then◌else◌}
use docker_baseimage_gui.Ui.Session.{
  Session, Call, await_interaction, start_notification, stop_notification, close_file_manager,
  close_terminal, stop_audio,
}
use docker_baseimage_gui.Ui.Session
use docker_baseimage_gui.Ui.Audio.{Audio}
use docker_baseimage_gui.Ui.Audio
use docker_baseimage_gui.Notification
use docker_baseimage_gui.Terminal
use docker_baseimage_gui.FileManager.State
use docker_baseimage_gui.FileManager.Step

-- Which of UI.audioContext, UI.fileManager, UI.notificationService and UI.terminal are not null.
pub record Features : Type 0 where
  pub has_audio : Bool
  pub has_file_manager : Bool
  pub has_notification : Bool
  pub has_terminal : Bool

pub record Page : Type 0 where
  pub session : Session
  pub audio : Audio
  pub notification : Notification.State
  pub terminal : Terminal.State
  pub file_manager : State.State

abbrev pub to_audio : Audio.Event → Page → Page
to_audio e p = record p { audio = Audio.step e p.audio }

abbrev pub to_notification : Notification.Event → Page → Page
to_notification e p = record p { notification = Notification.step e p.notification }

abbrev pub to_terminal : Terminal.Event → Page → Page
to_terminal e p = record p { terminal = Terminal.step e p.terminal }

abbrev pub to_file_manager : Step.Event → Page → Page
to_file_manager e p = record p { file_manager = Step.step e p.file_manager }

-- What can happen: an event of the session, of the two modals (shown and hidden) or of the window,
-- and anything else that happens within audio or a service that exists.
pub data Event : Type 0 where
  session_event : Session.Event → Event
  file_manager_shown file_manager_hidden terminal_hidden : Event
  terminal_shown window_resized : ℕ → ℕ → Event
  audio_event : Audio.Event → Event
  notification_event : Notification.Event → Event
  terminal_event : Terminal.Event → Event
  file_manager_event : Step.Event → Event

-- The page is loaded, and start has not run yet.
unfoldable pub loaded : Session → Audio → Notification.State → Page
loaded session audio notification = record {
  session = session;
  audio = audio;
  notification = notification;
  terminal = Terminal.unloaded;
  file_manager = State.unloaded;
}

module _ (k : Features) where
  -- closeFileManager and closeTerminal. That the modal is hidden then is an event of its own.
  abbrev pub shut_file_manager : Page → Page
  shut_file_manager p = if k.has_file_manager then to_file_manager Step.close_called p else p

  abbrev pub shut_terminal : Page → Page
  shut_terminal p = if k.has_terminal then to_terminal Terminal.close_called p else p

  -- What connectFinished and disconnectFinished do with audio and the services, where they exist.
  unfoldable pub perform : Call → Page → Page
  perform await_interaction p = if k.has_audio then to_audio Audio.connection_made p else p
  perform start_notification p =
      if k.has_notification then to_notification Notification.start_called p else p
  perform stop_notification p =
      if k.has_notification then to_notification Notification.stop_called p else p
  perform close_file_manager p = shut_file_manager p
  perform close_terminal p = shut_terminal p
  perform stop_audio p = if k.has_audio then to_audio Audio.connection_lost p else p

  -- The calls of a handler, of which the newest stands first.
  unfoldable pub perform_all : List Call → Page → Page
  unfolding perform
  perform_all [] p = p
  perform_all (c ∷ cs) p = perform c (perform_all cs p)

  -- An event of the session, whose handler then calls audio and the services.
  unfoldable pub on_session : Session.Event → Page → Page
  unfolding perform_all
  on_session e p =
      let s = Session.step e (record p.session { calls = [] }) in
      perform_all s.calls (record p { session = s })

  -- openFileManager and openTerminal; closeControlbar, which both call first, stands with the control bar
  -- (App.on_page).
  unfoldable pub open_file_manager : Page → Page
  open_file_manager p = if k.has_file_manager then to_file_manager Step.open_called p else p

  -- The number of columns and rows is what the terminal fits.
  unfoldable pub open_terminal : ℕ → ℕ → Page → Page
  open_terminal cols rows p =
      if k.has_terminal then to_terminal (Terminal.open_called cols rows) p else p

  unfoldable pub resize_terminal : ℕ → ℕ → Page → Page
  resize_terminal cols rows p =
      if k.has_terminal then to_terminal (Terminal.resize_called cols rows) p else p

  unfoldable pub step : Event → Page → Page
  unfolding on_session perform open_file_manager open_terminal resize_terminal
  step (session_event e) p = on_session e p
  step file_manager_shown p = open_file_manager p
  step file_manager_hidden p = perform close_file_manager p
  step terminal_hidden p = perform close_terminal p
  step (terminal_shown cols rows) p = open_terminal cols rows p
  step (window_resized cols rows) p = resize_terminal cols rows p
  step (audio_event e) p = if k.has_audio then to_audio e p else p
  step (notification_event e) p = if k.has_notification then to_notification e p else p
  step (terminal_event e) p = if k.has_terminal then to_terminal e p else p
  step (file_manager_event e) p = if k.has_file_manager then to_file_manager e p else p

  unfoldable pub run : List Event → Page → Page
  run [] p = p
  run (e ∷ es) p = run es (step e p)
