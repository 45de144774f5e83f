-- ===== src/Page/Tests.antt =====
-- A concrete run of the page of app/ui.js.
use docker_baseimage_gui.Prelude.{true, false, none, List, [], ◌∷◌, map, ◌≡◌, refl}
use docker_baseimage_gui.Prelude.Text.{codes}
use docker_baseimage_gui.Pcm.Samples.{int16_le, pos}
use docker_baseimage_gui.Pcm.{Settings}
use docker_baseimage_gui.Ui.Session.{Session, unloaded, start, rfb_connected, rfb_disconnected}
use docker_baseimage_gui.Ui.Session
use docker_baseimage_gui.Ui.Audio
use docker_baseimage_gui.Notification.{granted}
use docker_baseimage_gui.FileManager.Step
use docker_baseimage_gui.Page.{
  Features, Page, Event, session_event, file_manager_shown, audio_event, file_manager_event,
  perform, perform_all, on_session, open_file_manager, loaded, step, run,
}
use docker_baseimage_gui.Page.Disconnect.{page, IsOffline, disconnect-IsOffline}
use docker_baseimage_gui.Page.Silence.{IsSilent, reconnect-IsSilent}

abbrev features : Features
features = record {
  has_audio = true;
  has_file_manager = true;
  has_notification = true;
  has_terminal = false;
}

abbrev options : Settings
options = record {
  encoding = int16_le;
  channels = 2;
  sample_rate = 44100;
  buffer_audio_time = 20;
  max_audio_lag = 250;
  reduce_clicking_noise = false;
}

abbrev begun : Session
begun = start none (unloaded false true false true none (codes "App"))

abbrev loaded_page : Page
loaded_page = page features begun options true (pos 50) true granted

-- The user connects, turns audio on and opens the file manager.
abbrev events : List Event
events =
    session_event rfb_connected
    ∷ audio_event Audio.toggled
    ∷ file_manager_shown
    ∷ file_manager_event (Step.socket_opened 0)
    ∷ []

still_connected : (run features events loaded_page).session.rfb ≡ true
unfolding run step on_session perform_all perform open_file_manager page loaded start unloaded
    Session.connect Session.update_visual_state Session.step Session.connect_finished
still_connected = refl

disconnect-IsOffline_example :
    IsOffline (step features (session_event rfb_disconnected) (run features events loaded_page))
disconnect-IsOffline_example =
    disconnect-IsOffline features begun options true (pos 50) true granted events still_connected

-- The connection is lost, and made again after the timer and the test of the server.
abbrev again : List Session.Event
again = Session.timer_fired none ∷ Session.test_answered true ∷ rfb_connected ∷ []

reconnect-IsSilent_example :
    IsSilent
      (run features events loaded_page).audio.slider
      (run features events loaded_page).audio.stored_enabled
      (run features
        (map session_event again)
        (step features (session_event rfb_disconnected) (run features events loaded_page))).audio
reconnect-IsSilent_example =
    reconnect-IsSilent features again (run features events loaded_page) refl still_connected
