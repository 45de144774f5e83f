-- ===== src/App/Tests.antt =====
-- A concrete run of the whole page of app/ui.js: it connects, a text is sent to the clipboard of the
-- desktop, the connection is lost and made again.
use docker_baseimage_gui.Prelude.{Bool, true, false, none, some, List, [], ◌∷◌, ◌≡◌, refl}
use docker_baseimage_gui.Prelude.Text.{codes}
use docker_baseimage_gui.Pcm.Samples.{int16_le, pos}
use docker_baseimage_gui.Pcm.{Settings}
use docker_baseimage_gui.Notification
use docker_baseimage_gui.Ui.Audio
use docker_baseimage_gui.Ui.Session.{update_visual_state, connect, connect_finished}
use docker_baseimage_gui.Ui.Session
use docker_baseimage_gui.Ui.View.{remote}
use docker_baseimage_gui.Ui.ControlBar.{
  right, show_anchor, open_controlbar, close_controlbar, canvas_focused, toggle_controlbar_side,
}
use docker_baseimage_gui.Ui.ControlBar.Step
use docker_baseimage_gui.Ui.Clipboard.{Permission, prompt}
use docker_baseimage_gui.Ui.Clipboard
use docker_baseimage_gui.Ui.Startup.{Environment, WebData, features}
use docker_baseimage_gui.Page.{perform_all, perform, on_session}
use docker_baseimage_gui.Page
use docker_baseimage_gui.App.{
  Config, Found, Event, session_event, clipboard_event, loaded, start, run, step, follow, on_made,
  on_connected,
}
use docker_baseimage_gui.App.Calm.{Reached, run-start-calm}

abbrev never : Permission → Bool → Bool
never p enabled = false

abbrev environment : Environment
environment = record {
  hostname = codes "h";
  port = codes "5800";
  protocol = codes "http:";
  pathname = codes "/";
  inner_width = 1024;
  inner_height = 768;
  is_touch_device = false;
  is_safari = false;
  is_iframe = false;
  can_fullscreen = true;
  has_web_audio = true;
  has_clipboard_sync = false;
}

abbrev web_data : WebData
web_data = record {
  application_name = codes "App";
  application_version = none;
  docker_image_version = none;
  application_window_width = 0;
  application_window_height = 0;
  dark_mode = true;
  audio_support = true;
  web_auth_support = false;
  file_manager = true;
  notification_support = true;
  terminal = true;
  host_clipboard_sync = false;
  web_unique_version = [];
}

abbrev options : Settings
options = record {
  encoding = int16_le;
  channels = 2;
  sample_rate = 44100;
  buffer_audio_time = 20;
  max_audio_lag = 250;
  reduce_clicking_noise = false;
}

abbrev config : Config
config = record {
  environment = environment;
  web_data = web_data;
  has_scrollbar_gutter = true;
  is_mobile = false;
  first_run = true;
  controlbar_pos = some right;
  password = none;
  reconnect = true;
  encrypt = false;
  resize = remote;
  view_clip = false;
  host_clipboard_sync = false;
  audio = Audio.loaded options true (pos 50);
  notification = Notification.unloaded;
}

abbrev found : Found
found = record {
  clipping = false;
  permission = prompt;
  sync_enabled = false;
  view_only = false;
  layout = record {
    inner_width = 1024;
    bar_top = 100;
    bar_height = 400;
    handle_height = 50;
    drag_threshold = 10;
  };
}

abbrev events : List (Event never)
events =
    session_event found Session.rfb_connected
    ∷ clipboard_event Clipboard.text_changed
    ∷ session_event found Session.rfb_disconnected
    ∷ session_event found (Session.timer_fired none)
    ∷ []

events-Reached :
    Reached never (features environment web_data) events (start never found (loaded config))
unfolding step start loaded follow on_made on_connected Page.step Page.loaded on_session perform_all
    perform Session.step Session.unloaded Session.start connect connect_finished update_visual_state
    Step.step Step.start show_anchor open_controlbar close_controlbar canvas_focused
    toggle_controlbar_side features
events-Reached = (refl, refl, (refl, refl, (refl, refl, (refl, refl, tt))))

run-start-calm_example :
    (run
      (features environment web_data)
      never
      events
      (start never found (loaded config))).clipboard.threw
    ≡ false
run-start-calm_example = run-start-calm never found config events events-Reached
