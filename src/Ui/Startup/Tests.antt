-- ===== src/Ui/Startup/Tests.antt =====
-- Concrete runs of the start of app/ui.js.
use docker_baseimage_gui.Prelude.{
  inl, inr, true, false, none, List, [], ◌∷◌, ◌++◌, ◌≡◌, refl, arith,
}
use docker_baseimage_gui.Prelude.Text.{Text, codes, text_eq}
use docker_baseimage_gui.FileManager.Path.{slashed}
use docker_baseimage_gui.Ui.Settings.{nothing, text, number, Form, at, decimal}
use docker_baseimage_gui.Ui.Settings.Memory.{Memory, memory, memory-IsWebUtil}
use docker_baseimage_gui.Ui.Settings.Initial.{preferred}
use docker_baseimage_gui.Ui.Startup.{
  Environment, WebData, response, start_page, appended, service_url, defaults, init_settings,
  default_port,
}
use docker_baseimage_gui.Ui.Startup.Urls.{origin, service_url-joined}
use docker_baseimage_gui.Ui.Startup.Defaults.{default_of, init_settings-preferred}

abbrev environment : Environment
environment = record {
  hostname = codes "nas";
  port = [];
  protocol = codes "https:";
  pathname = codes "/app";
  inner_width = 1000;
  inner_height = 700;
  is_touch_device = false;
  is_safari = false;
  is_iframe = false;
  can_fullscreen = true;
  has_web_audio = true;
  has_clipboard_sync = false;
}

abbrev web_data : WebData
web_data = record {
  application_name = codes "App";
  application_version = none;
  docker_image_version = none;
  application_window_width = 1280;
  application_window_height = 768;
  dark_mode = false;
  audio_support = true;
  web_auth_support = false;
  file_manager = true;
  notification_support = false;
  terminal = false;
  host_clipboard_sync = false;
  web_unique_version = [];
}

abbrev form : Form Memory
form = record {
  store = record {
    url = λ n. none;
    settings = at (codes "quality") (text (codes "9")) (λ n. nothing);
  };
  control = λ n. none;
  disabled = λ n. false;
  threw = false;
}

init_settings-preferred_example :
    memory.read_setting
      (codes "port")
      nothing
      (init_settings memory environment web_data form).store
    ≡ preferred
        (memory.get_config_var (codes "port") form.store)
        (memory.read_setting (codes "port") nothing form.store)
        (number 443)
unfolding default_of defaults default_port text_eq
init_settings-preferred_example =
    init_settings-preferred memory memory-IsWebUtil environment web_data (codes "port") (number 443)
      form refl

abbrev folders : List Text
folders = codes "my" ∷ codes "app" ∷ []

service_url-joined_example :
    let joined =
      origin true (text (codes "nas")) (number 443)
      ++ (slashed folders ++ (b'/' ∷ appended (text (codes "ws-terminal")))) in
    (service_url true
        (text (codes "nas"))
        (number 443)
        (slashed folders)
        (text (codes "ws-terminal"))
      ≡ joined)
    × (service_url true
          (text (codes "nas"))
          (number 443)
          (slashed folders ++ (b'/' ∷ []))
          (text (codes "ws-terminal"))
        ≡ joined)
service_url-joined_example =
    service_url-joined true (text (codes "nas")) (number 443) (text (codes "ws-terminal")) folders
      (((λ e. cc), omega arith), (((λ e. cc), omega arith), tt))

-- A response with an error.
start_page-error :
    start_page memory environment (response 404 (inr web_data)) form
    ≡ inl
        (codes "Could not load web data: Error: Could not fetch web data: HTTP error: Status: 404")
unfolding start_page decimal
start_page-error = refl
