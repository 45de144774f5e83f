-- ===== src/Ui/Startup.antt =====
-- The start of the page: buildWebSocketPath, start, initFullscreen, initSettings and checkWebData of
-- app/ui.js. What is asked of the browser and of the server's webdata.json are records.
pub mod Urls
pub mod Defaults
mod Tests
use docker_baseimage_gui.Prelude.{
  ℕ, ◌+◌, ◌*◌, Bool, true, false, not, ◌&&◌, ◌||◌, Option, none, some, List, [], ◌∷◌, ◌++◌, map,
  ◌==◌, ltb, leb, ◌⊎◌, inl, inr, if◌then◌else◌, take, drop,
}
use docker_baseimage_gui.Prelude.Text.{Text, codes, text_eq}
use docker_baseimage_gui.Ui.Settings.{
  Value, nothing, text, flag, number, WebUtil, Form, is_empty, is_truthy, to_text, get_setting,
  init_setting, uses_encryption,
}
use docker_baseimage_gui.Page.{Features}

-- window.location, the size of the window, and what the browser supports.
pub record Environment : Type 0 where
  pub hostname : Text
  pub port : Text
  pub protocol : Text
  pub pathname : Text
  pub inner_width : ℕ
  pub inner_height : ℕ
  pub is_touch_device : Bool
  pub is_safari : Bool
  pub is_iframe : Bool
  pub can_fullscreen : Bool
  pub has_web_audio : Bool
  pub has_clipboard_sync : Bool

-- The data of the server; a size of 0 is one that is not given.
pub record WebData : Type 0 where
  pub application_name : Text
  pub application_version : Option Text
  pub docker_image_version : Option Text
  pub application_window_width : ℕ
  pub application_window_height : ℕ
  pub dark_mode : Bool
  pub audio_support : Bool
  pub web_auth_support : Bool
  pub file_manager : Bool
  pub notification_support : Bool
  pub terminal : Bool
  pub host_clipboard_sync : Bool
  pub web_unique_version : Text

-- What comes of fetching webdata.json: the text of the error, or the status of the response and what it
-- is as JSON, or why it is none.
pub data Fetched : Type 0 where
  unreachable : Text → Fetched
  response : ℕ → Text ⊎ WebData → Fetched

-- `response.ok`
abbrev is_ok : ℕ → Bool
is_ok status = leb 200 status && leb status 299

abbrev pub not_loaded : Text → Text
not_loaded error = codes "Could not load web data: " ++ error

-- The data, or the text of the error that is thrown.
unfoldable pub fetch_web_data : Fetched → Text ⊎ WebData
fetch_web_data (unreachable error) = inl (not_loaded error)
fetch_web_data (response status body) =
    if is_ok status
    then (elim body [ inl error ↦ inl (not_loaded error) | inr data_fetched ↦ inr data_fetched ])
    else inl (
        not_loaded (
          codes "Error: Could not fetch web data: HTTP error: Status: " ++ to_text (number status)))

-- `pathname.replace(/\/?$/, '/')`
unfoldable pub with_slash : Text → Text
with_slash [] = b'/' ∷ []
with_slash (c ∷ []) = if c == b'/' then b'/' ∷ [] else c ∷ b'/' ∷ []
with_slash (c ∷ d ∷ s) = c ∷ with_slash (d ∷ s)

unfoldable pub build_web_socket_path : Text → Text → Text
unfolding with_slash
build_web_socket_path pathname service_path = drop 1 (with_slash pathname) ++ service_path

-- A value that is appended to a text.
abbrev pub appended : Value → Text
appended nothing = codes "null"
appended v = to_text v

-- The URL that connect, updateAudio and start build.
unfoldable pub service_url : Bool → Value → Value → Text → Value → Text
unfolding build_web_socket_path
service_url encrypt host port pathname path =
    let scheme = if encrypt then codes "wss" else codes "ws" in
    let with_host = scheme ++ (codes "://" ++ appended host) in
    let with_port =
      if is_truthy port then with_host ++ (codes ":" ++ appended port) else with_host in
    with_port ++ (b'/' ∷ build_web_socket_path pathname (appended path))

-- The defaults of initSettings that are computed: `none` for the empty port.
unfoldable pub default_port : Environment → Value
unfolding text_eq
default_port e =
    if not (is_empty e.port)
    then text e.port
    else if text_eq (take 5 e.protocol) (codes "https")
    then number 443
    else if text_eq (take 4 e.protocol) (codes "http")
    then number 80
    else text e.port

-- Less than 80% of a size that is given.
abbrev pub is_narrow : ℕ → ℕ → Bool
is_narrow inner size = not (size == 0) && ltb (10 * inner) (8 * size)

unfoldable pub default_resize : Environment → WebData → Text
default_resize e d =
    if e.is_touch_device
    then codes "scale"
    else if is_narrow e.inner_width d.application_window_width
    then codes "scale"
    else if is_narrow e.inner_height d.application_window_height
    then codes "scale"
    else codes "remote"

-- The settings with their defaults, in the order in which they are initialised.
unfoldable pub defaults : Environment → WebData → List (Text × Value)
unfolding default_port default_resize text_eq
defaults e d =
    (codes "logging", text (codes "warn"))
    ∷ (codes "host", text e.hostname)
    ∷ (codes "port", default_port e)
    ∷ (codes "encrypt", flag (text_eq e.protocol (codes "https:")))
    ∷ (codes "view_clip", flag false)
    ∷ (codes "host_clipboard_sync", flag true)
    ∷ (codes "resize", text (default_resize e d))
    ∷ (codes "quality", number 6)
    ∷ (codes "compression", number 2)
    ∷ (codes "shared", flag true)
    ∷ (codes "view_only", flag false)
    ∷ (codes "show_dot", flag false)
    ∷ (codes "path", text (codes "websockify"))
    ∷ (codes "audio_path", text (codes "websockify-audio"))
    ∷ (codes "filemanager_path", text (codes "ws-filemanager"))
    ∷ (codes "notification_path", text (codes "ws-notification"))
    ∷ (codes "terminal_path", text (codes "ws-terminal"))
    ∷ (codes "repeaterID", text [])
    ∷ (codes "reconnect", flag true)
    ∷ (codes "reconnect_delay", number 5000)
    ∷ []

-- What start shows and hides, and the URLs that it gives to the services.
pub record Started : Type 0 where
  pub title : Text
  pub version_app : Option Text
  pub version_docker_image : Option Text
  pub footer_shown : Bool
  pub dark : Bool
  pub audio_shown : Bool
  pub logout_shown : Bool
  pub file_manager_shown : Bool
  pub terminal_shown : Bool
  pub clipboard_sync_shown : Bool
  pub touch : Bool
  pub settings_collapsed : Bool
  pub clipboard_collapsed : Bool
  pub fullscreen_shown : Bool
  pub file_manager_url : Option Text
  pub notification_url : Option Text
  pub terminal_url : Option Text

abbrev pub is_given : Option Text → Bool
is_given none = false
is_given (some t) = not (is_empty t)

abbrev pub version_text : Text → Option Text → Option Text
version_text prefix none = none
version_text prefix (some v) = if is_empty v then none else some (prefix ++ v)

-- UI.audioContext, UI.fileManager, UI.notificationService and UI.terminal, once start has run.
unfoldable pub features : Environment → WebData → Features
features e d = record {
  has_audio = e.has_web_audio && d.audio_support;
  has_file_manager = d.file_manager;
  has_notification = d.notification_support;
  has_terminal = d.terminal;
}

-- UI.updateActionIconsSection: whether the section of the icons is hidden, with the view drag button.
unfoldable pub icons_hidden : Bool → Started → Bool
icons_hidden view_drag_hidden s =
    not s.touch
    && (not s.fullscreen_shown
        && (view_drag_hidden && (not s.file_manager_shown && not s.terminal_shown)))

-- UI.checkWebData, with the data that are fetched, if they are: whether the page is loaded again.
unfoldable pub reloads : WebData → Option WebData → Bool
unfolding text_eq
reloads d none = false
reloads d (some new) = not (text_eq d.web_unique_version new.web_unique_version)

module _ {S : Type 0} (w : WebUtil S) where
  unfoldable pub init_all : List (Text × Value) → Form S → Form S
  unfolding init_setting
  init_all [] f = f
  init_all ((n, v) ∷ ps) f = init_all ps (init_setting w n v f).0

  unfoldable pub init_settings : Environment → WebData → Form S → Form S
  unfolding init_all defaults
  init_settings e d f = init_all (defaults e d) f

  -- The URL of a service, by the name of the setting with its path.
  unfoldable pub url_of : Environment → Text → Form S → Text
  unfolding get_setting uses_encryption service_url
  url_of e path f =
      service_url (uses_encryption w f) (get_setting w (codes "host") f)
        (get_setting w (codes "port") f) e.pathname (get_setting w path f)

  -- start, from the settings that initSettings leaves, up to the handlers.
  unfoldable pub start : Environment → WebData → Form S → Started
  unfolding url_of features
  start e d f =
      let k = features e d in
      record {
        title = d.application_name;
        version_app = version_text (d.application_name ++ codes " v") d.application_version;
        version_docker_image = version_text (codes "Docker Image v") d.docker_image_version;
        footer_shown = is_given d.application_version || is_given d.docker_image_version;
        dark = d.dark_mode;
        audio_shown = k.has_audio;
        logout_shown = d.web_auth_support;
        file_manager_shown = k.has_file_manager;
        terminal_shown = k.has_terminal;
        clipboard_sync_shown = d.host_clipboard_sync && e.has_clipboard_sync;
        touch = e.is_touch_device;
        settings_collapsed =
            ltb e.inner_height 600 || (e.is_touch_device && ltb e.inner_height 800);
        clipboard_collapsed = ltb e.inner_height 600;
        fullscreen_shown = not e.is_safari && (not e.is_iframe && e.can_fullscreen);
        file_manager_url =
            if k.has_file_manager then some (url_of e (codes "filemanager_path") f) else none;
        notification_url =
            if k.has_notification then some (url_of e (codes "notification_path") f) else none;
        terminal_url = if k.has_terminal then some (url_of e (codes "terminal_path") f) else none;
      }

  -- The beginning of start, where the page is loaded and the storage of the settings is ready: without
  -- the data of the server it throws.
  unfoldable pub start_page : Environment → Fetched → Form S → Text ⊎ (Form S × Started)
  unfolding fetch_web_data init_settings start
  start_page e fetched f = elim (fetch_web_data fetched) [
    | inl error ↦ inl error
    | inr d ↦ (let g = init_settings e d f in inr (g, start e d g))
  ]
