-- ===== src/App.antt =====
-- The whole front end of app/ui.js: the page with its session, audio and services, and the view, the
-- control bar, the clipboard and the virtual keyboard, which all follow the RFB object of the session.
pub mod Agreement
pub mod Own
pub mod Following
pub mod Parts
pub mod Invariant
pub mod Calm
mod Tests
use docker_baseimage_gui.Prelude.{
  Bool, true, false, Option, none, not, ◌&&◌, List, [], ◌∷◌, if◌then◌else◌,
}
use docker_baseimage_gui.Ui.Session.{Session}
use docker_baseimage_gui.Ui.Session
use docker_baseimage_gui.Prelude.Text.{Text}
use docker_baseimage_gui.Notification
use docker_baseimage_gui.Ui.Audio.{Audio}
use docker_baseimage_gui.Ui.Startup.{Environment, WebData}
use docker_baseimage_gui.Ui.View.{View, Resize}
use docker_baseimage_gui.Ui.View
use docker_baseimage_gui.Ui.ControlBar.{ControlBar, Layout, Side}
use docker_baseimage_gui.Ui.ControlBar.Step
use docker_baseimage_gui.Ui.Clipboard.{Clipboard, Permission}
use docker_baseimage_gui.Ui.Clipboard
use docker_baseimage_gui.Ui.Keyboard.Focus.{Touch}
use docker_baseimage_gui.Ui.Keyboard.Focus
use docker_baseimage_gui.Page.{Features, Page, file_manager_shown, terminal_shown}
use docker_baseimage_gui.Page

pub record App : Type 0 where
  pub page : Page
  pub view : View
  pub bar : ControlBar
  pub clipboard : Clipboard
  pub touch : Touch

-- What a new RFB object of noVNC finds: whether it is clipping the view, the permission for the host's
-- clipboard and whether it is to synchronise with it; the setting `view_only`; the sizes of the page.
pub record Found : Type 0 where
  pub clipping : Bool
  pub permission : Permission
  pub sync_enabled : Bool
  pub view_only : Bool
  pub layout : Layout

-- What the page is loaded with: the browser and the data of the server, the settings as initSettings
-- leaves them, the control bar's stored position, audio and the notification service as initialised.
pub record Config : Type 0 where
  pub environment : Environment
  pub web_data : WebData
  pub has_scrollbar_gutter : Bool
  pub is_mobile : Bool
  pub first_run : Bool
  pub controlbar_pos : Option Side
  pub password : Option Text
  pub reconnect : Bool
  pub encrypt : Bool
  pub resize : Resize
  pub view_clip : Bool
  pub host_clipboard_sync : Bool
  pub audio : Audio
  pub notification : Notification.State

-- start, up to the connection.
unfoldable pub loaded : Config → App
loaded c =
    let e = c.environment in
    let d = c.web_data in
    record {
      page =
          Page.loaded
            (Session.unloaded d.web_auth_support c.reconnect c.encrypt c.first_run c.password [])
            c.audio c.notification;
      view = View.loaded c.has_scrollbar_gutter c.is_mobile c.resize c.view_clip;
      bar = Step.start e.is_touch_device c.first_run c.controlbar_pos;
      clipboard = Clipboard.loaded d.host_clipboard_sync c.host_clipboard_sync;
      touch = Focus.loaded e.is_touch_device;
    }

-- What happens to a part by itself: the other events come with the RFB object, or with a modal.
abbrev pub is_own_view : View.Event → Bool
is_own_view (View.rfb_made b) = false
is_own_view View.rfb_connected = false
is_own_view View.rfb_disconnected = false
is_own_view e = true

abbrev pub is_own_bar : Step.Event → Bool
is_own_bar Step.rfb_made = false
is_own_bar Step.session_connected = false
is_own_bar Step.session_ended = false
is_own_bar Step.modal_opened = false
is_own_bar e = true

abbrev pub is_own_touch : Focus.Event → Bool
is_own_touch (Focus.rfb_made b) = false
is_own_touch Focus.rfb_gone = false
is_own_touch Focus.rfb_connected = false
is_own_touch e = true

abbrev pub is_own_page : Page.Event → Bool
is_own_page (Page.session_event e) = false
is_own_page e = true

module _ (auto_sync : Permission → Bool → Bool) where
  abbrev pub is_own_clipboard : Clipboard.Event auto_sync → Bool
  is_own_clipboard (Clipboard.rfb_made p b) = false
  is_own_clipboard Clipboard.rfb_gone = false
  is_own_clipboard e = true

  pub data Event : Type 0 where
    session_event : Found → Session.Event → Event
    page_event : Layout → Page.Event → Event
    view_event : View.Event → Event
    bar_event : Layout → Step.Event → Event
    clipboard_event : Clipboard.Event auto_sync → Event
    touch_event : Focus.Event → Event

  -- connect has made an RFB object.
  unfoldable pub on_made : Found → App → App
  on_made f a = record a {
    view = View.step (View.rfb_made f.clipping) a.view;
    bar = Step.step f.layout Step.rfb_made a.bar;
    clipboard =
        Clipboard.step auto_sync (Clipboard.rfb_made f.permission f.sync_enabled) a.clipboard;
    touch = Focus.step (Focus.rfb_made f.view_only) a.touch;
  }

  -- connectFinished, by updateVisualState, and its last statement.
  unfoldable pub on_connected : Found → App → App
  on_connected f a = record a {
    view = View.step View.rfb_connected a.view;
    bar = Step.step f.layout Step.session_connected a.bar;
    touch = Focus.step Focus.rfb_connected a.touch;
  }

  -- disconnectFinished.
  unfoldable pub on_lost : Found → App → App
  on_lost f a = record a {
    view = View.step View.rfb_disconnected a.view;
    bar = Step.step f.layout Step.session_ended a.bar;
    clipboard = Clipboard.step auto_sync Clipboard.rfb_gone a.clipboard;
    touch = Focus.step Focus.rfb_gone a.touch;
  }

  -- What the handler of the session did to UI.rfb and UI.connected, with their values before.
  unfoldable pub follow : Found → Session → App → App
  unfolding on_made on_connected on_lost
  follow f before a =
      let after = a.page.session in
      if before.rfb && not after.rfb
      then on_lost f a
      else if not before.rfb && after.rfb
      then on_made f a
      else if not before.is_connected && after.is_connected
      then on_connected f a
      else a

  -- The end of start: the visual state of the beginning, and connect.
  unfoldable pub start : Found → App → App
  unfolding follow
  start f a =
      follow f a.page.session
        (record a { page = record a.page { session = Session.start none a.page.session } })

module _ (k : Features) where
  -- openFileManager and openTerminal close the control bar first.
  abbrev pub closes_bar : Page.Event → Bool
  closes_bar file_manager_shown = k.has_file_manager
  closes_bar (terminal_shown cols rows) = k.has_terminal
  closes_bar e = false

  unfoldable pub on_page : Layout → Page.Event → App → App
  on_page l e a = record a {
    page = Page.step k e a.page;
    bar = if closes_bar e then Step.step l Step.modal_opened a.bar else a.bar;
  }

module _ (k : Features) (auto_sync : Permission → Bool → Bool) where
  unfoldable pub step : Event auto_sync → App → App
  unfolding follow on_page
  step (session_event f e) a =
      follow auto_sync f a.page.session
        (record a { page = Page.step k (Page.session_event e) a.page })
  step (page_event l e) a = if is_own_page e then on_page k l e a else a
  step (view_event e) a = if is_own_view e then record a { view = View.step e a.view } else a
  step (bar_event l e) a = if is_own_bar e then record a { bar = Step.step l e a.bar } else a
  step (clipboard_event e) a =
      if is_own_clipboard auto_sync e
      then record a { clipboard = Clipboard.step auto_sync e a.clipboard }
      else a
  step (touch_event e) a = if is_own_touch e then record a { touch = Focus.step e a.touch } else a

  unfoldable pub run : List (Event auto_sync) → App → App
  run [] a = a
  run (e ∷ es) a = run es (step e a)
