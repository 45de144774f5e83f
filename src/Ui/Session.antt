-- ===== src/Ui/Session.antt =====
-- The session with the VNC server: updateVisualState, connect, reconnect, connectFinished,
-- disconnectFinished, checkWebData, securityFailed, credentials and setCredentials of app/ui.js. The RFB object is
-- noVNC's: that its constructor returns or throws, and its events, are inputs.
pub mod Invariant
pub mod Phases
pub mod Laws
mod Tests
use docker_baseimage_gui.Prelude.{
  ℕ, suc, ◌+◌, ◌-◌, Bool, true, false, not, ◌&&◌, ◌||◌, Option, none, some, List, [], ◌∷◌, ◌++◌,
  ◌==◌, ltb, if◌then◌else◌,
}
use docker_baseimage_gui.Prelude.Text.{Text, codes}
use docker_baseimage_gui.Ui.Status.{
  StatusType, error, warning, normal, Status, initial, show_status, hide_status,
}

-- The classes of the document: at most one of noVNC_connecting, noVNC_connected,
-- noVNC_disconnecting and noVNC_reconnecting, of which no caller asks for the third.
pub data Visual : Type 0 where
  plain connecting connected reconnecting : Visual

-- The parameter of updateVisualState.
pub data VisualState : Type 0 where
  init_state connecting_state connected_state disconnected_state reconnecting_state : VisualState

-- What the session asks of audio and of the services, the newest first. `await_interaction`: audio is
-- told of the connection, and waits for the first interaction.
pub data Call : Type 0 where
  await_interaction start_notification stop_notification close_file_manager close_terminal : Call
  stop_audio : Call

-- The inputs of the credentials dialog.
pub data Field : Type 0 where
  username_field password_field : Field

pub record Session : Type 0 where
  pub status : Status
  -- UI.rfb is defined; the password that its constructor was given.
  pub rfb : Bool
  pub rfb_password : Option Text
  pub is_connected : Bool
  pub ongoing_reconnect : Bool
  pub reconnect_attempts : ℕ
  pub reconnect_password : Option Text
  pub reconnect_password_failures : ℕ
  -- Timers of UI.reconnect that are pending, connectivity tests without an answer, page reloads that
  -- such a test ended with; checks of the web data without an answer, page reloads that they ended with.
  pub timers : ℕ
  pub tests : ℕ
  pub reloads : ℕ
  pub web_data_checks : ℕ
  pub web_data_reloads : ℕ
  pub visual : Visual
  pub credentials_open : Bool
  -- The blocks of the dialog, its password input, and the input that the last timer is to focus.
  pub username_hidden : Bool
  pub password_hidden : Bool
  pub password_input : Text
  pub input_focus : Option Field
  -- What was given to sendCredentials, the newest first.
  pub sent_credentials : List (Text × Text)
  pub anchor_hidden : Bool
  pub first_run : Bool
  pub calls : List Call
  -- A handler has thrown.
  pub threw : Bool
  -- Settings, web data and the name of the desktop.
  pub web_auth_support : Bool
  pub reconnect_setting : Bool
  pub encrypt : Bool
  pub config_password : Option Text
  pub desktop_name : Text

abbrev pub show : Text → StatusType → Bool → Session → Session
show text type force s = record s {
  status = show_status text type force s.ongoing_reconnect s.status;
}

abbrev pub visual_of : VisualState → Visual
visual_of connecting_state = connecting
visual_of connected_state = connected
visual_of reconnecting_state = reconnecting
visual_of v = plain

abbrev pub is_reconnecting : Visual → Bool
is_reconnecting reconnecting = true
is_reconnecting v = false

-- The changes that are inhibited while reconnecting.
abbrev pub is_inhibited : VisualState → Session → Bool
is_inhibited connecting_state s = s.ongoing_reconnect
is_inhibited disconnected_state s = s.ongoing_reconnect
is_inhibited reconnecting_state s = s.ongoing_reconnect && is_reconnecting s.visual
is_inhibited v s = false

-- That the view is clipped, and what opens and closes the control bar, stands with the view and with
-- the bar (ControlBar.show_anchor and hide_anchor).
unfoldable pub update_visual_state : VisualState → Session → Session
update_visual_state v s =
    let t = record s { visual = visual_of v; credentials_open = false } in
    let shown = record t { anchor_hidden = false; first_run = false } in
    let hidden = record t { anchor_hidden = true } in
    if is_inhibited v s then s else if s.is_connected then shown else hidden

-- A password argument: undefined, null or a text.
pub data Password : Type 0 where
  undefined : Password
  given : Option Text → Password

abbrev pub password_of : Password → Session → Option Text
password_of undefined s = s.config_password
password_of (given p) s = p

abbrev pub note_password : Password → Session → Session
note_password undefined s = record s { reconnect_password = s.config_password }
note_password (given p) s = s

-- The first argument is what the RFB constructor throws, if it does.
unfoldable pub connect : Option Text → Password → Session → Session
unfolding update_visual_state
connect failure password s =
    let t = note_password password s in
    let u = if t.ongoing_reconnect then t else record t { status = hide_status t.status } in
    let v = update_visual_state connecting_state u in
    let w : Session = elim failure [
      | none ↦ record v { rfb = true; rfb_password = password_of password s }
      | some text ↦
          show (codes "Failed to connect to server: " ++ text) error false
            (update_visual_state disconnected_state v)
    ] in
    if s.rfb then s else w

-- Before start has run, with the web data, the settings and the name of the desktop.
unfoldable pub unloaded : Bool → Bool → Bool → Bool → Option Text → Text → Session
unloaded web_auth_support reconnect_setting encrypt first_run config_password desktop_name =
    record {
      status = initial;
      rfb = false;
      rfb_password = none;
      is_connected = false;
      ongoing_reconnect = false;
      reconnect_attempts = 0;
      reconnect_password = none;
      reconnect_password_failures = 0;
      timers = 0;
      tests = 0;
      reloads = 0;
      web_data_checks = 0;
      web_data_reloads = 0;
      visual = plain;
      credentials_open = false;
      username_hidden = false;
      password_hidden = false;
      password_input = [];
      input_focus = none;
      sent_credentials = [];
      anchor_hidden = true;
      first_run = first_run;
      calls = [];
      threw = false;
      web_auth_support = web_auth_support;
      reconnect_setting = reconnect_setting;
      encrypt = encrypt;
      config_password = config_password;
      desktop_name = desktop_name;
    }

-- The end of start.
unfoldable pub start : Option Text → Session → Session
unfolding connect update_visual_state
start failure s = connect failure undefined (update_visual_state init_state s)

-- The callback of the timer.
unfoldable pub reconnect : Option Text → Session → Session
unfolding connect
reconnect failure s =
    let t = record s { timers = s.timers - 1; reconnect_attempts = suc s.reconnect_attempts } in
    if t.web_auth_support
    then record t { tests = suc t.tests }
    else connect failure (given t.reconnect_password) t

-- The answer to the connectivity test of reconnect, or that there is none.
unfoldable pub on_test : Bool → Session → Session
on_test true s = record s { tests = s.tests - 1; reloads = suc s.reloads }
on_test false s = record s { tests = s.tests - 1; timers = suc s.timers }

unfoldable pub connect_finished : Session → Session
unfolding update_visual_state
connect_finished s =
    let t = record s {
      is_connected = true;
      ongoing_reconnect = false;
      reconnect_password_failures = 0;
      web_data_checks =
          if ltb 0 s.reconnect_attempts then suc s.web_data_checks else s.web_data_checks;
    } in
    let suffix =
      if t.encrypt then codes " - Connected (encrypted)" else codes " - Connected (unencrypted)" in
    let u = update_visual_state connected_state (show (t.desktop_name ++ suffix) normal true t) in
    record u { calls = start_notification ∷ await_interaction ∷ u.calls }

-- The end of checkWebData: the web data that were fetched, if they were, with their webAuthSupport, and
-- whether they have another version. The page is loaded again then, also while there is an RFB object.
unfoldable pub on_web_data : Option (Bool × Bool) → Session → Session
on_web_data none s = record s { web_data_checks = s.web_data_checks - 1 }
on_web_data (some (auth, changed)) s = record s {
  web_data_checks = s.web_data_checks - 1;
  web_auth_support = auth;
  web_data_reloads = if changed then suc s.web_data_reloads else s.web_data_reloads;
}

unfoldable pub disconnect_finished : Session → Session
unfolding update_visual_state
disconnect_finished s =
    let t =
      show (s.desktop_name ++ codes " - Disconnected") error false
        (record s { is_connected = false; rfb = false }) in
    let again = update_visual_state reconnecting_state (record t { ongoing_reconnect = true }) in
    let over = update_visual_state disconnected_state (record t { ongoing_reconnect = false }) in
    let u = if t.reconnect_setting then record again { timers = suc again.timers } else over in
    record u {
      calls = stop_notification ∷ stop_audio ∷ close_terminal ∷ close_file_manager ∷ u.calls;
    }

unfoldable pub security_failed : Option Text → Session → Session
security_failed reason s =
    let text : Text = elim reason [
      | none ↦ codes "New connection has been rejected"
      | some r ↦ codes "New connection has been rejected: " ++ r
    ] in
    let failures = suc s.reconnect_password_failures in
    let t = record s { reconnect_password = none; reconnect_password_failures = failures } in
    show text error (t.ongoing_reconnect && ltb 1 failures) t

-- Whether `username` and `password` are among the types that the server asks for. The focus of no
-- input at all throws, within a timer.
unfoldable pub credentials : Bool → Bool → Session → Session
credentials asks_username asks_password s =
    show (codes "Credentials are required") warning true (record s {
      username_hidden = not asks_username;
      password_hidden = not asks_password;
      input_focus =
          if asks_username
          then some username_field
          else if asks_password
          then some password_field
          else none;
      credentials_open = true;
    })

-- The submission of the dialog: sendCredentials throws without an RFB object.
unfoldable pub set_credentials : Text → Text → Session → Session
set_credentials username password s =
    let t = record s { password_input = [] } in
    if s.rfb
    then record t {
      sent_credentials = (username, password) ∷ t.sent_credentials;
      reconnect_password = some password;
      credentials_open = false;
    }
    else record t { threw = true }

pub data Event : Type 0 where
  timer_fired : Option Text → Event
  test_answered : Bool → Event
  web_data_answered : Option (Bool × Bool) → Event
  rfb_connected rfb_disconnected : Event
  credentials_required : Bool → Bool → Event
  security_failure : Option Text → Event
  credentials_submitted : Text → Text → Event

-- An event of an RFB object that does not exist, or of a timer that is not pending, cannot occur.
unfoldable pub step : Event → Session → Session
step (timer_fired failure) s = if ltb 0 s.timers then reconnect failure s else s
step (test_answered b) s = if ltb 0 s.tests then on_test b s else s
step (web_data_answered d) s = if ltb 0 s.web_data_checks then on_web_data d s else s
step rfb_connected s = if s.rfb && not s.is_connected then connect_finished s else s
step rfb_disconnected s = if s.rfb then disconnect_finished s else s
step (credentials_required b c) s = if s.rfb && not s.is_connected then credentials b c s else s
step (security_failure reason) s =
    if s.rfb && not s.is_connected then security_failed reason s else s
step (credentials_submitted u p) s = if s.credentials_open then set_credentials u p s else s

unfoldable pub run : List Event → Session → Session
run [] s = s
run (e ∷ es) s = run es (step e s)
