-- ===== src/Notification.antt =====
-- The notification service (app/notificationService.js): a WebSocket that is opened again when it
-- is lost, and the notifications that it shows.
pub mod Timers
pub mod Sockets
pub mod Messages
mod Tests
use docker_baseimage_gui.Prelude.{
  ℕ, Bool, true, false, not, ◌&&◌, Option, none, some, List, [], ◌∷◌, if◌then◌else◌,
}
use docker_baseimage_gui.Prelude.Text.{Text}
use docker_baseimage_gui.Browser.{
  Ready, opened, closed, Callback, connect_web_socket, Browser, fresh, new_socket, close_socket,
  set_timeout, clear_timeout, may_open, may_receive, may_close, set_ready,
}

-- Notification.permission
pub data Permission : Type 0 where
  granted denied undecided : Permission

abbrev pub is_granted : Permission → Bool
is_granted granted = true
is_granted p = false

-- A decoded message. `none` stands for a `summary` or `body` that is no string; an `id` that is
-- missing or 0 counts as `none`.
pub record Data : Type 0 where
  pub id : Option ℕ
  pub summary : Option Text
  pub body : Option Text

-- What `new Notification` is given.
pub record Note : Type 0 where
  pub summary : Text
  pub body : Text
  pub tag : Option ℕ

pub record State : Type 0 where
  pub browser : Browser
  pub open browser use *
  pub web_socket : Option ℕ
  pub web_socket_connected : Bool
  pub connect_timer : Option ℕ
  pub notification_granted : Bool
  pub started : Bool
  -- The listeners of initialize for the first interaction, and its flag.
  pub listening : Bool
  pub first_interaction_handled : Bool
  -- The requests of permission that the user has not answered.
  pub asking : Bool
  -- The notifications shown, newest first.
  pub shown : List Note

-- The module's variables before `init` is called.
abbrev pub unloaded : State
unloaded = record {
  browser = fresh;
  web_socket = none;
  web_socket_connected = false;
  connect_timer = none;
  notification_granted = false;
  started = false;
  listening = false;
  first_interaction_handled = false;
  asking = false;
  shown = [];
}

-- `supported` tells whether the window has a member `Notification`.
unfoldable pub initialize : Bool → Permission → State → State
initialize false permission s = s
initialize true granted s = record s { notification_granted = true }
initialize true denied s = s
initialize true undecided s = record s { listening = true; first_interaction_handled = false }

abbrev pub clear_connect_timer : State → State
clear_connect_timer s = elim s.connect_timer [
  | none ↦ s
  | some j ↦ record s { browser = clear_timeout j s.browser; connect_timer = none }
]

unfoldable pub connect : State → State
connect s = elim s.web_socket [
  | some i ↦ s
  | none ↦
      let t = clear_connect_timer s in
      record t { browser = new_socket t.browser; web_socket = some t.sockets }
]

unfoldable pub disconnect : State → State
disconnect s = elim s.web_socket [
  | none ↦ s
  | some i ↦ record s {
    browser = close_socket i s.browser;
    web_socket = none;
    web_socket_connected = false;
  }
]

unfoldable pub start : State → State
unfolding connect
start s = let t = record s { started = true } in if s.notification_granted then connect t else t

unfoldable pub stop : State → State
unfolding disconnect
stop s = record (disconnect (clear_connect_timer s)) { started = false }

-- The listener of initialize: it asks for the permission once.
unfoldable pub on_first_interaction : State → State
on_first_interaction s =
    if s.first_interaction_handled
    then s
    else record s { first_interaction_handled = true; asking = true }

-- The answer to the request.
unfoldable pub on_permission : Permission → State → State
unfolding connect
on_permission permission s =
    let t = record s { notification_granted = true } in
    if is_granted permission then (if s.started then connect t else t) else s

unfoldable pub on_open : State → State
on_open s = record s { web_socket_connected = true }

unfoldable pub on_close : State → State
on_close s =
    let t = record s { web_socket = none; web_socket_connected = false } in
    let u = clear_connect_timer t in
    if s.notification_granted && s.started
    then record u {
      browser = set_timeout connect_web_socket u.browser;
      connect_timer = some u.timers;
    }
    else t

-- A notification for a message whose summary and body are strings.
abbrev pub note_of : Data → Option Note
note_of d = elim d.summary [
  | none ↦ none
  | some summary ↦ elim d.body [
    | none ↦ none
    | some body ↦ some (record { summary = summary; body = body; tag = d.id })
  ]
]

-- `none`: the message could not be decoded.
unfoldable pub on_message : Option Data → Permission → State → State
unfolding disconnect
on_message none permission s = s
on_message (some d) permission s = elim (note_of d) [
  | none ↦ s
  | some note ↦
      if is_granted permission
      then record s { shown = note ∷ s.shown }
      else disconnect (record s { notification_granted = false })
]

-- What can happen to the service. An event of a socket or a timer that the browser cannot deliver
-- in a state changes nothing.
pub data Event : Type 0 where
  start_called stop_called first_interaction : Event
  permission_answered : Permission → Event
  socket_opened : ℕ → Event
  socket_closed : ℕ → Event
  message_received : ℕ → Option Data → Permission → Event
  timer_fired : ℕ → Event

unfoldable pub step : Event → State → State
unfolding start stop on_first_interaction on_permission on_open on_close on_message connect
step start_called s = start s
step stop_called s = stop s
step first_interaction s = if s.listening then on_first_interaction s else s
step (permission_answered p) s =
    if s.asking then on_permission p (record s { asking = false }) else s
step (socket_opened i) s =
    if may_open (s.ready i)
    then on_open (record s { browser = set_ready i opened s.browser })
    else s
step (socket_closed i) s =
    if may_close (s.ready i)
    then on_close (record s { browser = set_ready i closed s.browser })
    else s
step (message_received i d p) s = if may_receive (s.ready i) then on_message d p s else s
step (timer_fired j) s = elim (s.pending j) [
  | none ↦ s
  | some callback ↦ connect (record s { browser = clear_timeout j s.browser })
]

unfoldable pub run : List Event → State → State
run [] s = s
run (e ∷ es) s = run es (step e s)
