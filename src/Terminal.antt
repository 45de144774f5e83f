-- ===== src/Terminal.antt =====
-- The terminal service (app/terminal.js): an xterm terminal in a modal, and the WebSocket that
-- connects it to the shell.
pub mod Invariant
pub mod Laws
mod Tests
use docker_baseimage_gui.Prelude.{
  ℕ, Bool, true, false, ◌&&◌, Option, none, some, List, [], ◌∷◌, if◌then◌else◌,
}
use docker_baseimage_gui.Prelude.Text.{Text}
use docker_baseimage_gui.Browser.{
  Ready, connecting, opened, closed, unborn, connect_web_socket, Browser, fresh, new_socket,
  close_socket, set_timeout, clear_timeout, may_open, may_receive, may_close, set_ready,
}

-- The xterm object, for what the service reads and writes of it. `output` is what was written to it,
-- newest first.
pub record Xterm : Type 0 where
  pub cols : ℕ
  pub rows : ℕ
  pub disable_stdin : Bool
  pub output : List Text

-- What is sent: `resize:cols,rows`, or encoded keyboard input.
pub data Sent : Type 0 where
  resize : ℕ → ℕ → Sent
  input : Text → Sent

pub data ModuleEvent : Type 0 where
  close enabled disabled : ModuleEvent

pub record State : Type 0 where
  pub browser : Browser
  pub open browser use *
  pub web_socket : Option ℕ
  pub web_socket_connected : Bool
  pub connect_timer : Option ℕ
  pub terminal : Option Xterm
  -- The messages sent, each with its socket, newest first.
  pub sent : List (ℕ × Sent)
  -- The callbacks invoked, newest first.
  pub callbacks : List ModuleEvent
  -- A handler ended by an exception.
  pub threw : Bool

abbrev pub unloaded : State
unloaded = record {
  browser = fresh;
  web_socket = none;
  web_socket_connected = false;
  connect_timer = none;
  terminal = none;
  sent = [];
  callbacks = [];
  threw = false;
}

abbrev pub clear_connect_timer : State → State
clear_connect_timer s = elim s.connect_timer [
  | none ↦ s
  | some j ↦ record s { browser = clear_timeout j s.browser; connect_timer = none }
]

-- Whether terminal_spinner is shown, by the callbacks that enableTerminal and disableTerminal of
-- app/ui.js are, the newest first; the page shows it.
abbrev pub spinner_shown : List ModuleEvent → Bool
spinner_shown [] = true
spinner_shown (close ∷ es) = spinner_shown es
spinner_shown (enabled ∷ es) = false
spinner_shown (disabled ∷ es) = true

unfoldable pub connect : State → State
connect s = elim s.web_socket [
  | some i ↦ s
  | none ↦
      let t = clear_connect_timer s in
      record t { browser = new_socket t.browser; web_socket = some t.sockets }
]

unfoldable pub disconnect : State → State
disconnect s =
    let t : State = elim s.web_socket [
      | none ↦ s
      | some i ↦ record s {
        browser = close_socket i s.browser;
        web_socket = none;
        web_socket_connected = false;
      }
    ] in
    clear_connect_timer t

unfoldable pub enable_terminal : State → State
enable_terminal s = elim s.terminal [
  | none ↦ s
  | some x ↦ record s {
    terminal = some (record x { disable_stdin = false });
    callbacks = enabled ∷ s.callbacks;
  }
]

unfoldable pub disable_terminal : State → State
disable_terminal s = elim s.terminal [
  | none ↦ s
  | some x ↦ record s {
    terminal = some (record x { disable_stdin = true });
    callbacks = disabled ∷ s.callbacks;
  }
]

-- The numbers are the size that the fit addon finds.
unfoldable pub open_terminal : ℕ → ℕ → State → State
unfolding disable_terminal connect
open_terminal cols rows s = elim s.terminal [
  | some x ↦ s
  | none ↦
      let x : Xterm = record { cols = cols; rows = rows; disable_stdin = false; output = [] } in
      connect (disable_terminal (record s { terminal = some x }))
]

unfoldable pub close_terminal : State → State
unfolding disconnect
close_terminal s = elim s.terminal [
  | none ↦ s
  | some x ↦
      let t = disconnect (record s { terminal = none }) in
      record t { callbacks = close ∷ t.callbacks }
]

-- `webSocket.send`: a throw on null and on a socket that is still connecting; on one that is closing
-- or closed the message is dropped.
abbrev pub send_on : Ready → ℕ → Sent → State → State
send_on connecting i m s = record s { threw = true }
send_on opened i m s = record s { sent = (i, m) ∷ s.sent }
send_on r i m s = s

unfoldable pub send : Sent → State → State
send m s = elim s.web_socket [
  | none ↦ record s { threw = true }
  | some i ↦ send_on (s.ready i) i m s
]

abbrev is_some {ℓ} : {A : Type ℓ} → Option A → Bool
is_some none = false
is_some (some a) = true

-- `if (webSocket && webSocketConnected) webSocket.send(…)`
unfoldable pub send_if_connected : Sent → State → State
unfolding send
send_if_connected m s = if is_some s.web_socket && s.web_socket_connected then send m s else s

unfoldable pub resize_terminal : ℕ → ℕ → State → State
unfolding send_if_connected
resize_terminal cols rows s = elim s.terminal [
  | none ↦ s
  | some x ↦
      send_if_connected (resize cols rows)
        (record s { terminal = some (record x { cols = cols; rows = rows }) })
]

-- The handler of `terminal.onData`, which the terminal calls while it exists.
unfoldable pub on_data : Text → State → State
unfolding send_if_connected
on_data text s = elim s.terminal [ none ↦ s | some x ↦ send_if_connected (input text) s ]

-- `terminal.cols` throws where the terminal is null, and so does `send`; what follows is skipped.
unfoldable pub on_open : State → State
unfolding send enable_terminal
on_open s =
    let t = record s { web_socket_connected = true } in
    elim t.terminal [
      | none ↦ record t { threw = true }
      | some x ↦ let u = send (resize x.cols x.rows) t in if u.threw then u else enable_terminal u
    ]

-- The end of the handler of `close`; the flag is `event.wasClean`.
unfoldable pub close_or_reconnect : Bool → State → State
unfolding close_terminal
close_or_reconnect clean s = elim s.terminal [
  | none ↦ s
  | some x ↦ if clean then close_terminal s else record s {
    browser = set_timeout connect_web_socket s.browser;
    connect_timer = some s.timers;
  }
]

unfoldable pub on_close : Bool → State → State
on_close clean s = close_or_reconnect clean (disconnect (disable_terminal s))

pub data Message : Type 0 where
  bytes : Text → Message
  terminate unknown_command invalid : Message

unfoldable pub on_message : Message → State → State
unfolding close_terminal
on_message m s = elim s.terminal [
  | none ↦ s
  | some x ↦ elim m [
    | bytes b ↦ record s { terminal = some (record x { output = b ∷ x.output }) }
    | terminate ↦ close_terminal s
    | unknown_command ↦ s
    | invalid ↦ s
  ]
]

-- The calls of the public API, the terminal's and the browser's events. An event of a socket or a
-- timer that the browser cannot deliver in a state changes nothing.
pub data Event : Type 0 where
  open_called : ℕ → ℕ → Event
  close_called : Event
  resize_called : ℕ → ℕ → Event
  typed : Text → Event
  socket_opened : ℕ → Event
  socket_closed : ℕ → Bool → Event
  message_received : ℕ → Message → Event
  timer_fired : ℕ → Event

unfoldable pub step : Event → State → State
unfolding open_terminal close_terminal resize_terminal on_data on_open on_close on_message connect
    close_or_reconnect disable_terminal disconnect
step (open_called cols rows) s = open_terminal cols rows s
step close_called s = close_terminal s
step (resize_called cols rows) s = resize_terminal cols rows s
step (typed text) s = on_data text s
step (socket_opened i) s =
    if may_open (s.ready i)
    then on_open (record s { browser = set_ready i opened s.browser })
    else s
step (socket_closed i clean) s =
    if may_close (s.ready i)
    then on_close clean (record s { browser = set_ready i closed s.browser })
    else s
step (message_received i m) s = if may_receive (s.ready i) then on_message m s else s
step (timer_fired j) s = elim (s.pending j) [
  | none ↦ s
  | some callback ↦ connect (record s { browser = clear_timeout j s.browser })
]

unfoldable pub run : List Event → State → State
run [] s = s
run (e ∷ es) s = run es (step e s)
