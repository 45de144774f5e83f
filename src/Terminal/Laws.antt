-- ===== src/Terminal/Laws.antt =====
-- Connections, messages and reconnection of app/terminal.js.
use docker_baseimage_gui.Prelude.{
  ℕ, ◌<◌, true, false, none, some, [], ◌∷◌, ◌≡◌, arith, if◌then◌else◌,
}
use docker_baseimage_gui.Prelude.Text.{Text}
use docker_baseimage_gui.Browser.{opened, connecting, may_close}
use docker_baseimage_gui.Terminal.{
  Xterm, Sent, resize, State, open_called, close_called, typed, socket_opened, socket_closed,
  timer_fired, step, run,
}
use docker_baseimage_gui.Terminal.Invariant.{accepts_input}

-- While there is a terminal, a connection that is lost, not closed cleanly, is made again after the
-- timer. The terminal keeps its screen, takes no input meanwhile, and tells the new shell its size
-- when the connection opens.
dropped-reconnects :
    (s : State) (i : ℕ) (x : Xterm)
    → s.web_socket ≡ some i
    → may_close (s.ready i) ≡ true
    → s.terminal ≡ some x
    → s.threw ≡ false
    → let t = run (socket_closed i false ∷ timer_fired s.timers ∷ []) s in
      let u = step (socket_opened s.sockets) t in
      (t.web_socket ≡ some s.sockets)
      × (t.ready s.sockets ≡ connecting)
      × (accepts_input t ≡ false)
      × (u.terminal ≡ some (record x { disable_stdin = false }))
      × (u.sent ≡ (s.sockets, resize x.cols x.rows) ∷ s.sent)
unfolding run step
dropped-reconnects s i x held live term calm = ground arith

-- Where a connected terminal is closed and opened again before the `close` event of its old socket
-- `i` arrives, that event, if clean, closes the new terminal and drops its socket.
pub reopen-closes :
    (s : State) (i cols rows : ℕ) (x : Xterm)
    → s.web_socket ≡ some i
    → s.ready i ≡ opened
    → i < s.sockets
    → s.terminal ≡ some x
    → let t = run (close_called ∷ open_called cols rows ∷ []) s in
      let u = step (socket_closed i true) t in
      (t.web_socket ≡ some s.sockets)
      × (accepts_input t ≡ false)
      × (u.terminal ≡ none)
      × (u.web_socket ≡ none)
unfolding run step
reopen-closes s i cols rows x held is_open born term = ground arith

-- With a terminal and an open socket, what the user types is sent as it is if the service counts as
-- connected, and dropped otherwise.
pub typed-sent :
    (s : State) (text : Text) (i : ℕ) (x : Xterm)
    → s.terminal ≡ some x
    → s.web_socket ≡ some i
    → s.ready i ≡ opened
    → (step (typed text) s).sent
      ≡ (if s.web_socket_connected then (i, Sent.input text) ∷ s.sent else s.sent)
unfolding step
typed-sent s text i x term held is_open = ground arith
