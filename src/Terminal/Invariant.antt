-- ===== src/Terminal/Invariant.antt =====
-- What holds of app/terminal.js between two events, whatever the user, the server and the network
-- do.
use docker_baseimage_gui.Prelude.{
  ℕ, Bool, true, false, not, none, some, List, [], ◌∷◌, ◌≡◌, arith, Bool-cases, inl, inr,
}
use docker_baseimage_gui.Prelude.Text.{Text}
use docker_baseimage_gui.Browser.{
  Ready, opened, closed, unborn, is_live, is_pending, may_close, set_ready,
}
use docker_baseimage_gui.Terminal.{
  spinner_shown, disconnect, disable_terminal, close_terminal, close_or_reconnect, on_close, State,
  unloaded, Event, socket_opened, socket_closed, timer_fired, message_received, open_called,
  close_called, resize_called, typed, Message, step, run,
}

abbrev pub has_terminal : State → Bool
has_terminal s = elim s.terminal [ none ↦ false | some x ↦ true ]

-- The user's keys reach the terminal.
abbrev pub accepts_input : State → Bool
accepts_input s = elim s.terminal [
  | none ↦ false
  | some x ↦ elim x.disable_stdin [ true ↦ false | false ↦ true ]
]

-- `readyState` of the socket that the service holds.
abbrev pub current_ready : State → Ready
current_ready s = elim s.web_socket [ none ↦ unborn | some i ↦ s.ready i ]

-- The invariant, for one socket and one timer.
pub record ShellInv (i j : ℕ) (s : State) : Type 0 where
  -- If the socket is live, it is the one that the service holds.
  pub held : is_live (s.ready i) ≡ true → s.web_socket ≡ some i
  -- If the timer is pending, it is the one that the service remembers, and there is a terminal.
  pub named : is_pending (s.pending j) ≡ true → s.connect_timer ≡ some j
  pub timed : is_pending (s.pending j) ≡ true → has_terminal s ≡ true
  -- Without a terminal there is no socket.
  pub owned : has_terminal s ≡ false → s.web_socket ≡ none
  -- Input is accepted, and sent, only over an open socket.
  pub input_connected : accepts_input s ≡ true → s.web_socket_connected ≡ true
  -- The spinner of a terminal is shown exactly while input is not accepted.
  pub spins : has_terminal s ≡ true → spinner_shown s.callbacks ≡ not (accepts_input s)
  pub connected_open : s.web_socket_connected ≡ true → current_ready s ≡ opened
  -- No handler ended by an exception.
  pub calm : s.threw ≡ false

close_terminal-ShellInv : (i j : ℕ) (s : State) → ShellInv i j s → ShellInv i j (close_terminal s)
unfolding close_terminal
close_terminal-ShellInv i j s v = ground arith

step-open_called :
    (c r i j : ℕ) (s : State) → ShellInv i j s → ShellInv i j (step (open_called c r) s)
unfolding step
step-open_called c r i j s v = ground arith

step-close_called : (i j : ℕ) (s : State) → ShellInv i j s → ShellInv i j (step close_called s)
unfolding step
step-close_called i j s v = close_terminal-ShellInv i j s v

step-resize_called :
    (c r i j : ℕ) (s : State) → ShellInv i j s → ShellInv i j (step (resize_called c r) s)
unfolding step
step-resize_called c r i j s v = ground arith

step-typed :
    (text : Text) (i j : ℕ) (s : State) → ShellInv i j s → ShellInv i j (step (typed text) s)
unfolding step
step-typed text i j s v = ground arith

step-socket_opened :
    (k i j : ℕ) (s : State)
    → ShellInv i j s
    → ShellInv k j s
    → ShellInv i j (step (socket_opened k) s)
unfolding step
step-socket_opened k i j s v w = ground arith

-- What the handler of `close` does first.
dropped-ShellInv :
    (k i j : ℕ) (s : State)
    → ShellInv i j s
    → ShellInv i j
        (disconnect (disable_terminal (record s { browser = set_ready k closed s.browser })))
unfolding disconnect disable_terminal
dropped-ShellInv k i j s v = ground arith

disconnect-connect_timer : (s : State) → (disconnect s).connect_timer ≡ none
unfolding disconnect
disconnect-connect_timer s = ground arith

close_or_reconnect-ShellInv :
    (clean : Bool) (i j : ℕ) (s : State)
    → s.connect_timer ≡ none
    → ShellInv i j s
    → ShellInv i j (close_or_reconnect clean s)
unfolding close_or_reconnect
close_or_reconnect-ShellInv true i j s no_timer v = ground arith
close_or_reconnect-ShellInv false i j s no_timer v = ground arith

on_close-ShellInv :
    (k : ℕ) (clean : Bool) (i j : ℕ) (s : State)
    → ShellInv i j s
    → ShellInv i j (on_close clean (record s { browser = set_ready k closed s.browser }))
unfolding on_close
on_close-ShellInv k clean i j s v =
    close_or_reconnect-ShellInv clean i j _ (disconnect-connect_timer _)
      (dropped-ShellInv k i j s v)

step-socket_closed :
    (k : ℕ) (clean : Bool) (i j : ℕ) (s : State)
    → ShellInv i j s
    → ShellInv i j (step (socket_closed k clean) s)
unfolding step
step-socket_closed k clean i j s v = elim (Bool-cases (may_close (s.ready k))) [
  | inl e ↦ rw e (on_close-ShellInv k clean i j s v)
  | inr e ↦ rw e v
]

step-message_received :
    (k : ℕ) (m : Message) (i j : ℕ) (s : State)
    → ShellInv i j s
    → ShellInv i j (step (message_received k m) s)
unfolding step
step-message_received k m i j s v = ground arith

step-timer_fired :
    (k i j : ℕ) (s : State)
    → ShellInv i j s
    → ShellInv i k s
    → ShellInv i j (step (timer_fired k) s)
unfolding step
step-timer_fired k i j s v w = ground arith

-- Every event keeps the invariant.
pub step-ShellInv :
    (e : Event) (s : State) → ((i j : ℕ) → ShellInv i j s) → (i j : ℕ) → ShellInv i j (step e s)
step-ShellInv (open_called c r) s v i j = step-open_called c r i j s (v i j)
step-ShellInv close_called s v i j = step-close_called i j s (v i j)
step-ShellInv (resize_called c r) s v i j = step-resize_called c r i j s (v i j)
step-ShellInv (typed text) s v i j = step-typed text i j s (v i j)
step-ShellInv (socket_opened k) s v i j = step-socket_opened k i j s (v i j) (v k j)
step-ShellInv (socket_closed k clean) s v i j = step-socket_closed k clean i j s (v i j)
step-ShellInv (message_received k m) s v i j = step-message_received k m i j s (v i j)
step-ShellInv (timer_fired k) s v i j = step-timer_fired k i j s (v i j) (v i k)

pub unloaded-ShellInv : (i j : ℕ) → ShellInv i j unloaded
unloaded-ShellInv i j = ground arith

-- Whatever the user, the server and the network do.
pub run-ShellInv :
    (es : List Event) (s : State)
    → ((i j : ℕ) → ShellInv i j s)
    → (i j : ℕ) → ShellInv i j (run es s)
unfolding run
run-ShellInv [] s v = v
run-ShellInv (e ∷ es) s v = run-ShellInv es (step e s) (step-ShellInv e s v)

-- Whatever the user, the shell and the network do after the page is loaded: a live socket is the
-- one that the service holds; a pending timer is the one that it remembers and there is a terminal;
-- without a terminal there is no socket; a terminal that takes input is connected; a connected
-- service holds an open socket; the spinner of a terminal is shown exactly while it takes no input;
-- and no handler has thrown.
pub run-unloaded-ShellInv : (es : List Event) (i j : ℕ) → ShellInv i j (run es unloaded)
run-unloaded-ShellInv es = run-ShellInv es unloaded unloaded-ShellInv
