-- ===== src/Terminal/Tests.antt =====
-- Runs of the terminal service: the terminal is opened and connected, the connection is lost, the
-- terminal is closed and opened again.
use docker_baseimage_gui.Prelude.{false, List, [], ◌∷◌, ◌≡◌, refl}
use docker_baseimage_gui.Prelude.Text.{codes}
use docker_baseimage_gui.Terminal.{
  Sent, resize, unloaded, Event, open_called, typed, socket_opened, socket_closed, timer_fired,
  step, run,
}
use docker_baseimage_gui.Terminal.Invariant.{ShellInv, run-unloaded-ShellInv}

abbrev session : List Event
session =
    open_called 80 24
    ∷ socket_opened 0
    ∷ typed (codes "ls")
    ∷ socket_closed 0 false
    ∷ timer_fired 0
    ∷ socket_opened 1
    ∷ []

session_sends :
    (run session unloaded).sent
    ≡ (1, resize 80 24) ∷ (0, Sent.input (codes "ls")) ∷ (0, resize 80 24) ∷ []
unfolding run step
session_sends = refl

run-unloaded-ShellInv_example : ShellInv 1 0 (run session unloaded)
run-unloaded-ShellInv_example = run-unloaded-ShellInv session 1 0
