-- ===== src/Notification/Tests.antt =====
-- Runs of the notification service: the permission is granted, the service starts, its connection
-- opens, is lost and is made again.
use docker_baseimage_gui.Prelude.{ℕ, suc, true, some, List, [], ◌∷◌, ◌≡◌, refl, inr, arith}
use docker_baseimage_gui.Prelude.Text.{codes}
use docker_baseimage_gui.Browser.{is_live}
use docker_baseimage_gui.Notification.{
  granted, Data, State, unloaded, initialize, stop, Event, start_called, stop_called, socket_opened,
  socket_closed, message_received, timer_fired, permission_answered, step, run,
}
use docker_baseimage_gui.Notification.Sockets.{stop-sockets, run-one_live, restart-leaks}

abbrev session : List Event
session = start_called ∷ socket_opened 0 ∷ socket_closed 0 ∷ timer_fired 0 ∷ socket_opened 1 ∷ []

abbrev connected : State
connected = run (start_called ∷ socket_opened 0 ∷ []) (initialize true granted unloaded)

abbrev hello : Data
hello = record { id = some 7; summary = some (codes "hi"); body = some (codes "there") }

session_reconnects : (run session (initialize true granted unloaded)).web_socket ≡ some 1
unfolding run step initialize
session_reconnects = refl

abbrev aftermath : List Event
aftermath = socket_closed 1 ∷ timer_fired 0 ∷ permission_answered granted ∷ []

stop-sockets_example :
    (run aftermath (stop (run session (initialize true granted unloaded)))).sockets
    ≡ (stop (run session (initialize true granted unloaded))).sockets
stop-sockets_example = stop-sockets true granted session aftermath (refl, (refl, (refl, tt)))

run-one_live_example : ◌≡◌ {A = ℕ} 1 1
unfolding run step initialize
run-one_live_example =
    run-one_live true granted session 1 1 (tt, (tt, (inr refl, (tt, (tt, tt))))) refl refl

restart-leaks_example :
    let t =
      run
        (stop_called ∷ start_called ∷ socket_closed 0 ∷ timer_fired connected.timers ∷ [])
        connected in
    (is_live (t.ready connected.sockets) ≡ true)
    × (is_live (t.ready (suc connected.sockets)) ≡ true)
    × (t.web_socket ≡ some (suc connected.sockets))
unfolding run step initialize
restart-leaks_example = restart-leaks connected 0 refl refl (omega arith) refl

hello_is_shown :
    (step (message_received 0 (some hello) granted) connected).shown
    ≡ record { summary = codes "hi"; body = codes "there"; tag = some 7 } ∷ []
unfolding run step initialize
hello_is_shown = refl
