-- ===== src/Notification/Sockets.antt =====
-- The WebSocket connections of app/notificationService.js.
use docker_baseimage_gui.Prelude.{
  ℕ, suc, ◌<◌, Bool, true, false, none, some, List, [], ◌∷◌, ◌≡◌, refl, ◌⊎◌, arith,
}
use docker_baseimage_gui.Browser.{is_live, is_pending, may_close, connecting, opened}
use docker_baseimage_gui.Notification.{
  Permission, State, unloaded, initialize, stop, Event, start_called, socket_closed, timer_fired,
  stop_called, step, run,
}
use docker_baseimage_gui.Notification.Timers.{IsQuiet, run-timer, stop-IsQuiet}

abbrev pub is_start : Event → Bool
is_start start_called = true
is_start e = false

abbrev pub NoStart : List Event → Type 0
NoStart [] = Unit
NoStart (e ∷ es) = (is_start e ≡ false) × NoStart es

-- One step of a stopped service.
record Stays (s t : State) : Type 0 where
  not_started : t.started ≡ false
  no_socket : t.web_socket ≡ none
  same_sockets : t.sockets ≡ s.sockets

step-Stays : (e : Event) (s : State) → is_start e ≡ false → IsQuiet s → Stays s (step e s)
unfolding step
step-Stays start_called s n q = cc
step-Stays (timer_fired j) s n q = ground (arith, q.no_timer j)
step-Stays _ s n q = ground (arith, q.not_started, q.no_socket)

step-no_timer :
    (e : Event) (s : State) (j : ℕ)
    → is_start e ≡ false
    → IsQuiet s
    → is_pending ((step e s).pending j) ≡ false
unfolding step
step-no_timer start_called s j n q = cc
step-no_timer (timer_fired k) s j n q = ground (arith, q.no_timer j, q.no_timer k)
step-no_timer _ s j n q = ground (arith, q.no_timer j, q.not_started, q.no_socket)

step-IsQuiet : (e : Event) (s : State) → is_start e ≡ false → IsQuiet s → IsQuiet (step e s)
step-IsQuiet e s n q =
    let stays = step-Stays e s n q in
    record {
      not_started = stays.not_started;
      no_socket = stays.no_socket;
      no_timer = λ j. step-no_timer e s j n q;
    }

run-sockets :
    (es : List Event) (s : State) → NoStart es → IsQuiet s → (run es s).sockets ≡ s.sockets
unfolding run
run-sockets [] s n q = refl
run-sockets (e ∷ es) s n q = omega (
  arith,
  run-sockets es (step e s) n.1 (step-IsQuiet e s n.0 q),
  (step-Stays e s n.0 q).same_sockets,
)

-- Whatever happened since the service was initialized, after stop no connection is made until start is called again, whatever happens in between: events
-- of old sockets, answers of the user, timers.
pub stop-sockets :
    (supported : Bool) (p : Permission) (es later : List Event)
    → NoStart later
    → let s = run es (initialize supported p unloaded) in
      (run later (stop s)).sockets ≡ (stop s).sockets
stop-sockets supported p es later n =
    run-sockets later _ n (stop-IsQuiet _ (λ j. run-timer supported p es j))

-- A socket that is live is the one that the service holds.
abbrev pub Held : ℕ → State → Type 0
Held i s = is_live (s.ready i) ≡ true → s.web_socket ≡ some i

-- The event is no `close` of a socket that the service has already replaced.
abbrev pub IsCurrent : Event → State → Type 0
IsCurrent (socket_closed i) s = (s.web_socket ≡ none) ⊎ (s.web_socket ≡ some i)
IsCurrent e s = Unit

pub step-Held : (e : Event) (s : State) (i : ℕ) → IsCurrent e s → Held i s → Held i (step e s)
unfolding step
step-Held (socket_closed k) s i c h = ground arith
step-Held start_called s i c h = ground arith
step-Held _ s i c h = ground arith

-- Sockets that are not constructed yet are not live.
abbrev pub AllCurrent : List Event → State → Type 0
AllCurrent [] s = Unit
AllCurrent (e ∷ es) s = IsCurrent e s × AllCurrent es (step e s)

run-Held : (es : List Event) (s : State) (i : ℕ) → AllCurrent es s → Held i s → Held i (run es s)
unfolding run
run-Held [] s i c h = h
run-Held (e ∷ es) s i c h = run-Held es (step e s) i c.1 (step-Held e s i c.0 h)

initialize-Held :
    (supported : Bool) (p : Permission) (i : ℕ) → Held i (initialize supported p unloaded)
unfolding initialize
initialize-Held supported p i = ground arith

-- As long as each `close` event arrives while the service holds its socket or none, no two sockets are
-- live after the service is initialized.
pub run-one_live :
    (supported : Bool) (p : Permission) (es : List Event) (i k : ℕ)
    → let s₀ = initialize supported p unloaded in
      AllCurrent es s₀
      → is_live ((run es s₀).ready i) ≡ true
      → is_live ((run es s₀).ready k) ≡ true
      → i ≡ k
run-one_live supported p es i k c hi hk = ground (
  arith,
  run-Held es _ i c (initialize-Held supported p i) hi,
  run-Held es _ k c (initialize-Held supported p k) hk,
)

-- A connection that is lost while the service is started and has the permission is replaced by a new
-- one when the timer fires.
pub lost-reconnects :
    (s : State) (i : ℕ)
    → s.web_socket ≡ some i
    → may_close (s.ready i) ≡ true
    → s.notification_granted ≡ true
    → s.started ≡ true
    → let t = run (socket_closed i ∷ timer_fired s.timers ∷ []) s in
      (t.web_socket ≡ some s.sockets) × (t.ready s.sockets ≡ connecting)
unfolding run step
lost-reconnects s i held live granted started = ground arith

-- With the permission, where a connected service is stopped and started again before the `close` event of the old socket `i`
-- arrives, that event makes it forget the new socket, which stays live beside a third one.
pub restart-leaks :
    (s : State) (i : ℕ)
    → s.web_socket ≡ some i
    → s.ready i ≡ opened
    → i < s.sockets
    → s.notification_granted ≡ true
    → let t = run (stop_called ∷ start_called ∷ socket_closed i ∷ timer_fired s.timers ∷ []) s in
      (is_live (t.ready s.sockets) ≡ true)
      × (is_live (t.ready (suc s.sockets)) ≡ true)
      × (t.web_socket ≡ some (suc s.sockets))
unfolding run step
restart-leaks s i held is_open born granted = ground arith
