-- ===== src/Notification/Timers.antt =====
-- The reconnection timer of app/notificationService.js.
use docker_baseimage_gui.Prelude.{ℕ, Bool, true, false, none, some, List, [], ◌∷◌, ◌≡◌, arith}
use docker_baseimage_gui.Browser.{is_pending}
use docker_baseimage_gui.Notification.{
  Permission, State, unloaded, initialize, stop, Event, step, run,
}

-- The variable names the timer, if it is pending.
abbrev pub Named : ℕ → State → Type 0
Named j s = is_pending (s.pending j) ≡ true → s.connect_timer ≡ some j

pub step-Named : (e : Event) (s : State) (j : ℕ) → Named j s → Named j (step e s)
unfolding step
step-Named e s j h = ground arith

pub run-Named : (es : List Event) (s : State) (j : ℕ) → Named j s → Named j (run es s)
unfolding run
run-Named [] s j h = h
run-Named (e ∷ es) s j h = run-Named es (step e s) j (step-Named e s j h)

pub initialize-Named :
    (supported : Bool) (p : Permission) (j : ℕ) → Named j (initialize supported p unloaded)
unfolding initialize
initialize-Named supported p j = ground arith

-- Whatever happened since the service was initialized: a timer that is pending is the one that the
-- service remembers, so there is at most one.
pub run-timer :
    (supported : Bool) (p : Permission) (es : List Event) (j : ℕ)
    → Named j (run es (initialize supported p unloaded))
run-timer supported p es j = run-Named es _ j (initialize-Named supported p j)

-- The state after stop.
pub record IsQuiet (s : State) : Type 0 where
  pub not_started : s.started ≡ false
  pub no_socket : s.web_socket ≡ none
  pub no_timer : (j : ℕ) → is_pending (s.pending j) ≡ false

stop-no_timer : (s : State) (j : ℕ) → Named j s → is_pending ((stop s).pending j) ≡ false
unfolding stop
stop-no_timer s j h = ground arith

pub stop-IsQuiet : (s : State) → ((j : ℕ) → Named j s) → IsQuiet (stop s)
stop-IsQuiet s h = record {
  not_started = unfold stop in ground arith;
  no_socket = unfold stop in ground arith;
  no_timer = λ j. stop-no_timer s j (h j);
}
