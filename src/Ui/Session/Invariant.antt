-- ===== src/Ui/Session/Invariant.antt =====
-- What holds of the session of app/ui.js as long as RFB objects can be made.
use docker_baseimage_gui.Prelude.{
  ℕ, ◌+◌, ◌≤◌, ◌<◌, Bool, true, false, not, Option, none, some, List, [], ◌∷◌, ◌≡◌, arith,
  if◌then◌else◌,
}
use docker_baseimage_gui.Prelude.Text.{Text}
use docker_baseimage_gui.Ui.Session.{
  Session, connected, reconnecting, Event, timer_fired, test_answered, web_data_answered,
  rfb_connected, rfb_disconnected, credentials_required, security_failure, credentials_submitted,
  update_visual_state, connect, reconnect, on_test, connect_finished, disconnect_finished,
  on_web_data, security_failed, credentials, set_credentials, unloaded, start, step, run,
}

abbrev pub attempt : Bool → ℕ
attempt b = if b then 1 else 0

pub record SessionInv (s : Session) : Type 0 where
  pub on_rfb : s.is_connected ≡ true → s.rfb ≡ true
  pub looks_connected : s.is_connected ≡ true → s.visual ≡ connected
  pub looks_reconnecting : s.ongoing_reconnect ≡ true → s.visual ≡ reconnecting
  pub bar_hidden : s.anchor_hidden ≡ not s.is_connected
  -- One thing at a time: an RFB object, a timer or a connectivity test.
  pub one : attempt s.rfb + (s.timers + s.tests) ≤ 1
  -- While the page is being loaded again after a connectivity test, there is none of them.
  pub final : 0 < s.reloads → attempt s.rfb + (s.timers + s.tests) ≡ 0
  -- A reconnection that goes on has one of them, or the page is being loaded again.
  pub not_stuck : s.ongoing_reconnect ≡ true → 0 < attempt s.rfb + (s.timers + s.tests) + s.reloads

-- In no event the constructor throws.
abbrev pub makes_rfb : Event → Bool
makes_rfb (timer_fired (some text)) = false
makes_rfb e = true

abbrev pub AllMake : List Event → Type 0
AllMake [] = Unit
AllMake (e ∷ es) = (makes_rfb e ≡ true) × AllMake es

pub step-SessionInv :
    (e : Event) (s : Session) → makes_rfb e ≡ true → SessionInv s → SessionInv (step e s)
unfolding step reconnect connect update_visual_state on_test connect_finished disconnect_finished
    on_web_data security_failed credentials set_credentials
step-SessionInv (timer_fired none) s m v = ground arith
step-SessionInv (timer_fired (some text)) s m v = absurd (ground arith)
step-SessionInv (test_answered b) s m v = ground arith
step-SessionInv (web_data_answered none) s m v = ground arith
step-SessionInv (web_data_answered (some (auth, changed))) s m v = ground arith
step-SessionInv rfb_connected s m v = ground arith
step-SessionInv rfb_disconnected s m v = ground arith
step-SessionInv (credentials_required b c) s m v = ground arith
step-SessionInv (security_failure reason) s m v = ground arith
step-SessionInv (credentials_submitted u p) s m v = ground arith

run-SessionInv : (es : List Event) (s : Session) → AllMake es → SessionInv s → SessionInv (run es s)
unfolding run
run-SessionInv [] s m v = v
run-SessionInv (e ∷ es) s (m, ms) v = run-SessionInv es (step e s) ms (step-SessionInv e s m v)

pub start-SessionInv :
    (a r e f : Bool) (c : Option Text) (name : Text)
    → SessionInv (start none (unloaded a r e f c name))
unfolding start unloaded connect update_visual_state
start-SessionInv a r e f c name = ground arith

-- From the start of the page on, as long as no RFB constructor throws: the user interface is
-- connected only with an RFB object, and then looks so; while a reconnection goes on it looks so; the
-- control bar can be reached exactly while it is connected; there is never more than one RFB object,
-- pending timer or unanswered connectivity test in all, and none of them once a connectivity test has
-- made the page load again; and while a reconnection goes on there is one of these, or such a test has
-- made the page load again, so that the reconnection never gets stuck.
pub run-start-SessionInv :
    (a r e f : Bool) (c : Option Text) (name : Text) (es : List Event)
    → AllMake es
    → SessionInv (run es (start none (unloaded a r e f c name)))
run-start-SessionInv a r e f c name es m =
    run-SessionInv es (start none (unloaded a r e f c name)) m (start-SessionInv a r e f c name)
