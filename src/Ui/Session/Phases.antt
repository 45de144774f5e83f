-- ===== src/Ui/Session/Phases.antt =====
-- The session of app/ui.js as a machine of six phases: the abstract view of connect, reconnect,
-- connectFinished and disconnectFinished.
use docker_baseimage_gui.Prelude.{
  ap, ℕ, suc, ◌-◌, ◌||◌, Bool, true, false, ◌&&◌, Option, none, some, List, [], ◌∷◌, ◌≡◌, ◌≢◌, refl,
  sym, ◌∙◌, arith, ltb, if◌then◌else◌,
}
use docker_baseimage_gui.Prelude.Text.{Text}
use docker_baseimage_gui.Ui.Session.{
  Session, Event, timer_fired, test_answered, web_data_answered, rfb_connected, rfb_disconnected,
  credentials_required, security_failure, credentials_submitted, update_visual_state, connect,
  reconnect, on_test, connect_finished, disconnect_finished, on_web_data, security_failed,
  credentials, set_credentials, unloaded, start, step, run,
}
use docker_baseimage_gui.Ui.Session.Invariant.{
  SessionInv, makes_rfb, AllMake, step-SessionInv, start-SessionInv,
}

-- `dialing`: an RFB object that is not connected; `waiting`: a timer of reconnect; `testing`: the
-- connectivity test; `reloading`: the page is being loaded again; `offline`: none of these.
pub data Phase : Type 0 where
  offline dialing online waiting testing reloading : Phase

abbrev pub phase : Session → Phase
phase s =
    if s.rfb
    then (if s.is_connected then online else dialing)
    else if ltb 0 s.timers
    then waiting
    else if ltb 0 s.tests
    then testing
    else if ltb 0 s.reloads
    then reloading
    else offline

-- The phase with what the moves depend on: whether the web data ask for the connectivity test, how many
-- checks of the web data have no answer, and whether a timer has fired.
pub record Machine : Type 0 where
  pub at : Phase
  pub auth : Bool
  pub checks : ℕ
  pub attempted : Bool

abbrev pub machine : Session → Machine
machine s = record {
  at = phase s;
  auth = s.web_auth_support;
  checks = s.web_data_checks;
  attempted = ltb 0 s.reconnect_attempts;
}

-- The moves, where `again` tells whether reconnecting is allowed. Everything else leaves the phase as it
-- is; `moved` gives the phase, `after` the machine.
unfoldable pub moved : Bool → Bool → Event → Phase → Phase
moved again auth (timer_fired failure) waiting = if auth then testing else dialing
moved again auth (test_answered true) testing = reloading
moved again auth (test_answered false) testing = waiting
moved again auth rfb_connected dialing = online
moved again auth rfb_disconnected dialing = if again then waiting else offline
moved again auth rfb_disconnected online = if again then waiting else offline
moved again auth e p = p

abbrev pub is_waiting : Phase → Bool
is_waiting waiting = true
is_waiting p = false

abbrev pub is_dialing : Phase → Bool
is_dialing dialing = true
is_dialing p = false

unfoldable pub auth_after : Event → Machine → Bool
auth_after (web_data_answered (some (auth, changed))) m = if ltb 0 m.checks then auth else m.auth
auth_after e m = m.auth

unfoldable pub checks_after : Event → Machine → ℕ
checks_after rfb_connected m = if is_dialing m.at && m.attempted then suc m.checks else m.checks
checks_after (web_data_answered d) m = m.checks - 1
checks_after e m = m.checks

unfoldable pub attempted_after : Event → Machine → Bool
attempted_after (timer_fired failure) m = is_waiting m.at || m.attempted
attempted_after e m = m.attempted

unfoldable pub after : Bool → Event → Machine → Machine
unfolding moved auth_after checks_after attempted_after
after again e m = record {
  at = moved again m.auth e m.at;
  auth = auth_after e m;
  checks = checks_after e m;
  attempted = attempted_after e m;
}

unfoldable pub after_all : Bool → List Event → Machine → Machine
after_all again [] m = m
after_all again (e ∷ es) m = after_all again es (after again e m)

step-phase :
    (e : Event) (s : Session)
    → makes_rfb e ≡ true
    → SessionInv s
    → phase (step e s) ≡ moved s.reconnect_setting s.web_auth_support e (phase s)
unfolding step moved reconnect connect update_visual_state on_test connect_finished
    disconnect_finished on_web_data security_failed credentials set_credentials
step-phase (timer_fired none) s m v = ground (arith, v.one, v.on_rfb)
step-phase (timer_fired (some text)) s m v = absurd (ground arith)
step-phase (test_answered true) s m v = ground (arith, v.one)
step-phase (test_answered false) s m v = ground (arith, v.one)
step-phase (web_data_answered none) s m v = ground arith
step-phase (web_data_answered (some (auth, changed))) s m v = ground arith
step-phase rfb_connected s m v = ground (arith, v.on_rfb)
step-phase rfb_disconnected s m v = ground (arith, v.one, v.final, v.on_rfb)
step-phase (credentials_required b c) s m v = ground arith
step-phase (security_failure reason) s m v = ground arith
step-phase (credentials_submitted u p) s m v = ground arith

step-auth :
    (e : Event) (s : Session)
    → makes_rfb e ≡ true
    → SessionInv s
    → (step e s).web_auth_support ≡ auth_after e (machine s)
unfolding step auth_after reconnect connect update_visual_state on_test connect_finished
    disconnect_finished on_web_data security_failed credentials set_credentials
step-auth (timer_fired none) s m v = ground arith
step-auth (timer_fired (some text)) s m v = absurd (ground arith)
step-auth (test_answered true) s m v = ground arith
step-auth (test_answered false) s m v = ground arith
step-auth (web_data_answered none) s m v = ground arith
step-auth (web_data_answered (some (auth, changed))) s m v = ground arith
step-auth rfb_connected s m v = ground arith
step-auth rfb_disconnected s m v = ground arith
step-auth (credentials_required b c) s m v = ground arith
step-auth (security_failure reason) s m v = ground arith
step-auth (credentials_submitted u p) s m v = ground arith

step-checks :
    (e : Event) (s : Session)
    → makes_rfb e ≡ true
    → SessionInv s
    → (step e s).web_data_checks ≡ checks_after e (machine s)
unfolding step checks_after reconnect connect update_visual_state on_test connect_finished
    disconnect_finished on_web_data security_failed credentials set_credentials
step-checks (timer_fired none) s m v = ground arith
step-checks (timer_fired (some text)) s m v = absurd (ground arith)
step-checks (test_answered true) s m v = ground arith
step-checks (test_answered false) s m v = ground arith
step-checks (web_data_answered none) s m v = ground arith
step-checks (web_data_answered (some (auth, changed))) s m v = ground arith
step-checks rfb_connected s m v = ground (arith, v.one, v.on_rfb)
step-checks rfb_disconnected s m v = ground arith
step-checks (credentials_required b c) s m v = ground arith
step-checks (security_failure reason) s m v = ground arith
step-checks (credentials_submitted u p) s m v = ground arith

step-attempted :
    (e : Event) (s : Session)
    → makes_rfb e ≡ true
    → SessionInv s
    → ltb 0 (step e s).reconnect_attempts ≡ attempted_after e (machine s)
unfolding step attempted_after reconnect connect update_visual_state on_test connect_finished
    disconnect_finished on_web_data security_failed credentials set_credentials
step-attempted (timer_fired none) s m v = ground (arith, v.one, v.on_rfb)
step-attempted (timer_fired (some text)) s m v = absurd (ground arith)
step-attempted (test_answered true) s m v = ground arith
step-attempted (test_answered false) s m v = ground arith
step-attempted (web_data_answered none) s m v = ground arith
step-attempted (web_data_answered (some (auth, changed))) s m v = ground arith
step-attempted rfb_connected s m v = ground arith
step-attempted rfb_disconnected s m v = ground arith
step-attempted (credentials_required b c) s m v = ground arith
step-attempted (security_failure reason) s m v = ground arith
step-attempted (credentials_submitted u p) s m v = ground arith

step-reconnect_setting :
    (e : Event) (s : Session) → (step e s).reconnect_setting ≡ s.reconnect_setting
unfolding step reconnect connect update_visual_state on_test connect_finished disconnect_finished
    on_web_data security_failed credentials set_credentials
step-reconnect_setting (timer_fired none) s = ground arith
step-reconnect_setting (timer_fired (some text)) s = ground arith
step-reconnect_setting (test_answered true) s = ground arith
step-reconnect_setting (test_answered false) s = ground arith
step-reconnect_setting (web_data_answered none) s = ground arith
step-reconnect_setting (web_data_answered (some (auth, changed))) s = ground arith
step-reconnect_setting rfb_connected s = ground arith
step-reconnect_setting rfb_disconnected s = ground arith
step-reconnect_setting (credentials_required b c) s = ground arith
step-reconnect_setting (security_failure reason) s = ground arith
step-reconnect_setting (credentials_submitted u p) s = ground arith

same_machine :
    (m n : Machine)
    → m.at ≡ n.at
    → m.auth ≡ n.auth
    → m.checks ≡ n.checks
    → m.attempted ≡ n.attempted
    → m ≡ n
same_machine m n a b c d = cc

step-machine :
    (e : Event) (s : Session)
    → makes_rfb e ≡ true
    → SessionInv s
    → machine (step e s) ≡ after s.reconnect_setting e (machine s)
unfolding after
step-machine e s m v =
    same_machine _ _ (step-phase e s m v) (step-auth e s m v) (step-checks e s m v)
      (step-attempted e s m v)

run-machine :
    (again : Bool) (es : List Event) (s : Session)
    → AllMake es
    → SessionInv s
    → s.reconnect_setting ≡ again
    → machine (run es s) ≡ after_all again es (machine s)
unfolding run after_all
run-machine again [] s m v r = refl
run-machine again (e ∷ es) s (m, ms) v r =
    run-machine again es (step e s) ms (step-SessionInv e s m v) (step-reconnect_setting e s ∙ r)
    ∙ ap (after_all again es) (rw (sym r) (step-machine e s m v))

-- The connection that start begins.
abbrev pub begun : Bool → Machine
begun auth = record { at = dialing; auth = auth; checks = 0; attempted = false }

start-machine :
    (a r e f : Bool) (c : Option Text) (name : Text)
    → let s = start none (unloaded a r e f c name) in
      (machine s ≡ begun a) × (s.reconnect_setting ≡ r)
unfolding start unloaded connect update_visual_state
start-machine a r e f c name =
    (same_machine _ _ (ground arith) (ground arith) (ground arith) (ground arith), ground arith)

-- From the start of the page on, as long as no RFB constructor throws: the session and the machine of
-- phases go together. After any events the session is in the phase that the machine computes from
-- `dialing` by the same events, one after the other; the two also agree on the connectivity test being
-- asked for, on the checks of the web data, and on a timer having fired.
pub run-start-machine :
    (a r e f : Bool) (c : Option Text) (name : Text) (es : List Event)
    → AllMake es
    → machine (run es (start none (unloaded a r e f c name))) ≡ after_all r es (begun a)
run-start-machine a r e f c name es m =
    let s = start none (unloaded a r e f c name) in
    let (begins, kept) = start-machine a r e f c name in
    run-machine r es s m (start-SessionInv a r e f c name) kept ∙ ap (after_all r es) begins

moved-online : (auth : Bool) (e : Event) (p : Phase) → p ≢ offline → moved true auth e p ≢ offline
unfolding moved
moved-online auth e p h = ground arith

after_all-online :
    (es : List Event) (m : Machine) → m.at ≢ offline → (after_all true es m).at ≢ offline
unfolding after_all after
after_all-online [] m h = h
after_all-online (e ∷ es) m h = after_all-online es (after true e m) (moved-online m.auth e m.at h)

-- Where reconnecting is allowed and no RFB constructor throws, the session never goes offline: it always
-- has an RFB object, a timer or a connectivity test, or the page is being loaded again.
pub run-not_offline :
    (a e f : Bool) (c : Option Text) (name : Text) (es : List Event)
    → AllMake es
    → phase (run es (start none (unloaded a true e f c name))) ≢ offline
run-not_offline a e f c name es m =
    let same = ap (λ (n : Machine). n.at) (run-start-machine a true e f c name es m) in
    rw same (after_all-online es (begun a) (λ h. cc))
