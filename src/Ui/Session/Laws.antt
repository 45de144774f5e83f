-- ===== src/Ui/Session/Laws.antt =====
-- Where the session of app/ui.js goes wrong.
use docker_baseimage_gui.Prelude.{Bool, true, false, none, some, List, [], ◌∷◌, ◌≡◌, arith}
use docker_baseimage_gui.Prelude.Text.{Text}
use docker_baseimage_gui.Ui.Status.{show_status}
use docker_baseimage_gui.Ui.Session.{
  Session, reconnecting, Event, timer_fired, rfb_connected, rfb_disconnected, test_answered,
  web_data_answered, on_web_data, credentials_required, credentials_submitted, security_failure,
  update_visual_state, connect, reconnect, disconnect_finished, credentials, set_credentials, step,
  run,
}

-- Nothing is left that could go on with the reconnection.
record IsStuck (s : Session) : Type 0 where
  no_rfb : s.rfb ≡ false
  no_timer : s.timers ≡ 0
  no_test : s.tests ≡ 0
  ongoing : s.ongoing_reconnect ≡ true

step-IsStuck : (e : Event) (s : Session) → IsStuck s → IsStuck (step e s)
unfolding step set_credentials on_web_data
step-IsStuck (timer_fired failure) s v = ground arith
step-IsStuck (test_answered b) s v = ground arith
step-IsStuck (web_data_answered none) s v = ground arith
step-IsStuck (web_data_answered (some (auth, changed))) s v = ground arith
step-IsStuck rfb_connected s v = ground arith
step-IsStuck rfb_disconnected s v = ground arith
step-IsStuck (credentials_required b c) s v = ground arith
step-IsStuck (security_failure reason) s v = ground arith
step-IsStuck (credentials_submitted u p) s v = ground arith

run-IsStuck : (es : List Event) (s : Session) → IsStuck s → IsStuck (run es s)
unfolding run
run-IsStuck [] s v = v
run-IsStuck (e ∷ es) s v = run-IsStuck es (step e s) (step-IsStuck e s v)

refused :
    (s : Session) (text : Text)
    → s.rfb ≡ false
    → s.timers ≡ 1
    → s.tests ≡ 0
    → s.ongoing_reconnect ≡ true
    → s.web_auth_support ≡ false
    → IsStuck (step (timer_fired (some text)) s)
unfolding step reconnect connect update_visual_state
refused s text no_rfb timer no_test ongoing no_auth = ground arith

-- Without web authentication, where the RFB constructor throws in a reconnection for which there is
-- one pending timer, no connectivity test and no RFB object, the status bar does not change, and
-- whatever happens afterwards there is no RFB object again, while the reconnection counts as going on.
pub refused-stuck :
    (s : Session) (text : Text) (es : List Event)
    → s.rfb ≡ false
    → s.timers ≡ 1
    → s.tests ≡ 0
    → s.ongoing_reconnect ≡ true
    → s.web_auth_support ≡ false
    → let t = step (timer_fired (some text)) s in
      (t.status ≡ s.status) × ((run es t).rfb ≡ false) × ((run es t).ongoing_reconnect ≡ true)
unfolding step reconnect connect update_visual_state show_status
refused-stuck s text es no_rfb timer no_test ongoing no_auth =
    let v = run-IsStuck es _ (refused s text no_rfb timer no_test ongoing no_auth) in
    (ground arith, v.no_rfb, v.ongoing)

-- Where the server asks for credentials in a reconnection and then closes the connection, and
-- reconnecting is allowed, the dialog stays open; submitting it throws, and the password is lost,
-- whatever the server asks for.
pub late_credentials-throw :
    (s : Session) (b c : Bool) (username p : Text)
    → s.rfb ≡ true
    → s.is_connected ≡ false
    → s.ongoing_reconnect ≡ true
    → s.visual ≡ reconnecting
    → s.reconnect_setting ≡ true
    → let t = run (credentials_required b c ∷ rfb_disconnected ∷ []) s in
      let u = step (credentials_submitted username p) t in
      (t.credentials_open ≡ true)
      × (u.threw ≡ true)
      × (u.credentials_open ≡ true)
      × (u.reconnect_password ≡ s.reconnect_password)
      × (u.password_input ≡ [])
      × (u.sent_credentials ≡ s.sent_credentials)
unfolding run step credentials disconnect_finished update_visual_state set_credentials
late_credentials-throw s b c username p has offline ongoing looks allowed = ground arith
