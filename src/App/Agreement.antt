-- ===== src/App/Agreement.antt =====
-- What the handlers of the session of app/ui.js do to UI.rfb and UI.connected, as the other parts see it.
use docker_baseimage_gui.Prelude.{
  true, false, not, ◌&&◌, none, some, List, [], ◌∷◌, ◌≡◌, refl, ◌∙◌, arith,
}
use docker_baseimage_gui.Ui.Session.{
  Session, Call, Event, await_interaction, start_notification, stop_notification,
  close_file_manager, close_terminal, stop_audio, timer_fired, test_answered, web_data_answered,
  rfb_connected, rfb_disconnected, credentials_required, security_failure, credentials_submitted,
  update_visual_state, connect, reconnect, on_test, connect_finished, disconnect_finished,
  on_web_data, security_failed, credentials, set_credentials, step,
}
use docker_baseimage_gui.Ui.Session.Invariant.{SessionInv, makes_rfb}
use docker_baseimage_gui.Page.{Features, Page, perform, perform_all, on_session}
use docker_baseimage_gui.Page

-- From a session to the next: it is not connected before its RFB object is made, an RFB object that
-- stays stays connected, and connecting is the end of the first run.
pub record Changes (s t : Session) : Type 0 where
  pub made_first : s.rfb ≡ false → t.is_connected ≡ false
  pub lost_last : t.rfb ≡ false → t.is_connected ≡ false
  pub stays : s.rfb ≡ true → t.rfb ≡ true → s.is_connected ≡ true → t.is_connected ≡ true
  pub first : t.first_run ≡ (not (not s.is_connected && t.is_connected) && s.first_run)

pub step-Changes :
    (e : Event) (s : Session) → makes_rfb e ≡ true → SessionInv s → Changes s (step e s)
unfolding step reconnect connect update_visual_state on_test connect_finished disconnect_finished
    on_web_data security_failed credentials set_credentials
step-Changes (timer_fired none) s m v = ground arith
step-Changes (timer_fired (some text)) s m v = absurd (ground arith)
step-Changes (test_answered b) s m v = ground arith
step-Changes (web_data_answered none) s m v = ground arith
step-Changes (web_data_answered (some (auth, changed))) s m v = ground arith
step-Changes rfb_connected s m v = ground arith
step-Changes rfb_disconnected s m v = ground arith
step-Changes (credentials_required b c) s m v = ground arith
step-Changes (security_failure reason) s m v = ground arith
step-Changes (credentials_submitted u p) s m v = ground arith

module _ (k : Features) where
  perform-session : (c : Call) (p : Page) → (perform k c p).session ≡ p.session
  unfolding perform
  perform-session await_interaction p = ground arith
  perform-session start_notification p = ground arith
  perform-session stop_notification p = ground arith
  perform-session close_file_manager p = ground arith
  perform-session close_terminal p = ground arith
  perform-session stop_audio p = ground arith

  pub perform_all-session : (cs : List Call) (p : Page) → (perform_all k cs p).session ≡ p.session
  unfolding perform_all
  perform_all-session [] p = refl
  perform_all-session (c ∷ cs) p = perform-session c (perform_all k cs p) ∙ perform_all-session cs p

  pub session_event-session :
      (e : Event) (p : Page)
      → (Page.step k (Page.session_event e) p).session ≡ step e (record p.session { calls = [] })
  unfolding Page.step on_session
  session_event-session e p = perform_all-session _ _
