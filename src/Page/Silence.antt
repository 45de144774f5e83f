-- ===== src/Page/Silence.antt =====
-- Audio after a reconnection: what disconnectFinished and connectFinished of app/ui.js leave of it.
use docker_baseimage_gui.Prelude.{
  Bool, true, false, ℕ, List, [], ◌∷◌, map, ◌≡◌, sym, subst, arith, ◌∙◌, if◌then◌else◌,
}
use docker_baseimage_gui.Ui.Session.{
  Session, Call, await_interaction, start_notification, stop_notification, close_file_manager,
  close_terminal, stop_audio, rfb_disconnected, disconnect_finished,
}
use docker_baseimage_gui.Ui.Session
use docker_baseimage_gui.Ui.Audio.{Audio}
use docker_baseimage_gui.Ui.Audio
use docker_baseimage_gui.Page.{
  Features, Page, session_event, perform, perform_all, on_session, step, run,
}
use docker_baseimage_gui.Page.Calls.{all_off, all_off-audio, disconnected-calls}

-- Audio is off, the slider and the stored setting as they were.
pub record IsSilent (slider : ℕ) (stored : Bool) (a : Audio) : Type 0 where
  pub off : a.audio_enabled ≡ false
  pub same_slider : a.slider ≡ slider
  pub same_stored : a.stored_enabled ≡ stored

made-IsSilent :
    (n : ℕ) (b : Bool) (a : Audio)
    → IsSilent n b a
    → IsSilent n b (Audio.step Audio.connection_made a)
unfolding Audio.step Audio.on_connected
made-IsSilent n b a v = ground arith

lost-IsSilent :
    (a : Audio) → IsSilent a.slider a.stored_enabled (Audio.step Audio.connection_lost a)
unfolding Audio.step Audio.on_disconnected Audio.update_audio Audio.disable_audio
lost-IsSilent a = ground arith

again-IsSilent :
    (n : ℕ) (b : Bool) (a : Audio)
    → IsSilent n b a
    → IsSilent n b (Audio.step Audio.connection_lost a)
unfolding Audio.step Audio.on_disconnected Audio.update_audio Audio.disable_audio
again-IsSilent n b a v = ground arith

kept_if-IsSilent :
    (n : ℕ) (b exists : Bool) (p q : Page)
    → IsSilent n b p.audio
    → IsSilent n b q.audio
    → IsSilent n b (if exists then q else p).audio
kept_if-IsSilent n b true p q v w = w
kept_if-IsSilent n b false p q v w = v

if_true : {A : Type 0} (b : Bool) (x y : A) → b ≡ true → (if b then x else y) ≡ x
if_true b x y h = ground arith

-- The calls of disconnectFinished silence an audio that exists.
off-IsSilent :
    (k : Features) (p : Page)
    → k.has_audio ≡ true
    → IsSilent p.audio.slider p.audio.stored_enabled (perform_all k all_off p).audio
off-IsSilent k p h =
    subst (IsSilent p.audio.slider p.audio.stored_enabled)
      (sym (all_off-audio k p ∙ if_true k.has_audio _ p.audio h)) (lost-IsSilent p.audio)

module _ (k : Features) (n : ℕ) (b : Bool) where
  perform-IsSilent :
      (c : Call) (p : Page) → IsSilent n b p.audio → IsSilent n b (perform k c p).audio
  unfolding perform
  perform-IsSilent await_interaction p v =
      kept_if-IsSilent n b k.has_audio p _ v (made-IsSilent n b p.audio v)
  perform-IsSilent start_notification p v = kept_if-IsSilent n b k.has_notification p _ v v
  perform-IsSilent stop_notification p v = kept_if-IsSilent n b k.has_notification p _ v v
  perform-IsSilent close_file_manager p v = kept_if-IsSilent n b k.has_file_manager p _ v v
  perform-IsSilent close_terminal p v = kept_if-IsSilent n b k.has_terminal p _ v v
  perform-IsSilent stop_audio p v =
      kept_if-IsSilent n b k.has_audio p _ v (again-IsSilent n b p.audio v)

  perform_all-IsSilent :
      (cs : List Call) (p : Page) → IsSilent n b p.audio → IsSilent n b (perform_all k cs p).audio
  unfolding perform_all
  perform_all-IsSilent [] p v = v
  perform_all-IsSilent (c ∷ cs) p v =
      perform-IsSilent c (perform_all k cs p) (perform_all-IsSilent cs p v)

  run-IsSilent :
      (es : List Session.Event) (p : Page)
      → IsSilent n b p.audio
      → IsSilent n b (run k (map session_event es) p).audio
  unfolding run step on_session
  run-IsSilent [] p v = v
  run-IsSilent (e ∷ es) p v = run-IsSilent es _ (
      perform_all-IsSilent _
        (record p { session = Session.step e (record p.session { calls = [] }) }) v)

-- If audio exists, and so does the RFB object of the session, which then disconnects, audio is off after
-- that and after any further events of the session, such as those of a reconnection, while its slider and
-- the stored setting are as they were before.
pub reconnect-IsSilent :
    (k : Features) (es : List Session.Event) (p : Page)
    → k.has_audio ≡ true
    → p.session.rfb ≡ true
    → IsSilent p.audio.slider p.audio.stored_enabled
        (run k (map session_event es) (step k (session_event rfb_disconnected) p)).audio
unfolding step on_session
reconnect-IsSilent k es p audio connected =
    let s = Session.step rfb_disconnected (record p.session { calls = [] }) in
    let q = record p { session = s } in
    run-IsSilent k p.audio.slider p.audio.stored_enabled es _ (
      subst (λ cs. IsSilent p.audio.slider p.audio.stored_enabled (perform_all k cs q).audio)
        (sym (disconnected-calls p.session connected)) (off-IsSilent k q audio))
