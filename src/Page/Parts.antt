-- ===== src/Page/Parts.antt =====
-- The parts of the page of app/ui.js move only by their own events, and those that do not exist stay.
use docker_baseimage_gui.Prelude.{
  Bool, true, false, List, [], ◌∷◌, ◌≡◌, refl, ◌∙◌, if◌then◌else◌, Reaches, Reaches-refl,
  Reaches-step, Reaches-trans,
}
use docker_baseimage_gui.Ui.Session.{
  Session, Call, await_interaction, start_notification, stop_notification, close_file_manager,
  close_terminal, stop_audio,
}
use docker_baseimage_gui.Ui.Session
use docker_baseimage_gui.Ui.Audio
use docker_baseimage_gui.Notification
use docker_baseimage_gui.Terminal
use docker_baseimage_gui.FileManager.Step
use docker_baseimage_gui.Page.{
  Features, Page, Event, session_event, file_manager_shown, file_manager_hidden, terminal_hidden,
  terminal_shown, window_resized, audio_event, notification_event, terminal_event,
  file_manager_event, to_audio, to_notification, to_terminal, to_file_manager, perform, perform_all,
  on_session, open_file_manager, open_terminal, resize_terminal, step, run,
}

-- A part that exists goes on by its own events, and one that does not is as it was.
pub record Moves {S E : Type 0} (f : E → S → S) (exists : Bool) (s t : S) : Type 0 where
  pub reached : Reaches f s t
  pub absent : exists ≡ false → t ≡ s

pub record Evolves (k : Features) (p q : Page) : Type 0 where
  pub audio_moves : Moves Audio.step k.has_audio p.audio q.audio
  pub notification_moves : Moves Notification.step k.has_notification p.notification q.notification
  pub terminal_moves : Moves Terminal.step k.has_terminal p.terminal q.terminal
  pub file_manager_moves : Moves Step.step k.has_file_manager p.file_manager q.file_manager

module _ {S E : Type 0} (f : E → S → S) where
  Moves-refl : (b : Bool) (s : S) → Moves f b s s
  Moves-refl b s = record { reached = Reaches-refl f s; absent = λ e. refl }

  Moves-step : (b : Bool) (e : E) (s : S) → b ≡ true → Moves f b s (f e s)
  Moves-step b e s h = record { reached = Reaches-step f e s; absent = λ g. cc }

  Moves-trans : {b : Bool} {s t u : S} → Moves f b s t → Moves f b t u → Moves f b s u
  Moves-trans m n = record {
    reached = Reaches-trans f m.reached n.reached;
    absent = λ h. n.absent h ∙ m.absent h;
  }

module _ (k : Features) where
  pub Evolves-refl : (p : Page) (s : Session) → Evolves k p (record p { session = s })
  Evolves-refl p s = record {
    audio_moves = Moves-refl Audio.step _ p.audio;
    notification_moves = Moves-refl Notification.step _ p.notification;
    terminal_moves = Moves-refl Terminal.step _ p.terminal;
    file_manager_moves = Moves-refl Step.step _ p.file_manager;
  }

  pub Evolves-trans : (p q r : Page) → Evolves k p q → Evolves k q r → Evolves k p r
  Evolves-trans p q r v w = record {
    audio_moves = Moves-trans Audio.step v.audio_moves w.audio_moves;
    notification_moves = Moves-trans Notification.step v.notification_moves w.notification_moves;
    terminal_moves = Moves-trans Terminal.step v.terminal_moves w.terminal_moves;
    file_manager_moves = Moves-trans Step.step v.file_manager_moves w.file_manager_moves;
  }

  -- What is done only where a part exists.
  Evolves-if :
      (b : Bool) (p q : Page) → (b ≡ true → Evolves k p q) → Evolves k p (if b then q else p)
  Evolves-if true p q h = h refl
  Evolves-if false p q h = Evolves-refl p p.session

  audio-Evolves :
      (e : Audio.Event) (p : Page) → Evolves k p (if k.has_audio then to_audio e p else p)
  audio-Evolves e p = Evolves-if k.has_audio p (to_audio e p) (λ h. record {
    audio_moves = Moves-step Audio.step _ e p.audio h;
    notification_moves = Moves-refl Notification.step _ p.notification;
    terminal_moves = Moves-refl Terminal.step _ p.terminal;
    file_manager_moves = Moves-refl Step.step _ p.file_manager;
  })

  notification-Evolves :
      (e : Notification.Event) (p : Page)
      → Evolves k p (if k.has_notification then to_notification e p else p)
  notification-Evolves e p = Evolves-if k.has_notification p (to_notification e p) (λ h. record {
    audio_moves = Moves-refl Audio.step _ p.audio;
    notification_moves = Moves-step Notification.step _ e p.notification h;
    terminal_moves = Moves-refl Terminal.step _ p.terminal;
    file_manager_moves = Moves-refl Step.step _ p.file_manager;
  })

  terminal-Evolves :
      (e : Terminal.Event) (p : Page) → Evolves k p (if k.has_terminal then to_terminal e p else p)
  terminal-Evolves e p = Evolves-if k.has_terminal p (to_terminal e p) (λ h. record {
    audio_moves = Moves-refl Audio.step _ p.audio;
    notification_moves = Moves-refl Notification.step _ p.notification;
    terminal_moves = Moves-step Terminal.step _ e p.terminal h;
    file_manager_moves = Moves-refl Step.step _ p.file_manager;
  })

  file_manager-Evolves :
      (e : Step.Event) (p : Page)
      → Evolves k p (if k.has_file_manager then to_file_manager e p else p)
  file_manager-Evolves e p = Evolves-if k.has_file_manager p (to_file_manager e p) (λ h. record {
    audio_moves = Moves-refl Audio.step _ p.audio;
    notification_moves = Moves-refl Notification.step _ p.notification;
    terminal_moves = Moves-refl Terminal.step _ p.terminal;
    file_manager_moves = Moves-step Step.step _ e p.file_manager h;
  })

  perform-Evolves : (c : Call) (p : Page) → Evolves k p (perform k c p)
  unfolding perform
  perform-Evolves await_interaction p = audio-Evolves _ p
  perform-Evolves start_notification p = notification-Evolves _ p
  perform-Evolves stop_notification p = notification-Evolves _ p
  perform-Evolves close_file_manager p = file_manager-Evolves _ p
  perform-Evolves close_terminal p = terminal-Evolves _ p
  perform-Evolves stop_audio p = audio-Evolves _ p

  pub perform_all-Evolves : (cs : List Call) (p : Page) → Evolves k p (perform_all k cs p)
  unfolding perform_all
  perform_all-Evolves [] p = Evolves-refl p p.session
  perform_all-Evolves (c ∷ cs) p =
      let q = perform_all k cs p in
      Evolves-trans p q _ (perform_all-Evolves cs p) (perform-Evolves c q)

  pub step-Evolves : (e : Event) (p : Page) → Evolves k p (step k e p)
  unfolding step on_session open_file_manager open_terminal resize_terminal
  step-Evolves (session_event e) p =
      let s = Session.step e (record p.session { calls = [] }) in
      let q = record p { session = s } in
      Evolves-trans p q _ (Evolves-refl p s) (perform_all-Evolves s.calls q)
  step-Evolves file_manager_shown p = file_manager-Evolves _ p
  step-Evolves file_manager_hidden p = perform-Evolves close_file_manager p
  step-Evolves terminal_hidden p = perform-Evolves close_terminal p
  step-Evolves (terminal_shown cols rows) p = terminal-Evolves _ p
  step-Evolves (window_resized cols rows) p = terminal-Evolves _ p
  step-Evolves (audio_event e) p = audio-Evolves e p
  step-Evolves (notification_event e) p = notification-Evolves e p
  step-Evolves (terminal_event e) p = terminal-Evolves e p
  step-Evolves (file_manager_event e) p = file_manager-Evolves e p

  -- Whatever happens on the page: audio, the notification service, the terminal and the file manager
  -- each go through a run of their own events, and one that does not exist is as it was.
  pub run-Evolves : (es : List Event) (p : Page) → Evolves k p (run k es p)
  unfolding run
  run-Evolves [] p = Evolves-refl p p.session
  run-Evolves (e ∷ es) p =
      Evolves-trans p (step k e p) _ (step-Evolves e p) (run-Evolves es (step k e p))
