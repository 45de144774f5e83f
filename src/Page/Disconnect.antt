-- ===== src/Page/Disconnect.antt =====
-- What is left of audio and the services after a disconnection: disconnectFinished of app/ui.js.
use docker_baseimage_gui.Prelude.{
  ℕ, Bool, true, false, List, [], ◌≡◌, refl, sym, subst, arith, if◌then◌else◌, Reaches-keeps,
}
use docker_baseimage_gui.Browser.{is_live, is_pending}
use docker_baseimage_gui.Pcm.{Settings}
use docker_baseimage_gui.Pcm.Samples.{ℤ}
use docker_baseimage_gui.Ui.Session.{
  Session, Call, stop_notification, close_file_manager, close_terminal, stop_audio,
  rfb_disconnected, disconnect_finished,
}
use docker_baseimage_gui.Ui.Session
use docker_baseimage_gui.Ui.Audio
use docker_baseimage_gui.Ui.Audio.Invariant.{AudioInv, step-AudioInv, loaded-AudioInv}
use docker_baseimage_gui.Notification
use docker_baseimage_gui.Notification.Timers.{
  Named, step-Named, initialize-Named, IsQuiet, stop-IsQuiet,
}
use docker_baseimage_gui.Terminal
use docker_baseimage_gui.Terminal.Invariant.{
  ShellInv, has_terminal, step-ShellInv, unloaded-ShellInv,
}
use docker_baseimage_gui.FileManager.State
use docker_baseimage_gui.FileManager.Step
use docker_baseimage_gui.FileManager.Consistency.{DialogInv, is_connect}
use docker_baseimage_gui.FileManager.Invariant.{step-DialogInv, unloaded-DialogInv}
use docker_baseimage_gui.Page.{
  Features, Page, Event, session_event, perform_all, on_session, loaded, step, run,
}
use docker_baseimage_gui.Page.Parts.{
  Evolves, Evolves-refl, Evolves-trans, run-Evolves, perform_all-Evolves,
}
use docker_baseimage_gui.Page.Calls.{
  all_off, audio_lost, terminal_closed, file_manager_closed, all_off-audio, all_off-notification,
  all_off-terminal, all_off-file_manager, disconnected-calls,
}

-- The invariants of the parts.
pub record IsSound (p : Page) : Type 0 where
  pub audio_inv : (i j : ℕ) → AudioInv i j p.audio
  pub named : (j : ℕ) → Named j p.notification
  pub shell_inv : (i j : ℕ) → ShellInv i j p.terminal
  pub dialog_inv : (i j : ℕ) → DialogInv i j p.file_manager

Evolves-IsSound : (k : Features) (p q : Page) → Evolves k p q → IsSound p → IsSound q
Evolves-IsSound k p q v h = record {
  audio_inv =
      Reaches-keeps Audio.step (λ s. (i j : ℕ) → AudioInv i j s) step-AudioInv v.audio_moves.reached
        h.audio_inv;
  named =
      Reaches-keeps Notification.step (λ s. (j : ℕ) → Named j s) (λ e s n j. step-Named e s j (n j))
        v.notification_moves.reached h.named;
  shell_inv =
      Reaches-keeps Terminal.step (λ s. (i j : ℕ) → ShellInv i j s) step-ShellInv
        v.terminal_moves.reached h.shell_inv;
  dialog_inv =
      Reaches-keeps Step.step (λ s. (i j : ℕ) → DialogInv i j s) step-DialogInv
        v.file_manager_moves.reached h.dialog_inv;
}

-- Audio and the services are off.
pub record IsOff (p : Page) : Type 0 where
  pub audio_off : p.audio.audio_enabled ≡ false
  pub notification_off : IsQuiet p.notification
  pub terminal_off : has_terminal p.terminal ≡ false
  pub file_manager_off : p.file_manager.manager_opened ≡ false

-- A part is off if its last event turns it off, or if it does not exist and was off before.
off_if :
    {S : Type 0} (P : S → Type 0) (b : Bool) (s t u : S)
    → P t
    → (b ≡ false → P u)
    → s ≡ (if b then t else u)
    → P s
off_if P true s t u p q e = subst P (sym e) p
off_if P false s t u p q e = subst P (sym e) (q refl)

initialize-IsQuiet :
    (supported : Bool) (permission : Notification.Permission)
    → IsQuiet (Notification.initialize supported permission Notification.unloaded)
unfolding Notification.initialize
initialize-IsQuiet supported permission = record {
  not_started = ground arith;
  no_socket = ground arith;
  no_timer = λ j. ground arith;
}

stopped-IsQuiet :
    (s : Notification.State)
    → ((j : ℕ) → Named j s)
    → IsQuiet (Notification.step Notification.stop_called s)
unfolding Notification.step
stopped-IsQuiet s h = stop-IsQuiet s h

-- No socket of audio, the terminal or the file manager is live, and no timer is left that would make
-- one; the notification service is stopped, and holds no socket and no timer.
pub record IsOffline (p : Page) : Type 0 where
  pub no_audio : (i : ℕ) → is_live (p.audio.ready i) ≡ false
  pub no_audio_timer : (j : ℕ) → is_pending (p.audio.pending j) ≡ false
  pub no_terminal : (i : ℕ) → is_live (p.terminal.ready i) ≡ false
  pub no_terminal_timer : (j : ℕ) → is_pending (p.terminal.pending j) ≡ false
  pub no_file_manager : (i : ℕ) → is_live (p.file_manager.ready i) ≡ false
  pub no_file_manager_timer : (j : ℕ) → is_connect (p.file_manager.pending j) ≡ false
  pub no_notification : IsQuiet p.notification

shell_not_live :
    (i j : ℕ) (s : Terminal.State)
    → ShellInv i j s
    → has_terminal s ≡ false
    → (is_live (s.ready i) ≡ false) × (is_pending (s.pending j) ≡ false)
shell_not_live i j s v off = ground (arith, v.owned, v.held, v.timed)

dialog_not_live :
    (i j : ℕ) (s : State.State)
    → DialogInv i j s
    → s.manager_opened ≡ false
    → (is_live (s.ready i) ≡ false) × (is_connect (s.pending j) ≡ false)
dialog_not_live i j s v off = ground (arith, v.owned, v.held, v.timed)

off-IsOffline : (p : Page) → IsSound p → IsOff p → IsOffline p
off-IsOffline p h off = record {
  no_audio = λ i. (h.audio_inv i 0).silent off.audio_off;
  no_audio_timer = λ j. (h.audio_inv 0 j).no_timer off.audio_off;
  no_terminal = λ i. (shell_not_live i 0 p.terminal (h.shell_inv i 0) off.terminal_off).0;
  no_terminal_timer = λ j. (shell_not_live 0 j p.terminal (h.shell_inv 0 j) off.terminal_off).1;
  no_file_manager =
      λ i. (dialog_not_live i 0 p.file_manager (h.dialog_inv i 0) off.file_manager_off).0;
  no_file_manager_timer =
      λ j. (dialog_not_live 0 j p.file_manager (h.dialog_inv 0 j) off.file_manager_off).1;
  no_notification = off.notification_off;
}

module _ (k : Features) (session : Session) (options : Settings) (enabled : Bool) (n : ℤ)
    (supported : Bool) (permission : Notification.Permission) where
  unfoldable pub page : Page
  page =
      loaded session (Audio.loaded options enabled n)
        (Notification.initialize supported permission Notification.unloaded)

  page-IsSound : IsSound page
  unfolding page loaded
  page-IsSound = record {
    audio_inv = loaded-AudioInv options enabled n;
    named = initialize-Named supported permission;
    shell_inv = unloaded-ShellInv;
    dialog_inv = unloaded-DialogInv;
  }

  disconnect-IsOff :
      (p : Page)
      → Evolves k page p
      → ((j : ℕ) → Named j p.notification)
      → IsOff (perform_all k all_off p)
  unfolding page loaded
  disconnect-IsOff p v h = record {
    audio_off =
        off_if (λ (s : Audio.Audio). s.audio_enabled ≡ false) k.has_audio _ _ _ (audio_lost p.audio)
          (λ e.
            subst (λ (s : Audio.Audio). s.audio_enabled ≡ false) (sym (v.audio_moves.absent e))
              (unfold Audio.loaded in refl))
          (all_off-audio k p);
    notification_off =
        off_if IsQuiet k.has_notification _ _ _ (stopped-IsQuiet p.notification h)
          (λ e.
            subst IsQuiet (sym (v.notification_moves.absent e))
              (initialize-IsQuiet supported permission))
          (all_off-notification k p);
    terminal_off =
        off_if (λ s. has_terminal s ≡ false) k.has_terminal _ _ _ (terminal_closed p.terminal)
          (λ e. subst (λ s. has_terminal s ≡ false) (sym (v.terminal_moves.absent e)) refl)
          (all_off-terminal k p);
    file_manager_off =
        off_if (λ (s : State.State). s.manager_opened ≡ false) k.has_file_manager _ _ _
          (file_manager_closed p.file_manager)
          (λ e.
            subst (λ (s : State.State). s.manager_opened ≡ false)
              (sym (v.file_manager_moves.absent e)) refl)
          (all_off-file_manager k p);
  }

  -- Whatever happened since the page was loaded, when the RFB object disconnects, no socket of audio,
  -- the terminal and the file manager is live afterwards, and no timer is left that would make one; the
  -- notification service is stopped, and holds no socket and no timer.
  pub disconnect-IsOffline :
      (es : List Event)
      → (run k es page).session.rfb ≡ true
      → IsOffline (step k (session_event rfb_disconnected) (run k es page))
  unfolding step on_session
  disconnect-IsOffline es connected =
      let p = run k es page in
      let s = Session.step rfb_disconnected (record p.session { calls = [] }) in
      let q = record p { session = s } in
      let before = Evolves-trans k page p q (run-Evolves k es page) (Evolves-refl k p s) in
      let sound = Evolves-IsSound k page q before page-IsSound in
      let after = Evolves-IsSound k q _ (perform_all-Evolves k s.calls q) sound in
      off-IsOffline _ after (
        subst (λ cs. IsOff (perform_all k cs q)) (sym (disconnected-calls p.session connected))
          (disconnect-IsOff q before sound.named))
