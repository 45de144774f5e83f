-- ===== src/Ui/Audio/Invariant.antt =====
-- What holds of audio, whatever happens: app/ui.js.
use docker_baseimage_gui.Prelude.{
  ℕ, Bool, true, false, none, some, List, [], ◌∷◌, ◌≡◌, arith, if◌then◌else◌, Bool-cases, not, ◌==◌,
  ◌&&◌, inl, inr,
}
use docker_baseimage_gui.Browser.{is_live, may_close, is_pending, closed, set_ready, clear_timeout}
use docker_baseimage_gui.Pcm.Samples.{ℤ, pos}
use docker_baseimage_gui.Pcm.{Settings, init, stop}
use docker_baseimage_gui.Pcm.Stream.{feed-started}
use docker_baseimage_gui.Ui.Audio.{
  Audio, Event, connection_made, connection_lost, first_interaction, toggled, slider_moved,
  socket_opened, socket_closed, message_received, timer_fired, connect, enable_audio, disable_audio,
  update_audio, toggle_audio, update_audio_volume, on_close, on_connected, on_first_interaction,
  on_disconnected, loaded, step, run,
}

-- For every socket `i` and timer `j`.
pub record AudioInv (i j : ℕ) (s : Audio) : Type 0 where
  -- A socket that is not closed yet is the one that is held: there is at most one.
  pub held : may_close (s.ready i) ≡ true → s.web_socket ≡ some i
  -- A pending timer is the one that is remembered, and there is no socket meanwhile.
  pub named : is_pending (s.pending j) ≡ true → s.reconnect_timer ≡ some j
  pub vacant : is_pending (s.pending j) ≡ true → s.web_socket ≡ none
  -- While audio is off no socket is live, no timer is pending, and the player is stopped.
  pub silent : s.audio_enabled ≡ false → is_live (s.ready i) ≡ false
  pub no_timer : s.audio_enabled ≡ false → is_pending (s.pending j) ≡ false
  pub stopped : s.audio_enabled ≡ false → s.player.started ≡ false

update_audio-AudioInv :
    (i j : ℕ) (s : Audio) (enabled c : Bool) (n : ℕ) (b : Bool)
    → AudioInv i j s
    → AudioInv i j (
        update_audio
          (record s { audio_enabled = enabled; connected = c; slider = n; stored_enabled = b }))
unfolding update_audio enable_audio disable_audio connect stop
update_audio-AudioInv i j s enabled c n b v = ground (arith, v.held)

on_close-AudioInv :
    (i j k : ℕ) (s : Audio)
    → AudioInv i j s
    → AudioInv k j s
    → may_close (s.ready k) ≡ true
    → AudioInv i j (on_close (record s { browser = set_ready k closed s.browser }))
unfolding on_close
on_close-AudioInv i j k s v w h = ground (arith, v.held, w.held)

fired-AudioInv :
    (i j k : ℕ) (s : Audio)
    → AudioInv i j s
    → AudioInv i k s
    → is_pending (s.pending k) ≡ true
    → AudioInv i j (connect (record s { browser = clear_timeout k s.browser }))
unfolding connect
fired-AudioInv i j k s v w h = ground arith

if-AudioInv :
    (i j : ℕ) (b : Bool) (s t : Audio)
    → AudioInv i j s
    → AudioInv i j t
    → AudioInv i j (if b then s else t)
if-AudioInv i j true s t v w = v
if-AudioInv i j false s t v w = w

pub step-AudioInv :
    (e : Event) (s : Audio) → ((i j : ℕ) → AudioInv i j s) → (i j : ℕ) → AudioInv i j (step e s)
unfolding step on_connected on_first_interaction on_disconnected toggle_audio update_audio_volume
step-AudioInv connection_made s v i j = let h = v i j in ground arith
step-AudioInv connection_lost s v i j =
    update_audio-AudioInv i j s false false s.slider s.stored_enabled (v i j)
step-AudioInv toggled s v i j =
    update_audio-AudioInv i j s (not s.audio_enabled) s.connected _ (not s.audio_enabled) (v i j)
step-AudioInv first_interaction s v i j =
    if-AudioInv i j (s.listening && not s.first_interaction_handled) _ s
      (update_audio-AudioInv i j (record s { first_interaction_handled = true })
        (not (s.slider == 0)) s.connected s.slider (not (s.slider == 0))
        (let h = v i j in ground arith))
      (v i j)
step-AudioInv (slider_moved n) s v i j =
    update_audio-AudioInv i j (record s { stored_volume = pos n }) (not (n == 0)) s.connected n
      (not (n == 0)) (let h = v i j in ground arith)
step-AudioInv (socket_opened k) s v i j = let h = v i j in ground arith
step-AudioInv (socket_closed k) s v i j = elim (Bool-cases (may_close (s.ready k))) [
  | inl e ↦ rw e (on_close-AudioInv i j k s (v i j) (v k j) e)
  | inr e ↦ rw e (v i j)
]
step-AudioInv (message_received k context now bytes) s v i j =
    let h = v i j in ground (arith, feed-started s.options context now bytes s.player)
step-AudioInv (timer_fired k) s v i j = elim (Bool-cases (is_pending (s.pending k))) [
  | inl e ↦ rw e (fired-AudioInv i j k s (v i j) (v i k) e)
  | inr e ↦ rw e (v i j)
]

pub run-AudioInv :
    (es : List Event) (s : Audio)
    → ((i j : ℕ) → AudioInv i j s)
    → (i j : ℕ) → AudioInv i j (run es s)
unfolding run
run-AudioInv [] s v = v
run-AudioInv (e ∷ es) s v = run-AudioInv es (step e s) (step-AudioInv e s v)

pub loaded-AudioInv :
    (options : Settings) (enabled : Bool) (n : ℤ) (i j : ℕ)
    → AudioInv i j (loaded options enabled n)
unfolding loaded init
loaded-AudioInv options enabled n i j = ground arith

-- Whatever the user, the server and the network do after the page is loaded: an audio socket that is
-- not closed yet is the one that is held, so there is at most one; a pending timer is the one that is
-- remembered, and there is no socket meanwhile; and while audio is off no socket is live, no timer is
-- pending and the player is stopped.
pub run-loaded-AudioInv :
    (options : Settings) (enabled : Bool) (n : ℤ) (es : List Event) (i j : ℕ)
    → AudioInv i j (run es (loaded options enabled n))
run-loaded-AudioInv options enabled n es =
    run-AudioInv es (loaded options enabled n) (loaded-AudioInv options enabled n)
