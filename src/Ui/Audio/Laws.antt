-- ===== src/Ui/Audio/Laws.antt =====
-- How audio comes back, and how it does not: app/ui.js.
use docker_baseimage_gui.Prelude.{ℕ, true, false, some, [], ◌∷◌, ◌≡◌, ◌<◌, arith}
use docker_baseimage_gui.Browser.{opened, connecting}
use docker_baseimage_gui.Ui.Audio.{
  Audio, toggled, first_interaction, socket_closed, timer_fired, connect, enable_audio,
  disable_audio, update_audio, toggle_audio, update_audio_volume, on_close, on_first_interaction,
  step, run,
}

-- While there is a connection, audio that is playing over an open socket and is muted and unmuted
-- before that socket is closed keeps the old socket until its `close` event, and gets a new one when
-- the timer fires.
pub toggled_twice-reconnects :
    (s : Audio) (i : ℕ)
    → s.audio_enabled ≡ true
    → s.connected ≡ true
    → s.web_socket ≡ some i
    → s.ready i ≡ opened
    → let t = run (toggled ∷ toggled ∷ []) s in
      let u = run (socket_closed i ∷ timer_fired s.timers ∷ []) t in
      (t.web_socket ≡ some i)
      × (u.web_socket ≡ some s.sockets)
      × (u.ready s.sockets ≡ connecting)
      × (u.audio_enabled ≡ true)
unfolding run step toggle_audio update_audio enable_audio disable_audio on_close connect
toggled_twice-reconnects s i on online held is_open = ground arith

-- Where audio is off, the slider is above 0, and the page waits for the first interaction, which is a
-- press on the audio button, then the press turns audio on, and the click that ends it turns audio off
-- again, sets the slider to 0 and stores that audio is off.
pub first_click-mutes :
    (s : Audio)
    → s.audio_enabled ≡ false
    → s.listening ≡ true
    → s.first_interaction_handled ≡ false
    → 0 < s.slider
    → let t = step first_interaction s in
      let u = step toggled t in
      (t.audio_enabled ≡ true)
      × (u.audio_enabled ≡ false)
      × (u.stored_enabled ≡ false)
      × (u.slider ≡ 0)
unfolding step on_first_interaction update_audio_volume toggle_audio update_audio enable_audio
    disable_audio connect
first_click-mutes s off listens unhandled shown = ground arith
