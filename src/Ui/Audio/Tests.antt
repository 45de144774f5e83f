-- ===== src/Ui/Audio/Tests.antt =====
-- Concrete runs of audio in app/ui.js.
use docker_baseimage_gui.Prelude.{true, false, none, some, List, [], ◌∷◌, ◌≡◌, refl, arith}
use docker_baseimage_gui.Browser.{opened}
use docker_baseimage_gui.Pcm.Samples.{int16_le, pos}
use docker_baseimage_gui.Pcm.{Settings}
use docker_baseimage_gui.Ui.Audio.{
  Audio, Event, connection_made, slider_moved, toggled, first_interaction, socket_opened,
  socket_closed, loaded, step, run,
}
use docker_baseimage_gui.Ui.Audio.Invariant.{AudioInv, run-loaded-AudioInv}
use docker_baseimage_gui.Ui.Audio.Laws.{first_click-mutes}

-- What start passes to the player, with the defaults.
abbrev options : Settings
options = record {
  encoding = int16_le;
  channels = 2;
  sample_rate = 44100;
  buffer_audio_time = 20;
  max_audio_lag = 250;
  reduce_clicking_noise = false;
}

abbrev session : List Event
session = connection_made ∷ slider_moved 50 ∷ socket_opened 0 ∷ toggled ∷ socket_closed 0 ∷ []

run-loaded-AudioInv_example : AudioInv 0 0 (run session (loaded options false (pos 90)))
run-loaded-AudioInv_example = run-loaded-AudioInv options false (pos 90) session 0 0

abbrev playing : Audio
playing = record (loaded options true (pos 50)) {
  audio_enabled = true;
  connected = true;
  web_socket = some 0;
  browser = record { ready = λ i. opened; sockets = 1; pending = λ j. none; timers = 0 };
}

abbrev arrived : Audio
arrived = record (loaded options true (pos 50)) { connected = true; listening = true; slider = 50 }

first_click-mutes_example :
    let t = step first_interaction arrived in
    let u = step toggled t in
    (t.audio_enabled ≡ true)
    × (u.audio_enabled ≡ false)
    × (u.stored_enabled ≡ false)
    × (u.slider ≡ 0)
unfolding loaded
first_click-mutes_example = first_click-mutes arrived refl refl refl (omega arith)
