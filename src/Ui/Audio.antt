-- ===== src/Ui/Audio.antt =====
-- Audio: toggleAudio, updateAudioVolume and updateAudio of app/ui.js, with the WebSocket that feeds
-- the PCM player and the timer that opens it again.
pub mod Invariant
pub mod Laws
mod Tests
use docker_baseimage_gui.Prelude.{
  ℕ, suc, Bool, true, false, not, ◌&&◌, Option, none, some, List, [], ◌∷◌, ◌==◌, max, min, ltb,
  if◌then◌else◌,
}
use docker_baseimage_gui.Browser.{
  Ready, opened, closed, Callback, connect_web_socket, Browser, fresh, new_socket, close_socket,
  set_timeout, clear_timeout, may_open, may_receive, may_close, set_ready, is_pending,
}
use docker_baseimage_gui.Pcm.Samples.{ℤ, pos, negsuc}
use docker_baseimage_gui.Pcm.{Settings, ContextState, Player, init, start, stop, volume, feed}

-- UI.audioContext, which exists, UI.connected, the volume slider, and what is stored as settings.
pub record Audio : Type 0 where
  pub browser : Browser
  pub open browser use *
  pub options : Settings
  pub player : Player
  pub audio_enabled : Bool
  pub first_interaction_handled : Bool
  -- connectFinished has registered the listeners for the first interaction.
  pub listening : Bool
  pub web_socket : Option ℕ
  pub reconnect_timer : Option ℕ
  pub connected : Bool
  pub slider : ℕ
  pub unmuted_icon : Bool
  pub stored_enabled : Bool
  pub stored_volume : ℤ

-- A volume that is read, between 0 and 100.
abbrev pub clamp_volume : ℤ → ℕ
clamp_volume (negsuc n) = 0
clamp_volume (pos n) = if ltb 100 n then 100 else n

-- The page is loaded: audio is off, and the slider shows what was stored.
unfoldable pub loaded : Settings → Bool → ℤ → Audio
loaded options enabled n =
    let v = clamp_volume n in
    record {
      browser = fresh;
      options = options;
      player = init options;
      audio_enabled = false;
      first_interaction_handled = false;
      listening = false;
      web_socket = none;
      reconnect_timer = none;
      connected = false;
      slider = if enabled then (if ltb 0 v then max 15 v else v) else 0;
      unmuted_icon = false;
      stored_enabled = enabled;
      stored_volume = n;
    }

abbrev pub clear_reconnect_timer : Audio → Audio
clear_reconnect_timer s = elim s.reconnect_timer [
  | none ↦ s
  | some j ↦ record s { browser = clear_timeout j s.browser; reconnect_timer = none }
]

-- The inner function connectWebSocket.
unfoldable pub connect : Audio → Audio
connect s =
    let t = clear_reconnect_timer s in
    if t.audio_enabled
    then record t { browser = new_socket t.browser; web_socket = some t.sockets }
    else t

abbrev pub close_web_socket : Audio → Audio
close_web_socket s = elim s.web_socket [
  | none ↦ s
  | some i ↦ record s { browser = close_socket i s.browser }
]

abbrev pub connect_if_none : Audio → Audio
connect_if_none s = elim s.web_socket [ none ↦ connect s | some i ↦ s ]

-- updateAudio, where audio should be enabled.
unfoldable pub enable_audio : Audio → Audio
unfolding connect
enable_audio s =
    let v = if s.slider == 0 then 1 else if ltb 100 s.slider then 100 else s.slider in
    let t = connect_if_none (record s { player = volume v (start s.player) }) in
    record t { unmuted_icon = true }

-- updateAudio, where audio should be disabled.
unfoldable pub disable_audio : Audio → Audio
disable_audio s =
    let t = close_web_socket (clear_reconnect_timer s) in
    record t { player = stop t.player; unmuted_icon = false }

unfoldable pub update_audio : Audio → Audio
update_audio s = if s.audio_enabled && s.connected then enable_audio s else disable_audio s

unfoldable pub toggle_audio : Audio → Audio
toggle_audio s =
    let enabled = not s.audio_enabled in
    let slider = if enabled then max 15 (clamp_volume s.stored_volume) else 0 in
    update_audio (record s { audio_enabled = enabled; stored_enabled = enabled; slider = slider })

unfoldable pub update_audio_volume : Audio → Audio
update_audio_volume s =
    let enabled = not (s.slider == 0) in
    update_audio (record s { audio_enabled = enabled; stored_enabled = enabled })

-- The handler of `close`.
unfoldable pub on_close : Audio → Audio
on_close s =
    let t = record s { web_socket = none } in
    let u = clear_reconnect_timer t in
    if s.audio_enabled
    then record u {
      browser = set_timeout connect_web_socket u.browser;
      reconnect_timer = some u.timers;
    }
    else t

-- What connectFinished and disconnectFinished do to audio.
unfoldable pub on_connected : Audio → Audio
on_connected s =
    if s.first_interaction_handled
    then record s { connected = true }
    else record s { connected = true; listening = true }

-- The listeners that connectFinished registers.
unfoldable pub on_first_interaction : Audio → Audio
on_first_interaction s =
    if s.listening && not s.first_interaction_handled
    then update_audio_volume (record s { first_interaction_handled = true })
    else s

unfoldable pub on_disconnected : Audio → Audio
on_disconnected s = update_audio (record s { connected = false; audio_enabled = false })

pub data Event : Type 0 where
  connection_made connection_lost first_interaction toggled : Event
  -- The slider is moved to this value, which is stored.
  slider_moved : ℕ → Event
  socket_opened socket_closed : ℕ → Event
  message_received : ℕ → ContextState → ℕ → List ℕ → Event
  timer_fired : ℕ → Event

unfoldable pub step : Event → Audio → Audio
step connection_made s = on_connected s
step connection_lost s = on_disconnected s
step toggled s = toggle_audio s
step first_interaction s = on_first_interaction s
step (slider_moved n) s = update_audio_volume (record s { slider = n; stored_volume = pos n })
step (socket_opened i) s =
    if may_open (s.ready i) then record s { browser = set_ready i opened s.browser } else s
step (socket_closed i) s =
    if may_close (s.ready i)
    then on_close (record s { browser = set_ready i closed s.browser })
    else s
step (message_received i context now bytes) s =
    if may_receive (s.ready i)
    then record s { player = feed s.options context now bytes s.player }
    else s
step (timer_fired j) s =
    if is_pending (s.pending j)
    then connect (record s { browser = clear_timeout j s.browser })
    else s

unfoldable pub run : List Event → Audio → Audio
run [] s = s
run (e ∷ es) s = run es (step e s)
