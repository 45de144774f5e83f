-- ===== src/Pcm.antt =====
-- The PCM player (app/pcm-player.js): raw samples are collected in a buffer, and each full buffer is
-- scheduled for playback. Times are counted in units of 1 / (1000 * sampleRate) seconds, in which
-- every time of the code is a whole number; `startTime` 0 means that none is set.
pub mod Samples
pub mod Frames
pub mod Stream
mod Schedule
mod Tests
use docker_baseimage_gui.Prelude.{
  ℕ, zero, suc, ◌+◌, ◌-◌, ◌*◌, ◌/◌, ◌%◌, max, Bool, true, false, not, ◌&&◌, ◌||◌, Option, none,
  some, List, [], ◌∷◌, ◌++◌, ◌==◌, ltb, leb, if◌then◌else◌, length, get_elem?, take, drop,
}
use docker_baseimage_gui.Pcm.Samples.{Encoding, Sample, pos, scaled, sample_size, peek}

pub record Settings : Type 0 where
  pub encoding : Encoding
  pub channels : ℕ
  pub sample_rate : ℕ
  pub buffer_audio_time : ℕ
  pub max_audio_lag : ℕ
  pub reduce_clicking_noise : Bool

-- The state of the audio context.
pub data ContextState : Type 0 where
  running suspended : ContextState

-- A sample that is copied, times `gain` / 2500.
pub record Faded : Type 0 where
  pub sample : Option Sample
  pub gain : ℕ

-- An audio buffer that was given to the audio graph: when it starts, and its channels.
pub record Scheduled : Type 0 where
  pub at : ℕ
  pub audio : List (List Faded)

pub record Player : Type 0 where
  pub started : Bool
  pub start_time : ℕ
  pub samples_buffer : List Sample
  pub samples_count : ℕ
  pub scheduled : List Scheduled
  -- The gain of the gain node, in hundredths.
  pub gain : ℕ

-- Math.max(maxAudioLag, bufferAudioTime * 2) of init.
abbrev pub lag_limit : Settings → ℕ
lag_limit o = max o.max_audio_lag (o.buffer_audio_time * 2)

abbrev pub samples_buffer_length : Settings → ℕ
samples_buffer_length o = (o.buffer_audio_time * o.sample_rate / 1000) * o.channels

abbrev pub zeros : ℕ → List Sample
zeros zero = []
zeros (suc n) = scaled (pos 0) 1 ∷ zeros n

unfoldable pub init : Settings → Player
init o = record {
  started = false;
  start_time = 0;
  samples_buffer = zeros (samples_buffer_length o);
  samples_count = 0;
  scheduled = [];
  gain = 100;
}

-- onstatechange: what is pending is cleared.
unfoldable pub on_state_change : ContextState → Player → Player
on_state_change running p = p
on_state_change suspended p = record p { start_time = 0; samples_count = 0 }

unfoldable pub start : Player → Player
start p = if p.started then p else record p { start_time = 0; samples_count = 0; started = true }

unfoldable pub stop : Player → Player
stop p = record p { started = false }

-- The volume in hundredths: a value above 1 is ignored, as any is while the player is stopped.
unfoldable pub volume : ℕ → Player → Player
volume v p = if not p.started then p else if ltb 100 v then p else record p { gain = v }

-- The factor of the frame `i` of `len`, in 2500ths: 50 times 50 where nothing is faded.
unfoldable pub fade_gain : ℕ → ℕ → ℕ
fade_gain len i =
    let fade_in = if ltb i 50 then i else 50 in
    let fade_out = if leb len (i + 51) then 50 - (i - (len - 51)) else 50 in fade_in * fade_out

unfoldable pub copy_channel : Bool → ℕ → ℕ → ℕ → ℕ → ℕ → List Sample → List Faded
unfolding fade_gain
copy_channel fade channels len zero i offset samples = []
copy_channel fade channels len (suc frames) i offset samples =
    let gain = if fade then fade_gain len i else 2500 in
    record { sample = get_elem? samples offset; gain = gain }
    ∷ copy_channel fade channels len frames (i + 1) (offset + channels) samples

-- The loop over the channels, from `channel` on.
unfoldable pub copy_channels : Bool → ℕ → ℕ → ℕ → ℕ → List Sample → List (List Faded)
copy_channels fade channels len zero channel samples = []
copy_channels fade channels len (suc left) channel samples =
    copy_channel fade channels len len 0 channel samples
    ∷ copy_channels fade channels len left (channel + 1) samples

-- Whether the start time was missed, and whether playback is too far behind.
abbrev pub is_missed : ℕ → Player → Bool
is_missed now p = ltb p.start_time now

abbrev pub is_lagging : Settings → ℕ → Player → Bool
is_lagging o now p = ltb (lag_limit o) ((p.start_time - now) / o.sample_rate)

-- When the next buffer starts: 5 ms from now, where no start time is set.
unfoldable pub next_start : Settings → ℕ → Player → ℕ
next_start o now p =
    let start = if is_missed now p || is_lagging o now p then 0 else p.start_time in
    if start == 0 then now + 5 * o.sample_rate else start

unfoldable pub flush : Settings → ℕ → Player → Player
flush o now p =
    let len = length p.samples_buffer / o.channels in
    let fade = (is_missed now p || is_lagging o now p) || o.reduce_clicking_noise in
    let audio = copy_channels fade o.channels len o.channels 0 p.samples_buffer in
    let at = next_start o now p in
    if length p.samples_buffer == 0 then p else record p {
      scheduled = p.scheduled ++ (record { at = at; audio = audio } ∷ []);
      start_time = at + 1000 * len;
    }

-- An assignment to an element of the buffer; none happens past its end.
abbrev pub set_at : ℕ → Sample → List Sample → List Sample
set_at i x [] = []
set_at zero x (y ∷ ys) = x ∷ ys
set_at (suc i) x (y ∷ ys) = y ∷ set_at i x ys

-- A round of the loop of feed, for one sample.
unfoldable pub push : Settings → ℕ → Sample → Player → Player
push o now x p =
    let q = record p {
      samples_buffer = set_at p.samples_count x p.samples_buffer;
      samples_count = p.samples_count + 1;
    } in
    let flushed = flush o now q in
    if q.samples_count == length q.samples_buffer then record flushed { samples_count = 0 } else q

unfoldable pub push_all : Settings → ℕ → List Sample → Player → Player
push_all o now [] p = p
push_all o now (x ∷ xs) p = push_all o now xs (push o now x p)

-- The samples of a view on this many samples, from the byte `offset` on.
unfoldable pub samples_of : Encoding → ℕ → List ℕ → List Sample
samples_of e zero bytes = []
samples_of e (suc n) bytes = peek e bytes ∷ samples_of e n (drop (sample_size e) bytes)

abbrev pub is_running : ContextState → Bool
is_running running = true
is_running suspended = false

-- feed, on an ArrayBuffer of these bytes, at this time of the audio context.
unfoldable pub feed : Settings → ContextState → ℕ → List ℕ → Player → Player
unfolding push_all
feed o context now bytes p =
    let size = sample_size o.encoding in
    let count = length bytes / size in
    if length bytes == 0
    then p
    else if not p.started || not (is_running context)
    then p
    else if not (length bytes % size == 0)
    then record p { start_time = 0 }
    else push_all o now (samples_of o.encoding count bytes) p
