-- ===== src/Pcm/Schedule.antt =====
-- When flush of app/pcm-player.js plays a buffer, and how it copies the samples.
use docker_baseimage_gui.Prelude.{
  ℕ, zero, suc, ◌+◌, ◌-◌, ◌*◌, ◌/◌, ◌≤◌, ◌<◌, max, Bool, false, List, ◌≡◌, arith, get_elem?, some,
  if◌then◌else◌, ap, ◌∙◌,
}
use docker_baseimage_gui.Pcm.Samples.{Sample}
use docker_baseimage_gui.Pcm.{
  Settings, Player, Faded, lag_limit, next_start, fade_gain, copy_channel, copy_channels, is_missed,
  is_lagging,
}

lt_of_div : (n d l : ℕ) → 0 < d → n / d ≤ l → n < (l + 1) * d
lt_of_div n d l h k = grind arith

mul_le : (a b c : ℕ) → a ≤ b → a * c ≤ b * c
mul_le a b c h = grind arith

next_start-bounded :
    (o : Settings) (now : ℕ) (p : Player)
    → 0 < o.sample_rate
    → next_start o now p ≤ now + (max (lag_limit o) 5 + 1) * o.sample_rate
unfolding next_start
next_start-bounded o now p h =
    let five = mul_le 5 (max (lag_limit o) 5 + 1) o.sample_rate (omega arith) in
    let limit = mul_le (lag_limit o + 1) (max (lag_limit o) 5 + 1) o.sample_rate (omega arith) in
    ground (arith, five, limit, lt_of_div (p.start_time - now) o.sample_rate (lag_limit o) h)

-- A buffer is never scheduled in the past, and at most the larger of the lag limit and 5 ms, and
-- 1 ms more, in the future, for a sample rate above 0. It starts where the buffer before it ends,
-- if that time is set, not missed and within the lag limit.
pub next_start-timely :
    (o : Settings) (now : ℕ) (p : Player)
    → 0 < o.sample_rate
    → let at = next_start o now p in
      (now ≤ at)
      × ((at ≤ now + (max (lag_limit o) 5 + 1) * o.sample_rate)
          × (0 < p.start_time
              → is_missed now p ≡ false
              → is_lagging o now p ≡ false
              → at ≡ p.start_time))
unfolding next_start
next_start-timely o now p h =
    (ground arith, (next_start-bounded o now p h, λ set_ begun within. ground arith))

mul_zero_of : (a b : ℕ) → b ≡ 0 → a * b ≡ 0
mul_zero_of a b h = grind arith

mul_le_2500 : (a b : ℕ) → a ≤ 50 → b ≤ 50 → a * b ≤ 2500
mul_le_2500 a b h k = grind arith

-- Where a buffer is faded, its first frame is silent, and, if it has at least 51 frames, its last one
-- too; no frame is made louder.
pub fade_gain-silent :
    (len i : ℕ)
    → (fade_gain len i ≤ 2500) × ((fade_gain len 0 ≡ 0) × (51 ≤ len → fade_gain len (len - 1) ≡ 0))
unfolding fade_gain
fade_gain-silent len i = (
  mul_le_2500 _ _ (ground arith) (ground arith),
  (ground arith, λ h. mul_zero_of _ _ (ground arith)),
)

-- What the frame `i` of a channel gets from the position `n` of the buffer.
abbrev pub frame : Bool → ℕ → ℕ → ℕ → List Sample → Faded
frame fade len i n samples = record {
  sample = get_elem? samples n;
  gain = if fade then fade_gain len i else 2500;
}

frame_at :
    (fade : Bool) (len i i' n n' : ℕ) (samples : List Sample)
    → n ≡ n'
    → i ≡ i'
    → some (frame fade len i n samples) ≡ some (frame fade len i' n' samples)
frame_at fade len i i' n n' samples e f = cc

add_zero : (n : ℕ) → n ≡ n + 0
add_zero n = omega arith

zero_add : (n : ℕ) → 0 + n ≡ n
zero_add n = omega arith

add_suc : (n m : ℕ) → n + 1 + m ≡ n + suc m
add_suc n m = omega arith

copy_channel-get :
    (fade : Bool) (channels len frames i offset j : ℕ) (samples : List Sample)
    → j < frames
    → get_elem? (copy_channel fade channels len frames i offset samples) j
      ≡ some (frame fade len (i + j) (offset + j * channels) samples)
unfolding copy_channel
copy_channel-get fade channels len zero i offset j samples h = absurd (omega arith)
copy_channel-get fade channels len (suc frames) i offset zero samples h =
    frame_at fade len i (i + 0) offset (offset + 0 * channels) samples (omega arith) (omega arith)
copy_channel-get fade channels len (suc frames) i offset (suc j) samples h =
    copy_channel-get fade channels len frames (i + 1) (offset + channels) j samples (omega arith)
    ∙ frame_at fade len (i + 1 + j) (i + suc j) (offset + channels + j * channels)
        (offset + suc j * channels) samples (grind arith) (omega arith)

copy_channels-get :
    (fade : Bool) (channels len left channel c : ℕ) (samples : List Sample)
    → c < left
    → get_elem? (copy_channels fade channels len left channel samples) c
      ≡ some (copy_channel fade channels len len 0 (channel + c) samples)
unfolding copy_channels
copy_channels-get fade channels len zero channel c samples h = absurd (omega arith)
copy_channels-get fade channels len (suc left) channel zero samples h =
    ap (λ k. some (copy_channel fade channels len len 0 k samples)) (add_zero channel)
copy_channels-get fade channels len (suc left) channel (suc c) samples h =
    copy_channels-get fade channels len left (channel + 1) c samples (omega arith)
    ∙ ap (λ k. some (copy_channel fade channels len len 0 k samples)) (add_suc channel c)

-- The frame `i` of the channel `c` of a copied buffer is the sample at `c + i * channels`: the
-- interleaved samples are taken apart.
pub copy_channels-frame :
    (fade : Bool) (channels len c i : ℕ) (samples : List Sample)
    → c < channels
    → i < len
    → (audio : List Faded) × ((get_elem? (copy_channels fade channels len channels 0 samples) c
          ≡ some audio)
        × (get_elem? audio i ≡ some (frame fade len i (c + i * channels) samples)))
copy_channels-frame fade channels len c i samples h k = (
  copy_channel fade channels len len 0 c samples,
  (
    copy_channels-get fade channels len channels 0 c samples h
        ∙ ap (λ k. some (copy_channel fade channels len len 0 k samples)) (zero_add c),
    copy_channel-get fade channels len len 0 c i samples k
        ∙ frame_at fade len (0 + i) i (c + i * channels) (c + i * channels) samples (omega arith)
            (omega arith),
  ),
)
