-- ===== src/Pcm/Stream.antt =====
-- What feed of app/pcm-player.js does to the stream of samples.
use docker_baseimage_gui.Prelude.{
  ℕ, zero, suc, ◌+◌, ◌/◌, ◌%◌, ◌<◌, true, false, Option, some, map, ◌*◌, List, [], ◌∷◌, ◌++◌, ◌==◌,
  ◌≡◌, refl, sym, ap, ◌∙◌, arith, length, take, append_assoc, append-nil, take_all, Bool-cases, inl,
  inr,
}
use native.Mathlib.Nat.{zero-div}
use docker_baseimage_gui.Pcm.Samples.{Sample, sample_size}
use docker_baseimage_gui.Pcm.Frames.{interleaved, frames_of, interleaved-copy_channels}
use docker_baseimage_gui.Pcm.{
  Settings, ContextState, running, Scheduled, Player, flush, set_at, push, push_all, samples_of,
  feed,
}

-- The samples in the audio buffers that were scheduled: those of the channels, frame by frame.
unfoldable pub played : List Scheduled → List (Option Sample)
unfolding interleaved
played [] = []
played (b ∷ bs) = interleaved (frames_of b.audio) b.audio ++ played bs

-- All samples that were taken: those in the scheduled audio buffers, then those that are pending.
unfoldable pub collected : Player → List (Option Sample)
collected p = played p.scheduled ++ map some (take p.samples_count p.samples_buffer)

played-append : (bs cs : List Scheduled) → played (bs ++ cs) ≡ played bs ++ played cs
unfolding played
played-append [] cs = refl
played-append (b ∷ bs) cs =
    ap (interleaved (frames_of b.audio) b.audio ++◌) (played-append bs cs)
    ∙ sym (append_assoc (interleaved (frames_of b.audio) b.audio) (played bs) (played cs))

map-append : (xs ys : List Sample) → map some (xs ++ ys) ≡ map some xs ++ map some ys
map-append [] ys = refl
map-append (x ∷ xs) ys = ap (some x ∷◌) (map-append xs ys)

length-set_at : (i : ℕ) (x : Sample) (ys : List Sample) → length (set_at i x ys) ≡ length ys
length-set_at i x [] = refl
length-set_at zero x (y ∷ ys) = refl
length-set_at (suc i) x (y ∷ ys) = omega (arith, length-set_at i x ys)

take-set_at :
    (i : ℕ) (x : Sample) (ys : List Sample)
    → i < length ys
    → take (suc i) (set_at i x ys) ≡ take i ys ++ (x ∷ [])
take-set_at i x [] h = absurd (omega arith)
take-set_at zero x (y ∷ ys) h = refl
take-set_at (suc i) x (y ∷ ys) h = ap (y ∷◌) (take-set_at i x ys (omega arith))

-- The buffer has room for the next sample, and is of a whole number of frames.
pub record IsReady (o : Settings) (p : Player) : Type 0 where
  pub room : p.samples_count < length p.samples_buffer
  pub some_channel : 0 < o.channels
  pub whole : length p.samples_buffer % o.channels ≡ 0

whole_frames : (n c : ℕ) → 0 < c → n % c ≡ 0 → n ≡ n / c * c
whole_frames n c h w = grind arith

flush-played :
    (o : Settings) (now : ℕ) (p : Player)
    → 0 < length p.samples_buffer
    → 0 < o.channels
    → length p.samples_buffer % o.channels ≡ 0
    → played (flush o now p).scheduled ≡ played p.scheduled ++ map some p.samples_buffer
unfolding flush played
flush-played o now p h c w = elim (Bool-cases (length p.samples_buffer == 0)) [
  | inl e ↦ absurd (ground arith)
  | inr e ↦ rw e (
      played-append p.scheduled _
      ∙ ap (played p.scheduled ++◌) (
          append-nil _
          ∙ interleaved-copy_channels _ o.channels (length p.samples_buffer / o.channels)
              p.samples_buffer c (whole_frames (length p.samples_buffer) o.channels c w)))
]

suc_add : (n : ℕ) → n + 1 ≡ suc n
suc_add n = omega arith

flush-samples_buffer :
    (o : Settings) (now : ℕ) (p : Player) → (flush o now p).samples_buffer ≡ p.samples_buffer
unfolding flush
flush-samples_buffer o now p = ground arith

pushed-IsReady :
    (o : Settings) (p q : Player)
    → IsReady o p
    → length q.samples_buffer ≡ length p.samples_buffer
    → q.samples_count < length q.samples_buffer
    → IsReady o q
pushed-IsReady o p q h e room = record {
  room = room;
  some_channel = h.some_channel;
  whole = rw e h.whole;
}

push-collected :
    (o : Settings) (now : ℕ) (x : Sample) (p : Player)
    → IsReady o p
    → (collected (push o now x p) ≡ collected p ++ (some x ∷ [])) × IsReady o (push o now x p)
unfolding push collected
push-collected o now x p h =
    let buffer = set_at p.samples_count x p.samples_buffer in
    let q = record p { samples_buffer = buffer; samples_count = p.samples_count + 1 } in
    let same = length-set_at p.samples_count x p.samples_buffer in
    let before = take p.samples_count p.samples_buffer in
    let added : map some (take (p.samples_count + 1) buffer) ≡ map some before ++ (some x ∷ []) =
      ap (λ k. map some (take k buffer)) (suc_add p.samples_count)
      ∙ ap (map some) (take-set_at p.samples_count x p.samples_buffer h.room)
      ∙ map-append before (x ∷ []) in
    let joined = sym (append_assoc (played p.scheduled) (map some before) (some x ∷ [])) in
    elim (Bool-cases (p.samples_count + 1 == length buffer)) [
      | inr e ↦
          let room : p.samples_count + 1 < length buffer = ground (arith, same, h.room) in
          rw e (ap (played p.scheduled ++◌) added ∙ joined, pushed-IsReady o p q h same room)
      | inl e ↦
          let full = ap (map some) (take_all (p.samples_count + 1) buffer (ground arith)) in
          let kept = ap length (flush-samples_buffer o now q) in
          let begun = record (flush o now q) { samples_count = 0 } in
          rw e (
            append-nil (played (flush o now q).scheduled)
                ∙ flush-played o now q (ground arith) h.some_channel (rw same h.whole)
                ∙ ap (played p.scheduled ++◌) (sym full ∙ added)
                ∙ joined,
            pushed-IsReady o p begun h (kept ∙ same) (omega (arith, kept, same, h.room)),
          )
    ]

push_all-collected :
    (o : Settings) (now : ℕ) (xs : List Sample) (p : Player)
    → IsReady o p
    → (collected (push_all o now xs p) ≡ collected p ++ map some xs)
      × IsReady o (push_all o now xs p)
unfolding push_all
push_all-collected o now [] p h = (sym (append-nil (collected p)), h)
push_all-collected o now (x ∷ xs) p h =
    let (one, ready) = push-collected o now x p h in
    let (rest, ready') = push_all-collected o now xs (push o now x p) ready in
    (
      rest ∙ ap (◌++ map some xs) one ∙ append_assoc (collected p) (some x ∷ []) (map some xs),
      ready',
    )

not_empty {ℓ} : {A : Type ℓ} (x : A) (xs : List A) → (length (x ∷ xs) == 0) ≡ false
not_empty x xs = ground arith

-- Every sample of a chunk of audio that is aligned and arrives while the player is started and the
-- audio context runs is taken, once and in order: what was scheduled and what is pending is what it
-- was before with the samples of the chunk after it. What was scheduled is read off the channels of the
-- audio buffers, frame by frame, before fading. The buffer, of a whole number of frames and with room for
-- a sample, is such a buffer again.
pub feed-collected :
    (o : Settings) (now : ℕ) (bytes : List ℕ) (p : Player)
    → p.started ≡ true
    → length bytes % sample_size o.encoding ≡ 0
    → IsReady o p
    → let t = feed o running now bytes p in
      let count = length bytes / sample_size o.encoding in
      (collected t ≡ collected p ++ map some (samples_of o.encoding count bytes)) × IsReady o t
unfolding feed samples_of
feed-collected o now [] p begun aligned h =
    let none_taken =
      ap (λ n. map some (samples_of o.encoding n [])) (zero-div (sample_size o.encoding)) in
    (sym (ap (collected p ++◌) none_taken ∙ append-nil (collected p)), h)
feed-collected o now (b ∷ bytes) p begun aligned h =
    simp (begun, aligned, not_empty b bytes)
      (push_all-collected o now
        (samples_of o.encoding (length (b ∷ bytes) / sample_size o.encoding) (b ∷ bytes)) p h)

push-started :
    (o : Settings) (now : ℕ) (x : Sample) (p : Player) → (push o now x p).started ≡ p.started
unfolding push flush
push-started o now x p = ground arith

push_all-started :
    (o : Settings) (now : ℕ) (xs : List Sample) (p : Player)
    → (push_all o now xs p).started ≡ p.started
unfolding push_all
push_all-started o now [] p = refl
push_all-started o now (x ∷ xs) p =
    push_all-started o now xs (push o now x p) ∙ push-started o now x p

pub feed-started :
    (o : Settings) (context : ContextState) (now : ℕ) (bytes : List ℕ) (p : Player)
    → (feed o context now bytes p).started ≡ p.started
unfolding feed
feed-started o context now bytes p = ground (
  arith,
  push_all-started o now (samples_of o.encoding (length bytes / sample_size o.encoding) bytes) p,
)
