-- ===== src/Pcm/Frames.antt =====
-- What the channels of the audio buffers of app/pcm-player.js hold, in the order of the stream.
use docker_baseimage_gui.Prelude.{
  ℕ, zero, suc, ◌+◌, ◌*◌, ◌<◌, Bool, List, Option, some, [], ◌∷◌, ◌++◌, map, ◌≡◌, refl, sym, ap,
  ◌∙◌, arith, length, get_elem?,
}
use docker_baseimage_gui.Pcm.Samples.{Sample}
use docker_baseimage_gui.Pcm.{Faded, copy_channel, copy_channels}

-- The first sample of each channel, and what comes behind it.
abbrev pub heads : List (List Faded) → List (Option Sample)
heads [] = []
heads ([] ∷ cs) = heads cs
heads ((x ∷ xs) ∷ cs) = x.sample ∷ heads cs

abbrev pub tails : List (List Faded) → List (List Faded)
tails [] = []
tails ([] ∷ cs) = [] ∷ tails cs
tails ((x ∷ xs) ∷ cs) = xs ∷ tails cs

-- The samples of the channels, frame by frame, of which there are as many as in the first channel.
unfoldable pub interleaved : ℕ → List (List Faded) → List (Option Sample)
interleaved zero cs = []
interleaved (suc frames) cs = heads cs ++ interleaved frames (tails cs)

abbrev pub frames_of : List (List Faded) → ℕ
frames_of [] = 0
frames_of (c ∷ cs) = length c

-- A part of a list, by positions.
slice : ℕ → ℕ → List Sample → List (Option Sample)
slice zero offset xs = []
slice (suc n) offset xs = get_elem? xs offset ∷ slice n (offset + 1) xs

slice_at : {m n o p : ℕ} (xs : List Sample) → m ≡ n → o ≡ p → slice m o xs ≡ slice n p xs
slice_at xs e f = cc

slice-add :
    (m n offset : ℕ) (xs : List Sample)
    → slice (m + n) offset xs ≡ slice m offset xs ++ slice n (offset + m) xs
unfolding slice
slice-add zero n offset xs = slice_at xs (omega arith) (omega arith)
slice-add (suc m) n offset xs =
    slice_at {n = suc (m + n)} {p = offset} xs (omega arith) refl
    ∙ ap (get_elem? xs offset ∷◌) (
        slice-add m n (offset + 1) xs
        ∙ ap (slice m (offset + 1) xs ++◌) (slice_at xs refl (omega arith)))

slice-cons :
    (n offset : ℕ) (x : Sample) (xs : List Sample)
    → slice n (suc offset) (x ∷ xs) ≡ slice n offset xs
unfolding slice
slice-cons zero offset x xs = refl
slice-cons (suc n) offset x xs =
    ap (get_elem? xs offset ∷◌)
      (slice_at (x ∷ xs) refl (omega arith) ∙ slice-cons n (offset + 1) x xs)

slice-all : (xs : List Sample) → slice (length xs) 0 xs ≡ map some xs
unfolding slice
slice-all [] = refl
slice-all (x ∷ xs) =
    ap (some x ∷◌)
      (slice_at (x ∷ xs) refl (omega arith) ∙ slice-cons (length xs) 0 x xs ∙ slice-all xs)

module _ (fade : Bool) (channels len : ℕ) (samples : List Sample) where
  -- The channels from a frame and a position on.
  columns : ℕ → ℕ → ℕ → ℕ → List (List Faded)
  columns frames i zero offset = []
  columns frames i (suc left) offset =
      copy_channel fade channels len frames i offset samples ∷ columns frames i left (offset + 1)

  copy_channels-columns :
      (left channel : ℕ)
      → copy_channels fade channels len left channel samples ≡ columns len 0 left channel
  unfolding copy_channels columns
  copy_channels-columns zero channel = refl
  copy_channels-columns (suc left) channel =
      ap (copy_channel fade channels len len 0 channel samples ∷◌)
        (copy_channels-columns left (channel + 1))

  heads-columns :
      (frames i left offset : ℕ)
      → heads (columns (suc frames) i left offset) ≡ slice left offset samples
  unfolding columns copy_channel slice
  heads-columns frames i zero offset = refl
  heads-columns frames i (suc left) offset =
      ap (get_elem? samples offset ∷◌) (heads-columns frames i left (offset + 1))

  columns_at :
      (frames i left : ℕ) {o p : ℕ} → o ≡ p → columns frames i left o ≡ columns frames i left p
  columns_at frames i left e = cc

  tails-columns :
      (frames i left offset : ℕ)
      → tails (columns (suc frames) i left offset) ≡ columns frames (i + 1) left (offset + channels)
  unfolding columns copy_channel
  tails-columns frames i zero offset = refl
  tails-columns frames i (suc left) offset =
      ap (copy_channel fade channels len frames (i + 1) (offset + channels) samples ∷◌)
        (tails-columns frames i left (offset + 1) ∙ columns_at frames (i + 1) left (omega arith))

  interleaved-columns :
      (frames i offset : ℕ)
      → interleaved frames (columns frames i channels offset)
        ≡ slice (frames * channels) offset samples
  unfolding interleaved
  interleaved-columns zero i offset =
      unfold slice in slice_at {m = 0} {p = offset} samples (omega arith) refl
  interleaved-columns (suc frames) i offset =
      ap (heads (columns (suc frames) i channels offset) ++◌) (
        ap (interleaved frames) (tails-columns frames i channels offset)
        ∙ interleaved-columns frames (i + 1) (offset + channels))
      ∙ ap (◌++ slice (frames * channels) (offset + channels) samples)
          (heads-columns frames i channels offset)
      ∙ sym (slice-add channels (frames * channels) offset samples)
      ∙ slice_at samples (omega arith) refl

  length-copy_channel :
      (frames i offset : ℕ)
      → length (copy_channel fade channels len frames i offset samples) ≡ frames
  unfolding copy_channel
  length-copy_channel zero i offset = refl
  length-copy_channel (suc frames) i offset =
      omega (arith, length-copy_channel frames (i + 1) (offset + channels))

  frames_of-copy_channels :
      (left : ℕ) → 0 < left → frames_of (copy_channels fade channels len left 0 samples) ≡ len
  unfolding copy_channels
  frames_of-copy_channels zero h = absurd (omega arith)
  frames_of-copy_channels (suc left) h = length-copy_channel len 0 0

-- The samples of a whole number of frames are in the channels once each, and in their order.
pub interleaved-copy_channels :
    (fade : Bool) (channels frames : ℕ) (samples : List Sample)
    → 0 < channels
    → length samples ≡ frames * channels
    → let audio = copy_channels fade channels frames channels 0 samples in
      interleaved (frames_of audio) audio ≡ map some samples
interleaved-copy_channels fade channels frames samples h whole =
    let audio = copy_channels fade channels frames channels 0 samples in
    ap (λ n. interleaved n audio) (frames_of-copy_channels fade channels frames samples channels h)
    ∙ ap (interleaved frames) (copy_channels-columns fade channels frames samples channels 0)
    ∙ interleaved-columns fade channels frames samples frames 0 0
    ∙ slice_at samples (sym whole) refl
    ∙ slice-all samples
