-- ===== src/Pcm/Tests.antt =====
-- Concrete runs of the PCM player of app/pcm-player.js.
use docker_baseimage_gui.Prelude.{
  ℕ, ◌/◌, true, false, map, some, List, [], ◌∷◌, ◌++◌, ◌≡◌, refl, arith, length,
}
use docker_baseimage_gui.Pcm.Samples.{int8, sample_size, Sample, pos, scaled}
use docker_baseimage_gui.Pcm.{Settings, running, Player, init, start, feed, samples_of}
use docker_baseimage_gui.Pcm.Stream.{collected, IsReady, feed-collected}

abbrev small : Settings
small = record {
  encoding = int8;
  channels = 2;
  sample_rate = 1000;
  buffer_audio_time = 2;
  max_audio_lag = 250;
  reduce_clicking_noise = false;
}

abbrev begun : Player
begun = start (init small)

abbrev chunk : List ℕ
chunk = 1 ∷ 2 ∷ 3 ∷ 4 ∷ 5 ∷ []

begun-started : begun.started ≡ true
unfolding start init
begun-started = refl

begun-IsReady : IsReady small begun
unfolding start init
begun-IsReady = record { room = omega arith; some_channel = omega arith; whole = refl }

feed-collected_example :
    let t = feed small running 7 chunk begun in
    (collected t
      ≡ collected begun ++ map some (samples_of int8 (length chunk / sample_size int8) chunk))
    × IsReady small t
feed-collected_example = feed-collected small 7 chunk begun begun-started refl begun-IsReady

abbrev four : List Sample
four = scaled (pos 1) 128 ∷ scaled (pos 2) 128 ∷ scaled (pos 3) 128 ∷ scaled (pos 4) 128 ∷ []
