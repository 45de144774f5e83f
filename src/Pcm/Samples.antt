-- ===== src/Pcm/Samples.antt =====
-- The encodings of app/pcm-player.js: PCMEncodingDefinitions, with the reads of a DataView.
use docker_baseimage_gui.Prelude.{ℕ, ◌+◌, ◌-◌, ◌*◌, ◌^◌, List, [], ◌∷◌, ltb, if◌then◌else◌, take}
pub use docker_baseimage_gui.Prelude.Integers.{ℤ, pos, negsuc}

pub data Encoding : Type 0 where
  int8 int16_le int16_be int32_le int32_be float32_le float32_be : Encoding

-- An integer over `maxValue`, or a float32 as its bits (its `maxValue` is 1).
pub data Sample : Type 0 where
  scaled : ℤ → ℕ → Sample
  float : ℕ → Sample

abbrev pub bit_depth : Encoding → ℕ
bit_depth int8 = 8
bit_depth int16_le = 16
bit_depth int16_be = 16
bit_depth e = 32

abbrev pub sample_size : Encoding → ℕ
sample_size int8 = 1
sample_size int16_le = 2
sample_size int16_be = 2
sample_size e = 4

abbrev pub max_value : Encoding → ℕ
max_value int8 = 128
max_value int16_le = 32768
max_value int16_be = 32768
max_value int32_le = 2147483648
max_value int32_be = 2147483648
max_value e = 1

-- An unsigned integer of the bytes, the last one the most significant, or the first one.
abbrev pub little_endian : List ℕ → ℕ
little_endian [] = 0
little_endian (b ∷ bs) = b + 256 * little_endian bs

abbrev pub big_endian : ℕ → List ℕ → ℕ
big_endian high [] = high
big_endian high (b ∷ bs) = big_endian (high * 256 + b) bs

-- Two's complement with this many bits.
unfoldable pub signed : ℕ → ℕ → ℤ
signed bits n = if ltb n (2 ^ (bits - 1)) then pos n else negsuc (2 ^ bits - 1 - n)

-- peekFunction at the first byte, divided by `maxValue`.
unfoldable pub peek : Encoding → List ℕ → Sample
unfolding signed
peek int8 bytes = scaled (signed 8 (little_endian (take 1 bytes))) (max_value int8)
peek int16_le bytes = scaled (signed 16 (little_endian (take 2 bytes))) (max_value int16_le)
peek int16_be bytes = scaled (signed 16 (big_endian 0 (take 2 bytes))) (max_value int16_be)
peek int32_le bytes = scaled (signed 32 (little_endian (take 4 bytes))) (max_value int32_le)
peek int32_be bytes = scaled (signed 32 (big_endian 0 (take 4 bytes))) (max_value int32_be)
peek float32_le bytes = float (little_endian (take 4 bytes))
peek float32_be bytes = float (big_endian 0 (take 4 bytes))
