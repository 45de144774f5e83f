-- ===== src/Prelude/Integers.antt =====
-- Integers over the native numbers, with the operations that the scripts use of them.
use Prim.Native.Nat.{ℕ, suc, ◌+◌, ◌-◌}
use mathlib.Core.Bool.{Bool, true, false}
use docker_baseimage_gui.Prelude.Tests.{ltb, if◌then◌else◌}

-- `negsuc n` is - (n + 1).
pub data ℤ : Type 0 where
  pos : ℕ → ℤ
  negsuc : ℕ → ℤ

-- The difference of two natural numbers.
abbrev pub difference : ℕ → ℕ → ℤ
difference a b = if ltb a b then negsuc (b - a - 1) else pos (a - b)

infix 60 ◌-ℤ◌
abbrev pub ◌-ℤ◌ : ℤ → ℤ → ℤ
pos a -ℤ pos b = difference a b
pos a -ℤ negsuc b = pos (a + suc b)
negsuc a -ℤ pos b = negsuc (a + b)
negsuc a -ℤ negsuc b = difference b a

-- Whether an integer is below a natural number, or above it.
abbrev pub is_below : ℤ → ℕ → Bool
is_below (pos a) b = ltb a b
is_below (negsuc a) b = true

abbrev pub is_above : ℤ → ℕ → Bool
is_above (pos a) b = ltb b a
is_above (negsuc a) b = false

-- Math.abs
abbrev pub abs : ℤ → ℕ
abs (pos a) = a
abs (negsuc a) = suc a
