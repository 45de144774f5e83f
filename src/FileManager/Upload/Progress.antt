-- ===== src/FileManager/Upload/Progress.antt =====
-- The progress that the stage `advance` of app/fileManager.js returns.
use docker_baseimage_gui.Prelude.{
  ℕ, suc, ◌+◌, ◌*◌, ◌/◌, ◌≤◌, ◌<◌, max, ◌≡◌, ◌↔◌, ◌&&◌, arith, ◌==◌, if◌then◌else◌,
}
use docker_baseimage_gui.FileManager.State.{Upload, State}
use docker_baseimage_gui.FileManager.Upload.{progress_of, advance}

div-lt : (n d : ℕ) → n < 100 * d → n / d < 100
div-lt n d h = grind arith

div-le : (n d : ℕ) → n ≤ 100 * d → n / d ≤ 100
div-le n d h = grind arith

mul-lt : (a b c d : ℕ) → a ≤ c → b < d → 0 < a → a * b * 100 < 100 * (d * c)
mul-lt a b c d h k p = grind arith

mul-lt' : (a b c d : ℕ) → a < c → b ≤ d → 0 < d → a * b * 100 < 100 * (d * c)
mul-lt' a b c d h k p = grind arith

-- What holds of an upload whose current file is under way: the counters of the file are those of a
-- block that was read, or both 0 before the first.
pub record UnderWay (u : Upload) : Type 0 where
  pub current : u.files_processed < u.total_files
  pub within : u.cur ≤ u.tot
  pub begun : 0 < u.tot → 0 < u.cur

pub progress_of-lt : (u : Upload) → UnderWay u → u.cur < u.tot → progress_of u < 100
unfolding progress_of
progress_of-lt u v more = div-lt _ _ (
    mul-lt (u.files_processed + 1) (max u.cur 1) u.total_files (max u.tot 1)
      (omega (arith, v.current)) (omega (arith, v.begun)) (omega arith))

pub progress_of-last :
    (u : Upload) → UnderWay u → suc u.files_processed < u.total_files → progress_of u < 100
unfolding progress_of
progress_of-last u v more = div-lt _ _ (
    mul-lt' (u.files_processed + 1) (max u.cur 1) u.total_files (max u.tot 1) (omega arith)
      (omega (arith, v.within)) (omega arith))

advance-value :
    (u : Upload) (s : State)
    → (advance u s).1
      ≡ (if u.cur == u.tot && u.files_processed + 1 == u.total_files then 100 else progress_of u)
unfolding advance
advance-value u s = ground arith

-- While a file of the upload is under way, the progress that `advance` returns is at most 100, and
-- it is 100 exactly when that file is complete and the last one.
pub advance-progress :
    (u : Upload) (s : State)
    → UnderWay u
    → ((advance u s).1 ≤ 100)
      × (((advance u s).1 ≡ 100) ↔ ((u.cur ≡ u.tot) × (suc u.files_processed ≡ u.total_files)))
advance-progress u s v = ground (arith, advance-value u s, progress_of-lt u v, progress_of-last u v)
