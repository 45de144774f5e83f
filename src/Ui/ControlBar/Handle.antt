-- ===== src/Ui/ControlBar/Handle.antt =====
-- Where the handle of the control bar goes: moveControlbarHandle of app/ui.js.
use docker_baseimage_gui.Prelude.{
  ℕ, ◌+◌, ◌-◌, ◌*◌, ◌≤◌, ◌<◌, min, max, ltb, if◌then◌else◌, ◌≡◌, arith,
}
use docker_baseimage_gui.Prelude.Integers.{ℤ, pos, negsuc, difference}
use docker_baseimage_gui.Ui.ControlBar.{ControlBar, Layout, margin, move_controlbar_handle}

-- A position, or the top of the window for one above it.
abbrev pub from_top : ℤ → ℕ
from_top (pos n) = n
from_top (negsuc n) = 0

-- If the bar and the handle have a height, the handle is moved to the position asked for, forced into
-- the range that leaves the margin at both ends of the bar; a bar too small for the margins gets the
-- handle in its middle.
pub move_controlbar_handle-clamps :
    (l : Layout) (y : ℤ) (s : ControlBar)
    → 0 < l.handle_height
    → 0 < l.bar_height
    → (move_controlbar_handle l y s).handle_offset ≡ (
        if ltb l.bar_height (l.handle_height + 2 * margin)
        then difference l.bar_height l.handle_height
        else pos (
            2
            * (min
                  (max (from_top y) (l.bar_top + margin))
                  (l.bar_top + (l.bar_height - l.handle_height - margin))
                - l.bar_top)))
unfolding move_controlbar_handle
move_controlbar_handle-clamps l (pos y) s h b = ground arith
move_controlbar_handle-clamps l (negsuc y) s h b = ground arith

-- Wherever the handle is asked to go, a handle that has a height and is not taller than the bar is
-- within the bar: its offset is not negative, and offset and height add up to at most the bar's.
pub move_controlbar_handle-inside :
    (l : Layout) (y : ℤ) (s : ControlBar)
    → 0 < l.handle_height
    → l.handle_height ≤ l.bar_height
    → (n : ℕ) × ((move_controlbar_handle l y s).handle_offset ≡ pos n)
      × (n + 2 * l.handle_height ≤ 2 * l.bar_height)
move_controlbar_handle-inside l y s h b =
    let top = l.bar_top in
    let highest = top + (l.bar_height - l.handle_height - margin) in
    let n =
      if ltb l.bar_height (l.handle_height + 2 * margin)
      then l.bar_height - l.handle_height
      else 2 * (min (max (from_top y) (top + margin)) highest - top) in
    (n, ground (arith, move_controlbar_handle-clamps l y s h (omega arith)), ground arith)
