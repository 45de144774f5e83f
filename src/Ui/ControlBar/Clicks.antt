-- ===== src/Ui/ControlBar/Clicks.antt =====
-- Clicks and drags of the handle of the control bar of app/ui.js: the pointer is pressed on the
-- handle, moved any number of times and released.
use docker_baseimage_gui.Prelude.{
  ℕ, Bool, true, false, not, ◌&&◌, ◌||◌, List, [], ◌∷◌, ◌≡◌, sym, subst, ap, ◌∙◌, arith, ltb, leb,
  if◌then◌else◌, Bool-cases, inl, inr,
}
use docker_baseimage_gui.Prelude.Integers.{ℤ, ◌-ℤ◌, abs}
use docker_baseimage_gui.Ui.ControlBar.{
  ControlBar, Layout, move_controlbar_handle, is_far_left, is_far_right, change_side,
  toggle_controlbar_side, follow, keep_controlbar, activate_controlbar, toggle_controlbar,
  open_controlbar, close_controlbar, drag_controlbar_handle, controlbar_handle_mouse_up,
  controlbar_handle_mouse_down,
}

module _ (l : Layout) where
  -- The moves of the pointer, one after the other.
  unfoldable pub drags : List (ℤ × ℤ) → ControlBar → ControlBar
  drags [] s = s
  drags ((x, y) ∷ ms) s = drags ms (drag_controlbar_handle l x y s)

  -- A move that is a drag: far from where the pointer was pressed, or to the other side of the window.
  abbrev pub is_drag : Bool → ℤ → ℤ × ℤ → Bool
  is_drag on_right y₀ (x, y) =
      leb l.drag_threshold (abs (y -ℤ y₀))
      || (if is_far_left l x then on_right else is_far_right l x && not on_right)

  abbrev pub any_drag : Bool → ℤ → List (ℤ × ℤ) → Bool
  any_drag on_right y₀ [] = false
  any_drag on_right y₀ (m ∷ ms) = is_drag on_right y₀ m || any_drag on_right y₀ ms

  -- The pointer is held, and the bar is as open as `shown`.
  record IsHeld (shown : Bool) (y₀ : ℤ) (s : ControlBar) : Type 0 where
    held : s.grabbed ≡ true
    as_open : s.bar_open ≡ shown
    start_y : s.mouse_down_client_y ≡ y₀

  follow-IsHeld :
      (shown : Bool) (y₀ y : ℤ) (s : ControlBar)
      → IsHeld shown y₀ s
      → IsHeld shown y₀ (follow l y s) × ((follow l y s).dragged ≡ true)
  unfolding follow move_controlbar_handle keep_controlbar activate_controlbar
  follow-IsHeld shown y₀ y s v = ground arith

  -- From a press that was no drag so far.
  record IsStill (shown on_right : Bool) (y₀ : ℤ) (s : ControlBar) : Type 0 where
    still_held : IsHeld shown y₀ s
    no_drag : s.dragged ≡ false
    side : s.anchor_right ≡ on_right

  dragged-IsHeld :
      (shown : Bool) (y₀ x y : ℤ) (s : ControlBar)
      → IsHeld shown y₀ s
      → s.dragged ≡ true
      → IsHeld shown y₀ (drag_controlbar_handle l x y s)
        × ((drag_controlbar_handle l x y s).dragged ≡ true)
  unfolding drag_controlbar_handle toggle_controlbar_side follow move_controlbar_handle
      keep_controlbar activate_controlbar
  dragged-IsHeld shown y₀ x y s v d = ground arith

  -- Whether the bar changes its side, by the tests of the position.
  abbrev crosses : Bool → Bool → Bool → Bool
  crosses far_left far_right on_right = if far_left then on_right else far_right && not on_right

  crossed-IsHeld :
      (shown on_right far_left far_right : Bool) (y₀ : ℤ) (s : ControlBar)
      → IsStill shown on_right y₀ s
      → crosses far_left far_right on_right ≡ true
      → let t =
          if far_left
          then (if s.anchor_right then toggle_controlbar_side s else s)
          else if far_right
          then (if s.anchor_right then s else toggle_controlbar_side s)
          else s in
        IsHeld shown y₀ t × (t.dragged ≡ true)
  unfolding toggle_controlbar_side
  crossed-IsHeld shown on_right far_left far_right y₀ s v c = ground arith

  uncrossed-same :
      (shown on_right far_left far_right : Bool) (y₀ : ℤ) (s : ControlBar)
      → IsStill shown on_right y₀ s
      → crosses far_left far_right on_right ≡ false
      → (if far_left
          then (if s.anchor_right then toggle_controlbar_side s else s)
          else if far_right
          then (if s.anchor_right then s else toggle_controlbar_side s)
          else s)
        ≡ s
  uncrossed-same shown on_right far_left far_right y₀ s v c = ground arith

  not_dropped : (dragged near : Bool) → dragged ≡ true → (not dragged && near) ≡ false
  not_dropped dragged near e = ground arith

  -- The two tests of dragControlbarHandle.
  if-follows :
      (grabbed dropped : Bool) (s t u : ControlBar)
      → grabbed ≡ true
      → dropped ≡ false
      → (if not grabbed then s else if dropped then t else u) ≡ u
  if-follows grabbed dropped s t u g d = ground arith

  if-dropped :
      (grabbed dropped : Bool) (s t u : ControlBar)
      → grabbed ≡ true
      → dropped ≡ true
      → (if not grabbed then s else if dropped then t else u) ≡ t
  if-dropped grabbed dropped s t u g d = ground arith

  abbrev Dragged : Bool → ℤ → ControlBar → Type 0
  Dragged shown y₀ s = IsHeld shown y₀ s × (s.dragged ≡ true)

  abbrev is_near : ℤ → ControlBar → Bool
  is_near y t = not t.dragged && ltb (abs (y -ℤ t.mouse_down_client_y)) l.drag_threshold

  -- dragControlbarHandle where the bar stays at its side.
  uncrossed-drag :
      (x y : ℤ) (s : ControlBar)
      → change_side l x s ≡ s
      → drag_controlbar_handle l x y s
        ≡ (if not s.grabbed then s else if is_near y s then s else follow l y s)
  unfolding drag_controlbar_handle
  uncrossed-drag x y s e =
      ap (λ t. if not s.grabbed then s else if is_near y t then t else follow l y t) e

  far_moved :
      (shown on_right : Bool) (y₀ y : ℤ) (s : ControlBar)
      → IsStill shown on_right y₀ s
      → ltb (abs (y -ℤ y₀)) l.drag_threshold ≡ is_near y s
  far_moved shown on_right y₀ y s v = cc

  far :
      (threshold a : ℕ) (c : Bool)
      → (leb threshold a || c) ≡ true
      → c ≡ false
      → ltb a threshold ≡ false
  far threshold a c h e = ground arith

  near :
      (threshold a : ℕ) (c : Bool)
      → (leb threshold a || c) ≡ false
      → (ltb a threshold ≡ true) × (c ≡ false)
  near threshold a c h = ground arith

  moved-IsHeld :
      (shown on_right : Bool) (y₀ x y : ℤ) (s : ControlBar)
      → IsStill shown on_right y₀ s
      → is_drag on_right y₀ (x, y) ≡ true
      → Dragged shown y₀ (drag_controlbar_handle l x y s)
  unfolding drag_controlbar_handle
  moved-IsHeld shown on_right y₀ x y s v d =
      let t = change_side l x s in
      let crossed = crosses (is_far_left l x) (is_far_right l x) on_right in
      elim (Bool-cases crossed) [
        | inl c ↦
            let (w, e) =
              crossed-IsHeld shown on_right (is_far_left l x) (is_far_right l x) y₀ s v c in
            subst (Dragged shown y₀)
              (sym
                (if-follows s.grabbed _ s t (follow l y t) v.still_held.held (not_dropped _ _ e)))
              (follow-IsHeld shown y₀ y t w)
        | inr c ↦
            let same =
              uncrossed-same shown on_right (is_far_left l x) (is_far_right l x) y₀ s v c in
            subst (Dragged shown y₀)
              (sym (
                uncrossed-drag x y s same
                ∙ if-follows s.grabbed (is_near y s) s s (follow l y s) v.still_held.held (
                    sym (far_moved shown on_right y₀ y s v)
                    ∙ far l.drag_threshold (abs (y -ℤ y₀)) crossed d c)))
              (follow-IsHeld shown y₀ y s v.still_held)
      ]

  unmoved-same :
      (shown on_right : Bool) (y₀ x y : ℤ) (s : ControlBar)
      → IsStill shown on_right y₀ s
      → is_drag on_right y₀ (x, y) ≡ false
      → drag_controlbar_handle l x y s ≡ s
  unmoved-same shown on_right y₀ x y s v d =
      let (is_close, c) =
        near l.drag_threshold (abs (y -ℤ y₀))
          (crosses (is_far_left l x) (is_far_right l x) on_right) d in
      let same = uncrossed-same shown on_right (is_far_left l x) (is_far_right l x) y₀ s v c in
      uncrossed-drag x y s same
      ∙ if-dropped s.grabbed (is_near y s) s s (follow l y s) v.still_held.held
          (sym (far_moved shown on_right y₀ y s v) ∙ is_close)

  drags-Dragged :
      (shown : Bool) (y₀ : ℤ) (ms : List (ℤ × ℤ)) (s : ControlBar)
      → Dragged shown y₀ s
      → Dragged shown y₀ (drags ms s)
  unfolding drags
  drags-Dragged shown y₀ [] s v = v
  drags-Dragged shown y₀ ((x, y) ∷ ms) s (v, d) =
      drags-Dragged shown y₀ ms (drag_controlbar_handle l x y s) (dragged-IsHeld shown y₀ x y s v d)

  -- Held after the moves, and dragged exactly if one of them was a drag.
  drags-IsHeld :
      (shown on_right : Bool) (y₀ : ℤ) (ms : List (ℤ × ℤ)) (s : ControlBar)
      → IsStill shown on_right y₀ s
      → IsHeld shown y₀ (drags ms s) × ((drags ms s).dragged ≡ any_drag on_right y₀ ms)
  unfolding drags
  drags-IsHeld shown on_right y₀ [] s v = (v.still_held, v.no_drag)
  drags-IsHeld shown on_right y₀ ((x, y) ∷ ms) s v =
      elim (Bool-cases (is_drag on_right y₀ (x, y))) [
        | inl d ↦
            let (h, e) =
              drags-Dragged shown y₀ ms (drag_controlbar_handle l x y s)
                (moved-IsHeld shown on_right y₀ x y s v d) in
            (h, e ∙ sym (ap (λ b. b || any_drag on_right y₀ ms) d))
        | inr d ↦
            let (h, e) = drags-IsHeld shown on_right y₀ ms s v in
            let same = unmoved-same shown on_right y₀ x y s v d in
            (
              subst (λ t. IsHeld shown y₀ (drags ms t)) (sym same) h,
              ap (λ t. (drags ms t).dragged) same
                  ∙ e
                  ∙ sym (ap (λ b. b || any_drag on_right y₀ ms) d),
            )
      ]

  pressed-IsStill :
      (y₀ top : ℤ) (s : ControlBar)
      → IsStill s.bar_open s.anchor_right y₀ (controlbar_handle_mouse_down y₀ top s)
  unfolding controlbar_handle_mouse_down keep_controlbar activate_controlbar
  pressed-IsStill y₀ top s = ground arith

  released-open :
      (shown : Bool) (y₀ : ℤ) (s : ControlBar)
      → IsHeld shown y₀ s
      → (controlbar_handle_mouse_up s).bar_open ≡ (if s.dragged then shown else not shown)
  unfolding controlbar_handle_mouse_up toggle_controlbar open_controlbar close_controlbar
      keep_controlbar activate_controlbar
  released-open shown y₀ s v = ground arith

  -- A press on the handle, any number of moves and the release: the control bar is toggled once if no
  -- move is a drag, that is reaches the threshold or takes the bar to the other side of the window, and
  -- is left as it is otherwise.
  pub click-bar_open :
      (y₀ top : ℤ) (ms : List (ℤ × ℤ)) (s : ControlBar)
      → (controlbar_handle_mouse_up (drags ms (controlbar_handle_mouse_down y₀ top s))).bar_open
        ≡ (if any_drag s.anchor_right y₀ ms then s.bar_open else not s.bar_open)
  click-bar_open y₀ top ms s =
      let t = controlbar_handle_mouse_down y₀ top s in
      let (h, e) = drags-IsHeld s.bar_open s.anchor_right y₀ ms t (pressed-IsStill y₀ top s) in
      released-open s.bar_open y₀ (drags ms t) h
      ∙ ap (λ b. if b then s.bar_open else not s.bar_open) e
