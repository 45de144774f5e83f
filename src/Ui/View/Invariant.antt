-- ===== src/Ui/View/Invariant.antt =====
-- What clipping and dragging keep to: updateViewClip and updateViewDrag of app/ui.js.
use docker_baseimage_gui.Prelude.{Bool, true, false, not, ◌&&◌, ◌||◌, List, [], ◌∷◌, ◌≡◌, arith}
use docker_baseimage_gui.Ui.View.{
  Resize, off, scale, remote, is_scale, is_remote, View, is_scaling, has_broken_scrollbars, Event,
  rfb_made, rfb_connected, rfb_disconnected, drag_clicked, resize_chosen, view_clip_clicked,
  clipping_changed, apply_resize_mode, update_view_drag, toggle_view_drag, update_view_clip,
  connect, connect_finished, disconnect_finished, resize_changed, view_clip_changed, step, run,
  loaded,
}

-- While connected: the view is clipped as the settings and the platform ask, it is dragged only if it
-- is clipped, and the control and the button show what is the case.
pub record ViewInv (s : View) : Type 0 where
  pub on_rfb : s.connected ≡ true → s.rfb ≡ true
  pub modes :
      s.rfb ≡ true
      → (s.scale_viewport ≡ is_scale s.resize) × (s.resize_session ≡ is_remote s.resize)
  pub clipped :
      s.connected ≡ true
      → s.clip_viewport ≡ (not (is_scaling s) && (has_broken_scrollbars s || s.view_clip))
  pub dragged : s.connected ≡ true → s.drag_viewport ≡ true → s.clip_viewport ≡ true
  pub shown :
      s.connected ≡ true
      → (s.button_selected ≡ s.drag_viewport) × (s.button_hidden ≡ not s.clip_viewport)
  pub checked : s.control_checked ≡ s.view_clip
  pub fixed : s.connected ≡ true → s.control_disabled ≡ (is_scaling s || has_broken_scrollbars s)

pub step-ViewInv : (e : Event) (s : View) → ViewInv s → ViewInv (step e s)
unfolding step apply_resize_mode update_view_drag toggle_view_drag update_view_clip connect
    connect_finished disconnect_finished resize_changed view_clip_changed
step-ViewInv (rfb_made clipping) s v = ground arith
step-ViewInv rfb_connected s v = ground arith
step-ViewInv rfb_disconnected s v = ground arith
step-ViewInv drag_clicked s v = ground arith
step-ViewInv (resize_chosen off) s v = ground arith
step-ViewInv (resize_chosen scale) s v = ground arith
step-ViewInv (resize_chosen remote) s v = ground arith
step-ViewInv (view_clip_clicked b) s v = ground arith
step-ViewInv (clipping_changed b) s v = ground arith

run-ViewInv : (es : List Event) (s : View) → ViewInv s → ViewInv (run es s)
unfolding run
run-ViewInv [] s v = v
run-ViewInv (e ∷ es) s v = run-ViewInv es (step e s) (step-ViewInv e s v)

pub loaded-ViewInv :
    (gutter mobile : Bool) (r : Resize) (b : Bool) → ViewInv (loaded gutter mobile r b)
unfolding loaded
loaded-ViewInv gutter mobile r b = ground arith

-- From the loading of the page on: while connected, the view is clipped exactly if it is not scaled and
-- the setting or the platform asks for it, it is dragged only if it is clipped, the button shows both,
-- and the control of the setting shows its value and is disabled exactly where the value is forced.
pub run-loaded-ViewInv :
    (gutter mobile : Bool) (r : Resize) (b : Bool) (es : List Event)
    → ViewInv (run es (loaded gutter mobile r b))
run-loaded-ViewInv gutter mobile r b es =
    run-ViewInv es (loaded gutter mobile r b) (loaded-ViewInv gutter mobile r b)

-- While connected, the button that drags the view turns dragging on if the view is clipped and is
-- clipping, and off if it was on; it never turns it on otherwise.
pub toggle_view_drag-drag :
    (s : View)
    → s.rfb ≡ true
    → s.connected ≡ true
    → let t = toggle_view_drag s in
      (t.drag_viewport ≡ (not s.drag_viewport && (s.clip_viewport && s.clipping_viewport)))
      × (t.button_selected ≡ t.drag_viewport)
unfolding toggle_view_drag update_view_drag
toggle_view_drag-drag s h c = ground arith

-- If noVNC stops clipping the view while it is dragged, dragging goes on and the button stays enabled
-- and selected, until updateViewDrag is called for another reason, which ends dragging.
pub clipping_changed-stale :
    (s : View)
    → ViewInv s
    → s.connected ≡ true
    → s.drag_viewport ≡ true
    → s.button_disabled ≡ false
    → let t = step (clipping_changed false) s in
      (t.clipping_viewport ≡ false)
      × (t.drag_viewport ≡ true)
      × (t.button_selected ≡ true)
      × (t.button_disabled ≡ false)
      × ((update_view_drag t).drag_viewport ≡ false)
      × ((update_view_drag t).button_disabled ≡ true)
unfolding step update_view_drag
clipping_changed-stale s v c d e = ground (arith, v.on_rfb, v.shown)
