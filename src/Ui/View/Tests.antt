-- ===== src/Ui/View/Tests.antt =====
-- Concrete runs of the view of app/ui.js.
use docker_baseimage_gui.Prelude.{true, false, List, [], ◌∷◌, ◌≡◌, refl}
use docker_baseimage_gui.Ui.View.{
  View, Event, off, scale, rfb_made, rfb_connected, drag_clicked, resize_chosen, view_clip_clicked,
  loaded, step, run, connect, connect_finished, disconnect_finished, resize_changed,
  view_clip_changed, toggle_view_drag, update_view_clip, update_view_drag, apply_resize_mode,
}
use docker_baseimage_gui.Ui.View.Invariant.{ViewInv, run-loaded-ViewInv}

abbrev events : List Event
events = rfb_made true ∷ rfb_connected ∷ view_clip_clicked true ∷ drag_clicked ∷ []

-- Connected, with a view that is clipped and dragged.
abbrev dragging : View
dragging = run events (loaded true false off false)

-- Choosing to scale ends clipping and dragging.
scaled :
    let t = step (resize_chosen scale) dragging in
    (dragging.drag_viewport ≡ true)
    × (t.drag_viewport ≡ false)
    × (t.clip_viewport ≡ false)
    × (t.button_hidden ≡ true)
unfolding loaded run step connect connect_finished disconnect_finished resize_changed
    view_clip_changed toggle_view_drag update_view_clip update_view_drag apply_resize_mode
scaled = (refl, refl, refl, refl)

run-loaded-ViewInv_example : ViewInv (run events (loaded true false off false))
run-loaded-ViewInv_example = run-loaded-ViewInv true false off false events
