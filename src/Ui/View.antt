-- ===== src/Ui/View.antt =====
-- The view of the remote desktop: scaling, clipping and dragging. applyResizeMode, updateViewClip,
-- toggleViewDrag and updateViewDrag of app/ui.js, and what connect sets for them. The RFB object is
-- noVNC's: whether it is clipping the view (clippingViewport) is an input.
pub mod Invariant
mod Tests
use docker_baseimage_gui.Prelude.{Bool, true, false, not, ◌&&◌, ◌||◌, List, [], ◌∷◌, if◌then◌else◌}

-- The values of the setting `resize`.
pub data Resize : Type 0 where
  off scale remote : Resize

abbrev pub is_scale : Resize → Bool
is_scale scale = true
is_scale r = false

abbrev pub is_remote : Resize → Bool
is_remote remote = true
is_remote r = false

pub record View : Type 0 where
  -- hasScrollbarGutter, and isIOS() || isAndroid() || isMac() || isChromeOS().
  pub has_scrollbar_gutter : Bool
  pub is_mobile : Bool
  -- UI.rfb is defined, UI.connected.
  pub rfb : Bool
  pub connected : Bool
  -- The settings `resize` and `view_clip`, the latter with its control.
  pub resize : Resize
  pub view_clip : Bool
  pub control_checked : Bool
  pub control_disabled : Bool
  -- The properties of the RFB object.
  pub scale_viewport : Bool
  pub resize_session : Bool
  pub clip_viewport : Bool
  pub clipping_viewport : Bool
  pub drag_viewport : Bool
  -- noVNC_view_drag_button.
  pub button_selected : Bool
  pub button_hidden : Bool
  pub button_disabled : Bool

unfoldable pub apply_resize_mode : View → View
apply_resize_mode s =
    if s.rfb
    then record s { scale_viewport = is_scale s.resize; resize_session = is_remote s.resize }
    else s

-- UI.updateViewDrag: dragging ends where the view is not clipped, and the button follows.
unfoldable pub update_view_drag : View → View
update_view_drag s =
    let lost = (not s.clip_viewport || not s.clipping_viewport) && s.drag_viewport in
    let t = record s { drag_viewport = if lost then false else s.drag_viewport } in
    if s.connected
    then record t {
      button_selected = t.drag_viewport;
      button_hidden = not t.clip_viewport;
      button_disabled = not t.clipping_viewport;
    }
    else s

unfoldable pub toggle_view_drag : View → View
unfolding update_view_drag
toggle_view_drag s =
    if s.rfb then update_view_drag (record s { drag_viewport = not s.drag_viewport }) else s

-- forceSetting of `view_clip`.
abbrev pub force_view_clip : Bool → View → View
force_view_clip b s = record s { view_clip = b; control_checked = b; control_disabled = true }

abbrev pub enable_view_clip : View → View
enable_view_clip s = record s { control_disabled = false }

abbrev pub is_scaling : View → Bool
is_scaling s = is_scale s.resize || is_remote s.resize

abbrev pub has_broken_scrollbars : View → Bool
has_broken_scrollbars s = not s.has_scrollbar_gutter && s.is_mobile

unfoldable pub update_view_clip : View → View
unfolding update_view_drag
update_view_clip s =
    let unclipped = record (force_view_clip false s) { clip_viewport = false } in
    let clipped = record (force_view_clip true s) { clip_viewport = true } in
    let chosen = record (enable_view_clip s) { clip_viewport = s.view_clip } in
    if s.rfb
    then update_view_drag
        (if is_scaling s then unclipped else if has_broken_scrollbars s then clipped else chosen)
    else s

-- connect: the properties of a new RFB object, which is clipping the view or not.
unfoldable pub connect : Bool → View → View
connect clipping s = record s {
  rfb = true;
  clip_viewport = s.view_clip;
  scale_viewport = is_scale s.resize;
  resize_session = is_remote s.resize;
  clipping_viewport = clipping;
  drag_viewport = false;
}

-- connectFinished, by updateVisualState, and disconnectFinished.
unfoldable pub connect_finished : View → View
unfolding update_view_clip
connect_finished s = update_view_clip (record s { connected = true })

unfoldable pub disconnect_finished : View → View
disconnect_finished s = record s { connected = false; rfb = false }

-- The handlers of the settings, in the order in which they are registered: the setting is saved first.
unfoldable pub resize_changed : Resize → View → View
unfolding apply_resize_mode update_view_clip
resize_changed r s = update_view_clip (apply_resize_mode (record s { resize = r }))

unfoldable pub view_clip_changed : Bool → View → View
unfolding update_view_clip
view_clip_changed b s = update_view_clip (record s { view_clip = b; control_checked = b })

-- What can happen: no handler of app/ui.js is registered for the event with which noVNC tells that
-- clippingViewport has changed.
pub data Event : Type 0 where
  rfb_made : Bool → Event
  rfb_connected rfb_disconnected drag_clicked : Event
  resize_chosen : Resize → Event
  view_clip_clicked : Bool → Event
  clipping_changed : Bool → Event

-- A control that is disabled or hidden cannot be clicked, and a missing RFB object has no events.
unfoldable pub step : Event → View → View
step (rfb_made clipping) s = if s.rfb then s else connect clipping s
step rfb_connected s = if s.rfb && not s.connected then connect_finished s else s
step rfb_disconnected s = if s.rfb then disconnect_finished s else s
step drag_clicked s = if not s.button_disabled && not s.button_hidden then toggle_view_drag s else s
step (resize_chosen r) s = resize_changed r s
step (view_clip_clicked b) s = if s.control_disabled then s else view_clip_changed b s
step (clipping_changed b) s = if s.rfb then record s { clipping_viewport = b } else s

unfoldable pub run : List Event → View → View
run [] s = s
run (e ∷ es) s = run es (step e s)

-- When the page is loaded, with the settings as initSettings leaves them.
unfoldable pub loaded : Bool → Bool → Resize → Bool → View
loaded has_scrollbar_gutter is_mobile resize view_clip = record {
  has_scrollbar_gutter = has_scrollbar_gutter;
  is_mobile = is_mobile;
  rfb = false;
  connected = false;
  resize = resize;
  view_clip = view_clip;
  control_checked = view_clip;
  control_disabled = false;
  scale_viewport = false;
  resize_session = false;
  clip_viewport = false;
  clipping_viewport = false;
  drag_viewport = false;
  button_selected = false;
  button_hidden = true;
  button_disabled = false;
}
