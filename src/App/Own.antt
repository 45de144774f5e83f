-- ===== src/App/Own.antt =====
-- What happens to a part of the page of app/ui.js by itself leaves alone what the parts share.
use docker_baseimage_gui.Prelude.{Bool, true, false, Option, none, some, ◌∷◌, ◌≡◌, refl, arith}
use docker_baseimage_gui.Prelude.Integers.{ℤ}
use docker_baseimage_gui.Ui.View.{
  View, apply_resize_mode, update_view_drag, toggle_view_drag, update_view_clip, resize_changed,
  view_clip_changed,
}
use docker_baseimage_gui.Ui.View
use docker_baseimage_gui.Ui.ControlBar.{
  Callback, idle_controlbar, close_bar, ControlBar, Layout, clear_timeout, activate_controlbar,
  idle_bar, keep_controlbar, open_controlbar, close_controlbar, toggle_controlbar,
  toggle_controlbar_side, move_controlbar_handle, update_controlbar_handle, follow,
  drag_controlbar_handle, controlbar_handle_mouse_up, controlbar_handle_mouse_down, canvas_focused,
  change_side,
}
use docker_baseimage_gui.Ui.ControlBar.Step.{pointed, pressed, typed, timer_callback, fire, fired}
use docker_baseimage_gui.Ui.ControlBar.Step
use docker_baseimage_gui.Ui.Clipboard.{
  Clipboard, Permission, clipboard_receive, clipboard_clear, clipboard_send, update_clipboard,
  handle_clipboard_auto_sync, handle_clipboard_auto_sync_rejected, sync_with_permissions,
  update_host_clipboard_sync,
}
use docker_baseimage_gui.Ui.Clipboard
use docker_baseimage_gui.Ui.Keyboard.Focus.{
  Touch, onfocus_virtual_keyboard, onblur_virtual_keyboard, focus, show_virtual_keyboard,
  hide_virtual_keyboard, toggle_virtual_keyboard, keep_virtual_keyboard, key_event, send_key,
}
use docker_baseimage_gui.Ui.Keyboard.Focus
use docker_baseimage_gui.Page.{
  Features, Page, open_file_manager, open_terminal, resize_terminal, perform, file_manager_shown,
  file_manager_hidden, terminal_hidden, terminal_shown, window_resized, audio_event,
  notification_event, terminal_event, file_manager_event,
}
use docker_baseimage_gui.Page
use docker_baseimage_gui.Ui.Session.Invariant.{SessionInv}
use docker_baseimage_gui.App.{is_own_view, is_own_bar, is_own_clipboard, is_own_touch, is_own_page}

pub own_view :
    (e : View.Event) (s : View)
    → is_own_view e ≡ true
    → ((View.step e s).rfb ≡ s.rfb) × ((View.step e s).connected ≡ s.connected)
unfolding View.step apply_resize_mode update_view_drag toggle_view_drag update_view_clip
    resize_changed view_clip_changed
own_view (View.rfb_made b) s h = absurd (ground arith)
own_view View.rfb_connected s h = absurd (ground arith)
own_view View.rfb_disconnected s h = absurd (ground arith)
own_view View.drag_clicked s h = ground arith
own_view (View.resize_chosen r) s h = ground arith
own_view (View.view_clip_clicked b) s h = ground arith
own_view (View.clipping_changed b) s h = ground arith

pub own_clipboard :
    (auto_sync : Permission → Bool → Bool) (e : Clipboard.Event auto_sync) (s : Clipboard)
    → is_own_clipboard auto_sync e ≡ true
    → (Clipboard.step auto_sync e s).rfb ≡ s.rfb
unfolding Clipboard.step update_clipboard handle_clipboard_auto_sync
    handle_clipboard_auto_sync_rejected sync_with_permissions update_host_clipboard_sync
    clipboard_receive clipboard_send clipboard_clear
own_clipboard auto_sync (Clipboard.rfb_made p b) s h = absurd (ground arith)
own_clipboard auto_sync Clipboard.rfb_gone s h = absurd (ground arith)
own_clipboard auto_sync Clipboard.sync_rejected s h = ground arith
own_clipboard auto_sync Clipboard.text_changed s h = ground arith
own_clipboard auto_sync Clipboard.clear_clicked s h = ground arith
own_clipboard auto_sync (Clipboard.permission_changed p q) s h = ground arith
own_clipboard auto_sync (Clipboard.setting_clicked b) s h = ground arith
own_clipboard auto_sync (Clipboard.permissions_answered p) s h = ground arith
own_clipboard auto_sync (Clipboard.access_answered p) s h = ground arith
own_clipboard auto_sync (Clipboard.received t) s h = ground arith

moved-rfb : (b : Bool) (a : Focus.Active) (s : Touch) → (Focus.moved b a s).rfb ≡ s.rfb
unfolding onfocus_virtual_keyboard onblur_virtual_keyboard
moved-rfb true Focus.keyboardinput s = refl
moved-rfb true Focus.screen s = refl
moved-rfb true Focus.other s = refl
moved-rfb false Focus.keyboardinput s = refl
moved-rfb false Focus.screen s = refl
moved-rfb false Focus.other s = refl

pub focus-rfb : (a : Focus.Active) (s : Touch) → (focus a s).rfb ≡ s.rfb
unfolding focus
focus-rfb a s = moved-rfb _ a s

pub own_touch : (e : Focus.Event) (s : Touch) → is_own_touch e ≡ true → (Focus.step e s).rfb ≡ s.rfb
unfolding Focus.step toggle_virtual_keyboard show_virtual_keyboard hide_virtual_keyboard key_event
    send_key
own_touch Focus.button_clicked s h =
    ground (arith, focus-rfb Focus.keyboardinput s, focus-rfb Focus.other s)
own_touch Focus.rfb_gone s h = absurd (ground arith)
own_touch Focus.rfb_connected s h = absurd (ground arith)
own_touch (Focus.rfb_made b) s h = absurd (ground arith)
own_touch (Focus.pressed target a) s h = ground (arith, focus-rfb a s)
own_touch (Focus.typed k) s h = ground arith
own_touch (Focus.sent k) s h = ground (
  arith,
  focus-rfb Focus.keyboardinput (record s { keys = k ∷ s.keys }),
  focus-rfb Focus.screen (record s { keys = k ∷ s.keys }),
)

-- What the control bar shares.
pub record SameBar (s t : ControlBar) : Type 0 where
  pub same_rfb : t.rfb ≡ s.rfb
  pub same_anchor : t.anchor_hidden ≡ s.anchor_hidden
  pub same_first : t.first_run ≡ s.first_run

change_side-SameBar : (l : Layout) (x : ℤ) (s : ControlBar) → SameBar s (change_side l x s)
unfolding toggle_controlbar_side
change_side-SameBar l x s = ground arith

follow-SameBar : (l : Layout) (y : ℤ) (s : ControlBar) → SameBar s (follow l y s)
unfolding follow move_controlbar_handle keep_controlbar activate_controlbar
follow-SameBar l y s = ground arith

fired-SameBar : (o : Option Callback) (s : ControlBar) → SameBar s (fired o s)
unfolding fired timer_callback idle_bar close_controlbar activate_controlbar
fired-SameBar none s = ground arith
fired-SameBar (some idle_controlbar) s = ground arith
fired-SameBar (some close_bar) s = ground arith

pub own_bar :
    (l : Layout) (e : Step.Event) (s : ControlBar)
    → is_own_bar e ≡ true
    → SameBar s (Step.step l e s)
unfolding Step.step controlbar_handle_mouse_down drag_controlbar_handle update_controlbar_handle
    move_controlbar_handle controlbar_handle_mouse_up toggle_controlbar open_controlbar
    close_controlbar keep_controlbar activate_controlbar pointed pressed typed fire canvas_focused
own_bar l (Step.handle_pressed y top) s h = ground arith
own_bar l (Step.handle_moved x y) s h =
    ground (arith, change_side-SameBar l x s, follow-SameBar l y (change_side l x s))
own_bar l (Step.window_resized top) s h = ground arith
own_bar l Step.handle_released s h = ground arith
own_bar l Step.bar_pointed s h = ground arith
own_bar l Step.bar_left s h = ground arith
own_bar l Step.bar_pressed s h = ground arith
own_bar l Step.bar_typed s h = ground arith
own_bar l (Step.timer_fired j) s h =
    ground (arith, fired-SameBar (s.pending j) (clear_timeout (some j) s))
own_bar l Step.rfb_made s h = absurd (ground arith)
own_bar l Step.screen_focused s h = ground arith
own_bar l Step.session_connected s h = absurd (ground arith)
own_bar l Step.session_ended s h = absurd (ground arith)
own_bar l Step.modal_opened s h = absurd (ground arith)
own_bar l (Step.focus_moved f) s h = ground arith
own_bar l (Step.document_focused b) s h = ground arith

pub modal_opened-SameBar :
    (l : Layout) (s : ControlBar) → SameBar s (Step.step l Step.modal_opened s)
unfolding Step.step close_controlbar
modal_opened-SameBar l s = ground arith

-- What the session shares.
pub record SameSession (p q : Page) : Type 0 where
  pub same_rfb : q.session.rfb ≡ p.session.rfb
  pub same_connected : q.session.is_connected ≡ p.session.is_connected
  pub same_first : q.session.first_run ≡ p.session.first_run

pub own_page :
    (k : Features) (e : Page.Event) (p : Page)
    → is_own_page e ≡ true
    → SameSession p (Page.step k e p)
unfolding Page.step open_file_manager open_terminal resize_terminal perform
own_page k (Page.session_event e) p h = absurd (ground arith)
own_page k file_manager_shown p h = ground arith
own_page k file_manager_hidden p h = ground arith
own_page k terminal_hidden p h = ground arith
own_page k (terminal_shown cols rows) p h = ground arith
own_page k (window_resized cols rows) p h = ground arith
own_page k (audio_event e) p h = ground arith
own_page k (notification_event e) p h = ground arith
own_page k (terminal_event e) p h = ground arith
own_page k (file_manager_event e) p h = ground arith

pub own_page-SessionInv :
    (k : Features) (e : Page.Event) (p : Page)
    → is_own_page e ≡ true
    → SessionInv p.session
    → SessionInv (Page.step k e p).session
unfolding Page.step open_file_manager open_terminal resize_terminal perform
own_page-SessionInv k (Page.session_event e) p h v = absurd (ground arith)
own_page-SessionInv k file_manager_shown p h v = ground arith
own_page-SessionInv k file_manager_hidden p h v = ground arith
own_page-SessionInv k terminal_hidden p h v = ground arith
own_page-SessionInv k (terminal_shown cols rows) p h v = ground arith
own_page-SessionInv k (window_resized cols rows) p h v = ground arith
own_page-SessionInv k (audio_event e) p h v = ground arith
own_page-SessionInv k (notification_event e) p h v = ground arith
own_page-SessionInv k (terminal_event e) p h v = ground arith
own_page-SessionInv k (file_manager_event e) p h v = ground arith
