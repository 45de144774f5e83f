-- ===== src/App/Following.antt =====
-- The parts of the page of app/ui.js follow the RFB object and the connection of the session.
use docker_baseimage_gui.Prelude.{Bool, true, false, not, ◌&&◌, ◌≡◌, refl, arith, if◌then◌else◌}
use docker_baseimage_gui.Ui.Session.{Session}
use docker_baseimage_gui.Ui.Session.Invariant.{SessionInv}
use docker_baseimage_gui.Ui.View.{View, update_view_drag, update_view_clip}
use docker_baseimage_gui.Ui.View
use docker_baseimage_gui.Ui.ControlBar.{
  show_anchor, hide_anchor, open_controlbar, close_controlbar, canvas_focused,
}
use docker_baseimage_gui.Ui.ControlBar.Step
use docker_baseimage_gui.Ui.Clipboard.{
  Clipboard, Permission, update_host_clipboard_sync, sync_with_permissions, update_clipboard,
}
use docker_baseimage_gui.Ui.Clipboard
use docker_baseimage_gui.Ui.Keyboard.Focus.{Touch, ShowsFocus, step-ShowsFocus, update_view_only}
use docker_baseimage_gui.Ui.Keyboard.Focus
use docker_baseimage_gui.App.{App, Found, on_made, on_connected, on_lost, follow}
use docker_baseimage_gui.App.Agreement.{Changes}
use docker_baseimage_gui.App.Own.{focus-rfb}

-- The parts see the RFB object and the connection of this session; the control bar can be reached
-- exactly while it is connected.
pub record Agrees (s : Session) (a : App) : Type 0 where
  pub view_rfb : a.view.rfb ≡ s.rfb
  pub view_connected : a.view.connected ≡ s.is_connected
  pub bar_rfb : a.bar.rfb ≡ s.rfb
  pub clipboard_rfb : a.clipboard.rfb ≡ s.rfb
  pub touch_rfb : a.touch.rfb ≡ s.rfb
  pub bar_hidden : a.bar.anchor_hidden ≡ not s.is_connected
  pub first : a.bar.first_run ≡ s.first_run

pub if_holds :
    {A : Type 0} (P : A → Type 0) (b : Bool) (x y : A)
    → (b ≡ true → P x)
    → (b ≡ false → P y)
    → P (if b then x else y)
if_holds P true x y p q = p refl
if_holds P false x y p q = q refl

module _ (auto_sync : Permission → Bool → Bool) where
  made-Agrees :
      (f : Found) (s t : Session) (a : App)
      → Agrees s a
      → Changes s t
      → s.rfb ≡ false
      → s.is_connected ≡ false
      → t.rfb ≡ true
      → Agrees t (on_made auto_sync f a)
  unfolding on_made View.step View.connect Step.step Clipboard.step update_host_clipboard_sync
      sync_with_permissions update_clipboard Focus.step Focus.connect update_view_only
  made-Agrees f s t a v c none_before off made = record {
    view_rfb = ground (arith, v.view_rfb);
    view_connected = ground (arith, v.view_rfb, v.view_connected, c.made_first);
    bar_rfb = ground arith;
    clipboard_rfb = ground (arith, v.clipboard_rfb);
    touch_rfb = ground (arith, v.touch_rfb);
    bar_hidden = ground (arith, v.bar_hidden, c.made_first);
    first = ground (arith, v.first, c.first, c.made_first);
  }

  lost-Agrees :
      (f : Found) (s t : Session) (a : App)
      → Agrees s a
      → Changes s t
      → s.rfb ≡ true
      → t.rfb ≡ false
      → Agrees t (on_lost auto_sync f a)
  unfolding on_lost View.step View.disconnect_finished Step.step hide_anchor close_controlbar
      Clipboard.step Focus.step
  lost-Agrees f s t a v c before gone = record {
    view_rfb = ground (arith, v.view_rfb);
    view_connected = ground (arith, v.view_rfb, c.lost_last);
    bar_rfb = ground arith;
    clipboard_rfb = ground arith;
    touch_rfb = ground arith;
    bar_hidden = ground (arith, c.lost_last);
    first = ground (arith, v.first, c.first, c.lost_last);
  }

  connected-Agrees :
      (f : Found) (s t : Session) (a : App)
      → Agrees s a
      → Changes s t
      → s.rfb ≡ true
      → t.rfb ≡ true
      → s.is_connected ≡ false
      → t.is_connected ≡ true
      → Agrees t (on_connected auto_sync f a)
  unfolding on_connected View.step View.connect_finished update_view_clip update_view_drag Step.step
      show_anchor open_controlbar close_controlbar canvas_focused Focus.step
  connected-Agrees f s t a v c before after off on = record {
    view_rfb = ground (arith, v.view_rfb, v.view_connected);
    view_connected = ground (arith, v.view_rfb, v.view_connected);
    bar_rfb = ground (arith, v.bar_rfb);
    clipboard_rfb = ground (arith, v.clipboard_rfb);
    touch_rfb = ground (arith, v.touch_rfb, focus-rfb Focus.screen a.touch);
    bar_hidden = ground arith;
    first = ground (arith, v.first, c.first);
  }

  pub same-Agrees :
      (s t : Session) (a : App)
      → Agrees s a
      → Changes s t
      → s.rfb ≡ t.rfb
      → s.is_connected ≡ t.is_connected
      → Agrees t a
  same-Agrees s t a v c r e = record {
    view_rfb = ground (arith, v.view_rfb);
    view_connected = ground (arith, v.view_connected);
    bar_rfb = ground (arith, v.bar_rfb);
    clipboard_rfb = ground (arith, v.clipboard_rfb);
    touch_rfb = ground (arith, v.touch_rfb);
    bar_hidden = ground (arith, v.bar_hidden);
    first = ground (arith, v.first, c.first);
  }

  pub follow-Agrees :
      (f : Found) (s : Session) (a : App)
      → SessionInv s
      → Agrees s a
      → Changes s a.page.session
      → Agrees a.page.session (follow auto_sync f s a)
  unfolding follow
  follow-Agrees f s a w v c =
      let t = a.page.session in
      if_holds (Agrees t) (s.rfb && not t.rfb) (on_lost auto_sync f a) _
        (λ e. lost-Agrees f s t a v c (ground arith) (ground arith))
        (λ stays.
          if_holds (Agrees t) (not s.rfb && t.rfb) (on_made auto_sync f a) _
            (λ e. made-Agrees f s t a v c (ground arith) (ground (arith, w.on_rfb)) (ground arith))
            (λ old.
              if_holds (Agrees t) (not s.is_connected && t.is_connected)
                (on_connected auto_sync f a) a
                (λ e.
                  connected-Agrees f s t a v c (ground (arith, c.made_first))
                    (ground (arith, c.lost_last, c.made_first)) (ground arith) (ground arith))
                (λ e.
                  same-Agrees s t a v c (ground arith)
                    (ground (arith, c.stays, c.lost_last, c.made_first, w.on_rfb)))))
