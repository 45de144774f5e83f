-- ===== src/App/Invariant.antt =====
-- The parts of the page of app/ui.js agree on the RFB object and the connection, and keep their own
-- invariants, whatever happens.
use docker_baseimage_gui.Prelude.{
  Bool, true, false, not, none, List, [], ◌∷◌, ◌≡◌, refl, sym, ap, ◌∙◌, arith, if◌then◌else◌,
}
use docker_baseimage_gui.Ui.Session.{Session}
use docker_baseimage_gui.Ui.Session
use docker_baseimage_gui.Ui.Session.Invariant.{SessionInv, makes_rfb, start-SessionInv}
use docker_baseimage_gui.Ui.View.{View, update_view_drag, update_view_clip}
use docker_baseimage_gui.Ui.View
use docker_baseimage_gui.Ui.View.Invariant.{step-ViewInv, loaded-ViewInv}
use docker_baseimage_gui.Ui.ControlBar.{ControlBar, Layout, toggle_controlbar_side}
use docker_baseimage_gui.Ui.ControlBar.Step
use docker_baseimage_gui.Ui.ControlBar.Timers.{BarInv, step-BarInv, start-BarInv}
use docker_baseimage_gui.Ui.Clipboard.{
  Clipboard, Permission, update_host_clipboard_sync, sync_with_permissions, update_clipboard,
}
use docker_baseimage_gui.Ui.Clipboard
use docker_baseimage_gui.Ui.Clipboard.Invariant.{step-ClipboardInv, loaded-ClipboardInv}
use docker_baseimage_gui.Ui.Keyboard.Focus.{Touch, ShowsFocus, step-ShowsFocus, update_view_only}
use docker_baseimage_gui.Ui.Keyboard.Focus
use docker_baseimage_gui.Page.{Features, Page}
use docker_baseimage_gui.Page
use docker_baseimage_gui.App.{
  App, Config, loaded, start, Found, Event, session_event, page_event, view_event, bar_event,
  clipboard_event, touch_event, is_own_view, is_own_bar, is_own_clipboard, is_own_touch,
  is_own_page, closes_bar, on_page, step, run,
}
use docker_baseimage_gui.App.Agreement.{Changes}
use docker_baseimage_gui.App.Own.{
  own_view, own_clipboard, own_touch, SameBar, own_bar, modal_opened-SameBar, own_page,
  own_page-SessionInv,
}
use docker_baseimage_gui.App.Following.{Agrees, if_holds}
use docker_baseimage_gui.Ui.Startup.{features}
use docker_baseimage_gui.App.Parts.{Parts, AppInv, followed-AppInv, session-AppInv}

closed_bar :
    (l : Layout) (b : Bool) (s : ControlBar)
    → SameBar s (if b then Step.step l Step.modal_opened s else s)
closed_bar l true s = modal_opened-SameBar l s
closed_bar l false s = record { same_rfb = refl; same_anchor = refl; same_first = refl }

module _ (auto_sync : Permission → Bool → Bool) where
  -- An event of the rest of the page, or of another part.
  own-AppInv :
      (k : Features) (l : Layout) (e : Page.Event) (a : App)
      → is_own_page e ≡ true
      → AppInv auto_sync a
      → AppInv auto_sync (on_page k l e a)
  unfolding on_page
  own-AppInv k l e a h v =
      let q = Page.step k e a.page in
      let p = own_page k e a.page h in
      let b = closed_bar l (closes_bar k e) a.bar in
      record {
        session_inv = own_page-SessionInv k e a.page h v.session_inv;
        agrees = record {
          view_rfb = v.agrees.view_rfb ∙ sym p.same_rfb;
          view_connected = v.agrees.view_connected ∙ sym p.same_connected;
          bar_rfb = b.same_rfb ∙ (v.agrees.bar_rfb ∙ sym p.same_rfb);
          clipboard_rfb = v.agrees.clipboard_rfb ∙ sym p.same_rfb;
          touch_rfb = v.agrees.touch_rfb ∙ sym p.same_rfb;
          bar_hidden = b.same_anchor ∙ (v.agrees.bar_hidden ∙ sym (ap not p.same_connected));
          first = b.same_first ∙ (v.agrees.first ∙ sym p.same_first);
        };
        parts = record {
          view_inv = v.parts.view_inv;
          bar_inv = λ j.
              if_holds (BarInv j) (closes_bar k e) _ a.bar
                (λ c. step-BarInv j l Step.modal_opened a.bar (v.parts.bar_inv j))
                (λ c. v.parts.bar_inv j);
          clipboard_inv = v.parts.clipboard_inv;
          touch_inv = v.parts.touch_inv;
        };
      }

  view-AppInv :
      (e : View.Event) (a : App)
      → is_own_view e ≡ true
      → AppInv auto_sync a
      → AppInv auto_sync (record a { view = View.step e a.view })
  view-AppInv e a h v =
      let (rfb, connected) = own_view e a.view h in
      record {
        session_inv = v.session_inv;
        agrees = record {
          view_rfb = rfb ∙ v.agrees.view_rfb;
          view_connected = connected ∙ v.agrees.view_connected;
          bar_rfb = v.agrees.bar_rfb;
          clipboard_rfb = v.agrees.clipboard_rfb;
          touch_rfb = v.agrees.touch_rfb;
          bar_hidden = v.agrees.bar_hidden;
          first = v.agrees.first;
        };
        parts = record {
          view_inv = step-ViewInv e a.view v.parts.view_inv;
          bar_inv = v.parts.bar_inv;
          clipboard_inv = v.parts.clipboard_inv;
          touch_inv = v.parts.touch_inv;
        };
      }

  bar-AppInv :
      (l : Layout) (e : Step.Event) (a : App)
      → is_own_bar e ≡ true
      → AppInv auto_sync a
      → AppInv auto_sync (record a { bar = Step.step l e a.bar })
  bar-AppInv l e a h v =
      let b = own_bar l e a.bar h in
      record {
        session_inv = v.session_inv;
        agrees = record {
          view_rfb = v.agrees.view_rfb;
          view_connected = v.agrees.view_connected;
          bar_rfb = b.same_rfb ∙ v.agrees.bar_rfb;
          clipboard_rfb = v.agrees.clipboard_rfb;
          touch_rfb = v.agrees.touch_rfb;
          bar_hidden = b.same_anchor ∙ v.agrees.bar_hidden;
          first = b.same_first ∙ v.agrees.first;
        };
        parts = record {
          view_inv = v.parts.view_inv;
          bar_inv = λ j. step-BarInv j l e a.bar (v.parts.bar_inv j);
          clipboard_inv = v.parts.clipboard_inv;
          touch_inv = v.parts.touch_inv;
        };
      }

  clipboard-AppInv :
      (e : Clipboard.Event auto_sync) (a : App)
      → is_own_clipboard auto_sync e ≡ true
      → AppInv auto_sync a
      → AppInv auto_sync (record a { clipboard = Clipboard.step auto_sync e a.clipboard })
  clipboard-AppInv e a h v = record {
    session_inv = v.session_inv;
    agrees = record {
      view_rfb = v.agrees.view_rfb;
      view_connected = v.agrees.view_connected;
      bar_rfb = v.agrees.bar_rfb;
      clipboard_rfb = own_clipboard auto_sync e a.clipboard h ∙ v.agrees.clipboard_rfb;
      touch_rfb = v.agrees.touch_rfb;
      bar_hidden = v.agrees.bar_hidden;
      first = v.agrees.first;
    };
    parts = record {
      view_inv = v.parts.view_inv;
      bar_inv = v.parts.bar_inv;
      clipboard_inv = step-ClipboardInv auto_sync e a.clipboard v.parts.clipboard_inv;
      touch_inv = v.parts.touch_inv;
    };
  }

  touch-AppInv :
      (e : Focus.Event) (a : App)
      → is_own_touch e ≡ true
      → AppInv auto_sync a
      → AppInv auto_sync (record a { touch = Focus.step e a.touch })
  touch-AppInv e a h v = record {
    session_inv = v.session_inv;
    agrees = record {
      view_rfb = v.agrees.view_rfb;
      view_connected = v.agrees.view_connected;
      bar_rfb = v.agrees.bar_rfb;
      clipboard_rfb = v.agrees.clipboard_rfb;
      touch_rfb = own_touch e a.touch h ∙ v.agrees.touch_rfb;
      bar_hidden = v.agrees.bar_hidden;
      first = v.agrees.first;
    };
    parts = record {
      view_inv = v.parts.view_inv;
      bar_inv = v.parts.bar_inv;
      clipboard_inv = v.parts.clipboard_inv;
      touch_inv = step-ShowsFocus e a.touch v.parts.touch_inv;
    };
  }

  -- The session makes an RFB object whenever it tries to.
  abbrev pub makes : Event auto_sync → Bool
  makes (session_event f e) = makes_rfb e
  makes e = true

  abbrev pub AllMake : List (Event auto_sync) → Type 0
  AllMake [] = Unit
  AllMake (e ∷ es) = (makes e ≡ true) × AllMake es

  pub step-AppInv :
      (k : Features) (e : Event auto_sync) (a : App)
      → makes e ≡ true
      → AppInv auto_sync a
      → AppInv auto_sync (step k auto_sync e a)
  step-AppInv k (session_event f e) a m v = session-AppInv auto_sync k f e a m v
  step-AppInv k (page_event l e) a m v =
      unfold step in
      if_holds (AppInv auto_sync) (is_own_page e) (on_page k l e a) a (λ h. own-AppInv k l e a h v)
        (λ h. v)
  step-AppInv k (view_event e) a m v =
      unfold step in
      if_holds (AppInv auto_sync) (is_own_view e) _ a (λ h. view-AppInv e a h v) (λ h. v)
  step-AppInv k (bar_event l e) a m v =
      unfold step in
      if_holds (AppInv auto_sync) (is_own_bar e) _ a (λ h. bar-AppInv l e a h v) (λ h. v)
  step-AppInv k (clipboard_event e) a m v =
      unfold step in
      if_holds (AppInv auto_sync) (is_own_clipboard auto_sync e) _ a (λ h. clipboard-AppInv e a h v)
        (λ h. v)
  step-AppInv k (touch_event e) a m v =
      unfold step in
      if_holds (AppInv auto_sync) (is_own_touch e) _ a (λ h. touch-AppInv e a h v) (λ h. v)

  run-AppInv :
      (k : Features) (es : List (Event auto_sync)) (a : App)
      → AllMake es
      → AppInv auto_sync a
      → AppInv auto_sync (run k auto_sync es a)
  unfolding run
  run-AppInv k [] a m v = v
  run-AppInv k (e ∷ es) a (m, ms) v =
      run-AppInv k es (step k auto_sync e a) ms (step-AppInv k e a m v)

  loaded-Agrees : (c : Config) → Agrees (loaded c).page.session (loaded c)
  unfolding loaded Page.loaded Session.unloaded View.loaded Step.start toggle_controlbar_side
      Clipboard.loaded Focus.loaded
  loaded-Agrees c = ground arith

  loaded-Parts : (c : Config) → Parts auto_sync (loaded c)
  unfolding loaded
  loaded-Parts c = record {
    view_inv = loaded-ViewInv c.has_scrollbar_gutter c.is_mobile c.resize c.view_clip;
    bar_inv = λ j. start-BarInv j c.environment.is_touch_device c.first_run c.controlbar_pos;
    clipboard_inv =
        loaded-ClipboardInv auto_sync c.web_data.host_clipboard_sync c.host_clipboard_sync;
    touch_inv = unfold Focus.loaded in refl;
  }

  loaded-SessionInv : (c : Config) → SessionInv (loaded c).page.session
  unfolding loaded Page.loaded Session.unloaded
  loaded-SessionInv c = ground arith

  started-SessionInv : (c : Config) → SessionInv (Session.start none (loaded c).page.session)
  unfolding loaded Page.loaded
  started-SessionInv c =
      start-SessionInv c.web_data.web_auth_support c.reconnect c.encrypt c.first_run c.password []

  start-Changes :
      (c : Config) → Changes (loaded c).page.session (Session.start none (loaded c).page.session)
  unfolding loaded Page.loaded Session.unloaded Session.start Session.connect
      Session.update_visual_state
  start-Changes c = ground arith

  pub start-AppInv : (f : Found) (c : Config) → AppInv auto_sync (start auto_sync f (loaded c))
  unfolding start
  start-AppInv f c =
      let a = loaded c in
      let q = record a.page { session = Session.start none a.page.session } in
      followed-AppInv auto_sync f a q (loaded-SessionInv c) (started-SessionInv c) (loaded-Agrees c)
        (loaded-Parts c) (start-Changes c)

  -- From the start of the page on, as long as no RFB constructor throws, and whatever happens: the view,
  -- the control bar, the clipboard and the virtual keyboard all see the RFB object of the session, and the
  -- view its connection; the control bar can be reached exactly while the session is connected; and the
  -- invariants of the session and of these parts hold all together.
  pub run-start-AppInv :
      (f : Found) (c : Config) (es : List (Event auto_sync))
      → AllMake es
      → AppInv auto_sync
          (run (features c.environment c.web_data) auto_sync es (start auto_sync f (loaded c)))
  run-start-AppInv f c es m =
      run-AppInv (features c.environment c.web_data) es (start auto_sync f (loaded c)) m
        (start-AppInv f c)
