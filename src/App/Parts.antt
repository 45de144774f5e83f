-- ===== src/App/Parts.antt =====
-- What holds of all parts of the page of app/ui.js together, and the events of the session.
use docker_baseimage_gui.Prelude.{ℕ, Bool, true, not, ◌&&◌, [], ◌≡◌, sym, subst, ap, arith}
use docker_baseimage_gui.Ui.Session.{Session}
use docker_baseimage_gui.Ui.Session
use docker_baseimage_gui.Ui.Session.Invariant.{SessionInv, makes_rfb, step-SessionInv}
use docker_baseimage_gui.Ui.View.{View, update_view_drag, update_view_clip}
use docker_baseimage_gui.Ui.View
use docker_baseimage_gui.Ui.View.Invariant.{ViewInv, step-ViewInv}
use docker_baseimage_gui.Ui.ControlBar.Step
use docker_baseimage_gui.Ui.ControlBar.Timers.{BarInv, step-BarInv}
use docker_baseimage_gui.Ui.Clipboard.{
  Clipboard, Permission, update_host_clipboard_sync, sync_with_permissions, update_clipboard,
}
use docker_baseimage_gui.Ui.Clipboard
use docker_baseimage_gui.Ui.Clipboard.Invariant.{ClipboardInv, step-ClipboardInv}
use docker_baseimage_gui.Ui.Keyboard.Focus.{Touch, ShowsFocus, step-ShowsFocus, update_view_only}
use docker_baseimage_gui.Ui.Keyboard.Focus
use docker_baseimage_gui.Page.{Features, Page}
use docker_baseimage_gui.Page
use docker_baseimage_gui.App.{
  App, Found, session_event, on_made, on_connected, on_lost, follow, step,
}
use docker_baseimage_gui.App.Agreement.{Changes, step-Changes, session_event-session}
use docker_baseimage_gui.App.Following.{Agrees, if_holds, follow-Agrees}
use docker_baseimage_gui.Ui.Session.{unloaded, start}

same_calls-SessionInv : (s : Session) → SessionInv s → SessionInv (record s { calls = [] })
same_calls-SessionInv s v = ground arith

calls-Changes : (s t : Session) → Changes (record s { calls = [] }) t → Changes s t
calls-Changes s t c = record {
  made_first = c.made_first;
  lost_last = c.lost_last;
  stays = c.stays;
  first = c.first;
}

page-Agrees : (s : Session) (a : App) (q : Page) → Agrees s a → Agrees s (record a { page = q })
page-Agrees s a q v = record {
  view_rfb = v.view_rfb;
  view_connected = v.view_connected;
  bar_rfb = v.bar_rfb;
  clipboard_rfb = v.clipboard_rfb;
  touch_rfb = v.touch_rfb;
  bar_hidden = v.bar_hidden;
  first = v.first;
}

module _ (auto_sync : Permission → Bool → Bool) where
  -- What each part keeps to by itself.
  pub record Parts (a : App) : Type 0 where
    pub view_inv : ViewInv a.view
    pub bar_inv : (j : ℕ) → BarInv j a.bar
    pub clipboard_inv : ClipboardInv auto_sync a.clipboard
    pub touch_inv : ShowsFocus a.touch

  pub record AppInv (a : App) : Type 0 where
    pub session_inv : SessionInv a.page.session
    pub agrees : Agrees a.page.session a
    pub parts : Parts a

  page-Parts : (a : App) (q : Page) → Parts a → Parts (record a { page = q })
  page-Parts a q v = record {
    view_inv = v.view_inv;
    bar_inv = v.bar_inv;
    clipboard_inv = v.clipboard_inv;
    touch_inv = v.touch_inv;
  }

  follow-Parts : (f : Found) (s : Session) (a : App) → Parts a → Parts (follow auto_sync f s a)
  unfolding follow on_lost on_made on_connected
  follow-Parts f s a v =
      let t = a.page.session in
      if_holds Parts (s.rfb && not t.rfb) (on_lost auto_sync f a) _
        (λ e. record {
          view_inv = step-ViewInv View.rfb_disconnected a.view v.view_inv;
          bar_inv = λ j. step-BarInv j f.layout Step.session_ended a.bar (v.bar_inv j);
          clipboard_inv =
              step-ClipboardInv auto_sync Clipboard.rfb_gone a.clipboard v.clipboard_inv;
          touch_inv = step-ShowsFocus Focus.rfb_gone a.touch v.touch_inv;
        })
        (λ stays.
          if_holds Parts (not s.rfb && t.rfb) (on_made auto_sync f a) _
            (λ e. record {
              view_inv = step-ViewInv (View.rfb_made f.clipping) a.view v.view_inv;
              bar_inv = λ j. step-BarInv j f.layout Step.rfb_made a.bar (v.bar_inv j);
              clipboard_inv =
                  step-ClipboardInv auto_sync (Clipboard.rfb_made f.permission f.sync_enabled)
                    a.clipboard v.clipboard_inv;
              touch_inv = step-ShowsFocus (Focus.rfb_made f.view_only) a.touch v.touch_inv;
            })
            (λ old.
              if_holds Parts (not s.is_connected && t.is_connected) (on_connected auto_sync f a) a
                (λ e. record {
                  view_inv = step-ViewInv View.rfb_connected a.view v.view_inv;
                  bar_inv = λ j. step-BarInv j f.layout Step.session_connected a.bar (v.bar_inv j);
                  clipboard_inv = v.clipboard_inv;
                  touch_inv = step-ShowsFocus Focus.rfb_connected a.touch v.touch_inv;
                })
                (λ e. v)))

  follow-page : (f : Found) (s : Session) (a : App) → (follow auto_sync f s a).page ≡ a.page
  unfolding follow on_lost on_made on_connected
  follow-page f s a = ground arith

  -- The handler of the session has run: the other parts follow.
  pub followed-AppInv :
      (f : Found) (a : App) (q : Page)
      → SessionInv a.page.session
      → SessionInv q.session
      → Agrees a.page.session a
      → Parts a
      → Changes a.page.session q.session
      → AppInv (follow auto_sync f a.page.session (record a { page = q }))
  followed-AppInv f a q v w agrees parts c =
      let b = follow auto_sync f a.page.session (record a { page = q }) in
      let session : b.page.session ≡ q.session =
        ap (λ (p : Page). p.session) (follow-page f a.page.session (record a { page = q })) in
      record {
        session_inv = subst SessionInv (sym session) w;
        agrees =
            subst (λ t. Agrees t b) (sym session)
              (follow-Agrees auto_sync f a.page.session (record a { page = q }) v
                (page-Agrees a.page.session a q agrees) c);
        parts = follow-Parts f a.page.session (record a { page = q }) (page-Parts a q parts);
      }

  -- An event of the session.
  pub session-AppInv :
      (k : Features) (f : Found) (e : Session.Event) (a : App)
      → makes_rfb e ≡ true
      → AppInv a
      → AppInv (step k auto_sync (session_event f e) a)
  unfolding step
  session-AppInv k f e a m v =
      let s = record a.page.session { calls = [] } in
      let q = Page.step k (Page.session_event e) a.page in
      let same : q.session ≡ Session.step e s = session_event-session k e a.page in
      let w : SessionInv s = same_calls-SessionInv a.page.session v.session_inv in
      followed-AppInv f a q v.session_inv (subst SessionInv (sym same) (step-SessionInv e s m w))
        v.agrees v.parts
        (subst (Changes a.page.session) (sym same)
          (calls-Changes a.page.session _ (step-Changes e s m w)))
