-- ===== src/App/Calm.antt =====
-- The handlers of the clipboard in app/ui.js use the RFB object without a test: they are in the control
-- bar, which can be reached only while there is one.
use docker_baseimage_gui.Prelude.{
  Bool, true, false, ◌&&◌, none, List, [], ◌∷◌, ◌≡◌, refl, ◌∙◌, arith,
}
use docker_baseimage_gui.Ui.Clipboard.{
  Clipboard, Permission, clipboard_receive, clipboard_clear, clipboard_send, update_clipboard,
  handle_clipboard_auto_sync, handle_clipboard_auto_sync_rejected, sync_with_permissions,
  update_host_clipboard_sync,
}
use docker_baseimage_gui.Ui.Clipboard
use docker_baseimage_gui.Ui.Session.{Session}
use docker_baseimage_gui.Ui.Session
use docker_baseimage_gui.Ui.Startup.{features}
use docker_baseimage_gui.Page.{Features}
use docker_baseimage_gui.App.{
  App, Config, Found, Event, session_event, page_event, view_event, bar_event, clipboard_event,
  touch_event, is_own_clipboard, on_made, on_connected, on_lost, follow, on_page, loaded, start,
  step, run,
}
use docker_baseimage_gui.App.Following.{if_holds}
use docker_baseimage_gui.App.Parts.{AppInv}
use docker_baseimage_gui.App.Invariant.{makes, step-AppInv, start-AppInv}

module _ (auto_sync : Permission → Bool → Bool) where
  -- The text and the button of the clipboard stand in the control bar.
  abbrev pub is_in_bar : Event auto_sync → Bool
  is_in_bar (clipboard_event Clipboard.text_changed) = true
  is_in_bar (clipboard_event Clipboard.clear_clicked) = true
  is_in_bar e = false

  -- In a run the RFB objects can be made, and what stands in the control bar is used while the bar can be
  -- reached.
  abbrev pub Reached : Features → List (Event auto_sync) → App → Type 0
  Reached k [] a = Unit
  Reached k (e ∷ es) a =
      (makes auto_sync e ≡ true)
      × (is_in_bar e && a.bar.anchor_hidden ≡ false)
      × Reached k es (step k auto_sync e a)

  clipboard-calm :
      (e : Clipboard.Event auto_sync) (s : Clipboard)
      → (is_in_bar (clipboard_event e) ≡ true → s.rfb ≡ true)
      → (Clipboard.step auto_sync e s).threw ≡ s.threw
  unfolding Clipboard.step update_clipboard handle_clipboard_auto_sync
      handle_clipboard_auto_sync_rejected sync_with_permissions update_host_clipboard_sync
      clipboard_receive clipboard_send clipboard_clear
  clipboard-calm (Clipboard.rfb_made p b) s h = ground arith
  clipboard-calm Clipboard.rfb_gone s h = ground arith
  clipboard-calm Clipboard.sync_rejected s h = ground arith
  clipboard-calm Clipboard.text_changed s h = ground (arith, h refl)
  clipboard-calm Clipboard.clear_clicked s h = ground (arith, h refl)
  clipboard-calm (Clipboard.permission_changed p q) s h = ground arith
  clipboard-calm (Clipboard.setting_clicked b) s h = ground arith
  clipboard-calm (Clipboard.permissions_answered p) s h = ground arith
  clipboard-calm (Clipboard.access_answered p) s h = ground arith
  clipboard-calm (Clipboard.received t) s h = ground arith

  follow-calm :
      (f : Found) (s : Session) (a : App)
      → (follow auto_sync f s a).clipboard.threw ≡ a.clipboard.threw
  unfolding follow on_lost on_made on_connected
  follow-calm f s a = ground (
    arith,
    clipboard-calm (Clipboard.rfb_made f.permission f.sync_enabled) a.clipboard,
    clipboard-calm Clipboard.rfb_gone a.clipboard,
  )

  -- While the bar can be reached, the clipboard has its RFB object.
  bar-rfb : (a : App) → AppInv auto_sync a → a.bar.anchor_hidden ≡ false → a.clipboard.rfb ≡ true
  bar-rfb a v shown =
      ground (arith, v.agrees.clipboard_rfb, v.agrees.bar_hidden, v.session_inv.on_rfb)

  step-calm :
      (k : Features) (e : Event auto_sync) (a : App)
      → AppInv auto_sync a
      → is_in_bar e && a.bar.anchor_hidden ≡ false
      → (step k auto_sync e a).clipboard.threw ≡ a.clipboard.threw
  unfolding step on_page
  step-calm k (session_event f e) a v h = follow-calm f a.page.session _
  step-calm k (page_event l e) a v h = ground arith
  step-calm k (view_event e) a v h = ground arith
  step-calm k (bar_event l e) a v h = ground arith
  step-calm k (clipboard_event e) a v h =
      if_holds (λ (b : App). b.clipboard.threw ≡ a.clipboard.threw) (is_own_clipboard auto_sync e) _
        a (λ own. clipboard-calm e a.clipboard (λ g. bar-rfb a v (ground arith))) (λ other. refl)
  step-calm k (touch_event e) a v h = ground arith

  started-calm : (f : Found) (c : Config) → (start auto_sync f (loaded c)).clipboard.threw ≡ false
  unfolding start loaded Clipboard.loaded
  started-calm f c =
      let a = loaded c in
      follow-calm f a.page.session
        (record a { page = record a.page { session = Session.start none a.page.session } })

  run-calm :
      (k : Features) (es : List (Event auto_sync)) (a : App)
      → AppInv auto_sync a
      → Reached k es a
      → (run k auto_sync es a).clipboard.threw ≡ a.clipboard.threw
  unfolding run
  run-calm k [] a v h = refl
  run-calm k (e ∷ es) a v (m, h, rest) =
      run-calm k es (step k auto_sync e a) (step-AppInv auto_sync k e a m v) rest
      ∙ step-calm k e a v h

  -- From the start of the page on, as long as no RFB constructor throws, and the text and the button of
  -- the clipboard are used only while the control bar can be reached, no handler of the clipboard throws,
  -- whatever happens to the connection.
  pub run-start-calm :
      (f : Found) (c : Config) (es : List (Event auto_sync))
      → Reached (features c.environment c.web_data) es (start auto_sync f (loaded c))
      → (run
          (features c.environment c.web_data)
          auto_sync
          es
          (start auto_sync f (loaded c))).clipboard.threw
        ≡ false
  run-start-calm f c es h =
      let k = features c.environment c.web_data in
      let a = start auto_sync f (loaded c) in
      run-calm k es a (start-AppInv auto_sync f c) h ∙ started-calm f c
