-- ===== src/Ui/Clipboard/Invariant.antt =====
-- What the clipboard of app/ui.js keeps to through the synchronisation with the host's clipboard.
use docker_baseimage_gui.Prelude.{Bool, true, false, not, Option, List, [], ◌∷◌, ◌≡◌, arith, All}
use docker_baseimage_gui.Ui.Clipboard.{
  Permission, denied, Clipboard, clipboard_receive, clipboard_clear, clipboard_send,
  update_clipboard, handle_clipboard_auto_sync, handle_clipboard_auto_sync_rejected,
  sync_with_permissions, update_host_clipboard_sync, Event, rfb_made, rfb_gone, sync_rejected,
  text_changed, clear_clicked, permission_changed, setting_clicked, permissions_answered,
  access_answered, received, step, run, loaded,
}

module _ (auto_sync : Permission → Bool → Bool) where
  -- The section is hidden exactly while there are no handlers; the control shows the setting, and where
  -- it is disabled the setting is off. With an RFB object and no call that waits, the section is hidden
  -- exactly if noVNC synchronises, and the texts of the server are received exactly if it is shown; and
  -- once the permissions are known, a disabled control means that the synchronisation is off.
  pub record ClipboardInv (s : Clipboard) : Type 0 where
    pub handled : s.section_hidden ≡ not s.has_handlers
    pub checked : s.control_checked ≡ s.setting
    pub off : s.control_disabled ≡ true → s.setting ≡ false
    pub settled :
        s.rfb ≡ true
        → s.awaiting_permissions ≡ 0
        → s.awaiting_access ≡ 0
        → (s.section_hidden ≡ auto_sync s.permission s.sync_enabled) × (s.receives ≡ s.has_handlers)
    pub stopped :
        s.rfb ≡ true
        → s.awaiting_permissions ≡ 0
        → s.control_disabled ≡ true
        → s.sync_enabled ≡ false
    pub alone : s.rfb ≡ false → s.receives ≡ false

  pub step-ClipboardInv :
      (e : Event auto_sync) (s : Clipboard) → ClipboardInv s → ClipboardInv (step auto_sync e s)
  unfolding step update_clipboard handle_clipboard_auto_sync handle_clipboard_auto_sync_rejected
      sync_with_permissions update_host_clipboard_sync clipboard_receive clipboard_send
      clipboard_clear
  step-ClipboardInv (rfb_made p b) s v = ground arith
  step-ClipboardInv rfb_gone s v = ground arith
  step-ClipboardInv sync_rejected s v = ground arith
  step-ClipboardInv text_changed s v = ground arith
  step-ClipboardInv clear_clicked s v = ground arith
  step-ClipboardInv (permission_changed p previous) s v = ground arith
  step-ClipboardInv (setting_clicked b) s v = ground arith
  step-ClipboardInv (permissions_answered p) s v = ground arith
  step-ClipboardInv (access_answered p) s v = ground arith
  step-ClipboardInv (received t) s v = ground arith

  -- What noVNC's calls wait for is answered, a setting is clicked, or texts are exchanged.
  abbrev pub finds_denied : Event auto_sync → Bool
  finds_denied (permissions_answered denied) = true
  finds_denied (access_answered denied) = true
  finds_denied (setting_clicked b) = true
  finds_denied sync_rejected = true
  finds_denied text_changed = true
  finds_denied clear_clicked = true
  finds_denied (received t) = true
  finds_denied e = false

  abbrev pub AllDenied : List (Event auto_sync) → Type 0
  AllDenied es = All (λ e. finds_denied e ≡ true) es

  record IsDenied (s : Clipboard) : Type 0 where
    with_rfb : s.rfb ≡ true
    refused : s.permission ≡ denied
    no_setting : s.setting ≡ false
    no_check : s.control_checked ≡ false
    no_control : s.control_disabled ≡ true
    no_sync : s.sync_enabled ≡ false

  becomes-IsDenied :
      (previous : Option Permission) (s : Clipboard)
      → s.rfb ≡ true
      → IsDenied (step auto_sync (permission_changed denied previous) s)
  unfolding step update_clipboard handle_clipboard_auto_sync
  becomes-IsDenied previous s h = ground arith

  step-IsDenied :
      (e : Event auto_sync) (s : Clipboard)
      → finds_denied e ≡ true
      → IsDenied s
      → IsDenied (step auto_sync e s)
  unfolding step update_clipboard handle_clipboard_auto_sync_rejected sync_with_permissions
      clipboard_receive clipboard_send clipboard_clear
  step-IsDenied (rfb_made p b) s h v = absurd (ground arith)
  step-IsDenied rfb_gone s h v = absurd (ground arith)
  step-IsDenied sync_rejected s h v = ground arith
  step-IsDenied text_changed s h v = ground arith
  step-IsDenied clear_clicked s h v = ground arith
  step-IsDenied (permission_changed p previous) s h v = absurd (ground arith)
  step-IsDenied (setting_clicked b) s h v = ground arith
  step-IsDenied (permissions_answered denied) s h v = ground arith
  step-IsDenied (permissions_answered p) s h v = absurd (ground arith)
  step-IsDenied (access_answered denied) s h v = ground arith
  step-IsDenied (access_answered p) s h v = absurd (ground arith)
  step-IsDenied (received t) s h v = ground arith

  run-IsDenied :
      (es : List (Event auto_sync)) (s : Clipboard)
      → AllDenied es
      → IsDenied s
      → IsDenied (run auto_sync es s)
  unfolding run
  run-IsDenied [] s a v = v
  run-IsDenied (e ∷ es) s (a, rest) v =
      run-IsDenied es (step auto_sync e s) rest (step-IsDenied e s a v)

  run-ClipboardInv :
      (es : List (Event auto_sync)) (s : Clipboard)
      → ClipboardInv s
      → ClipboardInv (run auto_sync es s)
  unfolding run
  run-ClipboardInv [] s v = v
  run-ClipboardInv (e ∷ es) s v = run-ClipboardInv es (step auto_sync e s) (step-ClipboardInv e s v)

  pub loaded-ClipboardInv : (host setting : Bool) → ClipboardInv (loaded host setting)
  unfolding loaded
  loaded-ClipboardInv host setting = ground arith

  -- Whatever noVNC synchronises by: from the start of the page on, the clipboard section is hidden
  -- exactly while it has no handlers, and the control shows the setting, which is off where it is
  -- disabled. With an RFB object and no call of updateHostClipboardSync that waits, the section is hidden
  -- exactly if noVNC synchronises, texts of the server are received exactly if it is shown, and a
  -- disabled control means that the synchronisation is off.
  pub run-loaded-ClipboardInv :
      (host setting : Bool) (es : List (Event auto_sync))
      → ClipboardInv (run auto_sync es (loaded host setting))
  run-loaded-ClipboardInv host setting es =
      run-ClipboardInv es (loaded host setting) (loaded-ClipboardInv host setting)

  -- Once the browser has denied the permission, the setting is off, its control disabled and showing
  -- so, and nothing synchronises. It stays so whatever the order in which texts are exchanged, the
  -- control is clicked and the calls that still wait are answered, as long as these find the permission
  -- denied and the RFB object stays.
  pub denied-stays_off :
      (previous : Option Permission) (es : List (Event auto_sync)) (s : Clipboard)
      → s.rfb ≡ true
      → AllDenied es
      → let t = run auto_sync es (step auto_sync (permission_changed denied previous) s) in
        (t.setting ≡ false)
        × (t.control_checked ≡ false)
        × (t.control_disabled ≡ true)
        × (t.sync_enabled ≡ false)
  denied-stays_off previous es s h a =
      let v = run-IsDenied es _ a (becomes-IsDenied previous s h) in
      (v.no_setting, v.no_check, v.no_control, v.no_sync)
