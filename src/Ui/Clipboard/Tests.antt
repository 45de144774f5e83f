-- ===== src/Ui/Clipboard/Tests.antt =====
-- Concrete runs of the clipboard of app/ui.js.
use docker_baseimage_gui.Prelude.{Bool, true, false, some, List, [], ◌∷◌, ◌≡◌, refl}
use docker_baseimage_gui.Ui.Clipboard.{
  Permission, granted, denied, prompt, Clipboard, Event, rfb_made, permission_changed,
  setting_clicked, permissions_answered, access_answered, loaded, step, run, update_clipboard,
  sync_with_permissions, update_host_clipboard_sync,
}
use docker_baseimage_gui.Ui.Clipboard.Invariant.{
  ClipboardInv, run-loaded-ClipboardInv, denied-stays_off,
}

-- noVNC synchronises where it is enabled and permitted.
abbrev auto_sync : Permission → Bool → Bool
auto_sync granted b = b
auto_sync p b = false

abbrev events : List (Event auto_sync)
events = rfb_made prompt false ∷ permissions_answered prompt ∷ access_answered granted ∷ []

abbrev synchronised : Clipboard
synchronised = run auto_sync events (loaded true true)

hidden : (synchronised.section_hidden ≡ true) × (synchronised.has_handlers ≡ false)
unfolding run step loaded update_clipboard sync_with_permissions update_host_clipboard_sync
hidden = (refl, refl)

run-loaded-ClipboardInv_example : ClipboardInv auto_sync (run auto_sync events (loaded true true))
run-loaded-ClipboardInv_example = run-loaded-ClipboardInv auto_sync true true events

-- The setting is clicked while the control was still enabled, and its call finds the denial.
abbrev answers : List (Event auto_sync)
answers = setting_clicked true ∷ permissions_answered denied ∷ access_answered denied ∷ []

denied-stays_off_example :
    let t =
      run auto_sync answers
        (step auto_sync (permission_changed denied (some granted)) synchronised) in
    (t.setting ≡ false)
    × (t.control_checked ≡ false)
    × (t.control_disabled ≡ true)
    × (t.sync_enabled ≡ false)
unfolding run step loaded update_clipboard sync_with_permissions update_host_clipboard_sync
denied-stays_off_example =
    denied-stays_off auto_sync (some granted) answers synchronised refl (refl, (refl, (refl, tt)))
