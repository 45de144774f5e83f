-- ===== src/Ui/Clipboard.antt =====
-- The clipboard: clipboardReceive, clipboardClear, clipboardSend and the synchronisation with the
-- clipboard of the host, updateClipboard to updateHostClipboardSync of app/ui.js. An `await` splits a
-- function: what follows it is an event of its own. Whether noVNC synchronises is its own property
-- clipboardAutoSync, a parameter that depends on the permission and on clipboardAutoSyncEnabled.
pub mod Invariant
mod Tests
use docker_baseimage_gui.Prelude.{
  ℕ, suc, ◌+◌, ◌-◌, Bool, true, false, not, ◌&&◌, ◌||◌, Option, none, some, List, [], ◌∷◌, ltb,
  if◌then◌else◌,
}
use docker_baseimage_gui.Prelude.Text.{Text}

-- UI.rfb.clipboardAutoSyncPermission; `unknown` is any other value.
pub data Permission : Type 0 where
  granted denied prompt unknown : Permission

pub record Clipboard : Type 0 where
  -- UI.webData.hostClipboardSync, UI.rfb is defined.
  pub host_clipboard_sync : Bool
  pub rfb : Bool
  -- The properties of the RFB object, and whether clipboardReceive is among its listeners.
  pub permission : Permission
  pub sync_enabled : Bool
  pub receives : Bool
  -- The setting host_clipboard_sync with its control.
  pub setting : Bool
  pub control_checked : Bool
  pub control_disabled : Bool
  -- The handlers of the text and of the clear button, noVNC_clipboard_section, noVNC_clipboard_text.
  pub has_handlers : Bool
  pub section_hidden : Bool
  pub text : Text
  -- What was given to clipboardPasteFrom, the newest first.
  pub pasted : List Text
  -- Calls of updateHostClipboardSync that wait for the permissions, or for the access.
  pub awaiting_permissions : ℕ
  pub awaiting_access : ℕ
  -- A handler has thrown.
  pub threw : Bool

abbrev pub add_clipboard_handlers : Clipboard → Clipboard
add_clipboard_handlers s = record s { has_handlers = true }

abbrev pub remove_clipboard_handlers : Clipboard → Clipboard
remove_clipboard_handlers s = record s { has_handlers = false }

unfoldable pub clipboard_receive : Text → Clipboard → Clipboard
clipboard_receive t s = record s { text = t }

-- Without an RFB object clipboardPasteFrom throws.
abbrev pub paste : Text → Clipboard → Clipboard
paste t s = if s.rfb then record s { pasted = t ∷ s.pasted } else record s { threw = true }

unfoldable pub clipboard_clear : Clipboard → Clipboard
clipboard_clear s = paste [] (record s { text = [] })

unfoldable pub clipboard_send : Clipboard → Clipboard
clipboard_send s = paste s.text s

-- The setting is written as false, its control updated, and the synchronisation turned off.
abbrev pub turn_off : Clipboard → Clipboard
turn_off s = record s { setting = false; control_checked = false; sync_enabled = false }

abbrev pub disable_control : Clipboard → Clipboard
disable_control s = record s { control_disabled = true }

abbrev pub enable_control : Clipboard → Clipboard
enable_control s = record s { control_disabled = false }

abbrev pub is_denied : Permission → Bool
is_denied denied = true
is_denied p = false

-- The previous state is a settled one.
abbrev pub is_settled : Option Permission → Bool
is_settled (some granted) = true
is_settled (some denied) = true
is_settled p = false

module _ (auto_sync : Permission → Bool → Bool) where
  unfoldable pub update_clipboard : Clipboard → Clipboard
  update_clipboard s =
      let automatic = record (remove_clipboard_handlers s) {
        receives = false;
        section_hidden = true;
      } in
      let manual = record (add_clipboard_handlers s) { receives = true; section_hidden = false } in
      if s.rfb then (if auto_sync s.permission s.sync_enabled then automatic else manual) else s

  abbrev pub follow_permission : Permission → Option Permission → Clipboard → Clipboard
  follow_permission denied previous s = disable_control (turn_off s)
  follow_permission prompt previous s =
      if is_settled previous then turn_off (enable_control s) else enable_control s
  follow_permission granted previous s = enable_control s
  follow_permission unknown previous s = s

  -- The event carries the permission that the RFB object has, and the previous one.
  unfoldable pub handle_clipboard_auto_sync : Permission → Option Permission → Clipboard → Clipboard
  unfolding update_clipboard
  handle_clipboard_auto_sync permission previous s =
      if s.rfb then update_clipboard (follow_permission permission previous s) else s

  unfoldable pub handle_clipboard_auto_sync_rejected : Clipboard → Clipboard
  unfolding update_clipboard
  handle_clipboard_auto_sync_rejected s =
      let t = turn_off s in
      let u = if is_denied t.permission then disable_control t else enable_control t in
      if s.rfb then update_clipboard u else s

  -- updateHostClipboardSync after the first `await`.
  unfoldable pub sync_with_permissions : Clipboard → Clipboard
  unfolding update_clipboard
  sync_with_permissions s =
      let enabled = s.host_clipboard_sync && s.setting in
      let t = record (enable_control s) { sync_enabled = enabled } in
      if not s.rfb
      then s
      else if is_denied s.permission
      then update_clipboard (disable_control (turn_off s))
      else if enabled
      then record t { awaiting_access = suc t.awaiting_access }
      else update_clipboard t

  unfoldable pub update_host_clipboard_sync : Clipboard → Clipboard
  unfolding sync_with_permissions
  update_host_clipboard_sync s =
      if not s.rfb
      then s
      else if s.host_clipboard_sync
      then record s { awaiting_permissions = suc s.awaiting_permissions }
      else sync_with_permissions s

  -- What can happen. noVNC answers with the permission that the RFB object has then.
  pub data Event : Type 0 where
    rfb_made : Permission → Bool → Event
    rfb_gone sync_rejected text_changed clear_clicked : Event
    permission_changed : Permission → Option Permission → Event
    setting_clicked : Bool → Event
    permissions_answered access_answered : Permission → Event
    received : Text → Event

  unfoldable pub step : Event → Clipboard → Clipboard
  unfolding update_clipboard handle_clipboard_auto_sync handle_clipboard_auto_sync_rejected
      sync_with_permissions update_host_clipboard_sync clipboard_receive clipboard_send
      clipboard_clear
  step (rfb_made p enabled) s =
      let t = record s { rfb = true; permission = p; sync_enabled = enabled; receives = true } in
      if s.rfb then s else update_host_clipboard_sync t
  step rfb_gone s = record s { rfb = false; receives = false }
  step sync_rejected s = handle_clipboard_auto_sync_rejected s
  step text_changed s = if s.has_handlers then clipboard_send s else s
  step clear_clicked s = if s.has_handlers then clipboard_clear s else s
  step (permission_changed p previous) s =
      if s.rfb then handle_clipboard_auto_sync p previous (record s { permission = p }) else s
  step (setting_clicked b) s =
      if s.control_disabled
      then s
      else update_host_clipboard_sync (record s { setting = b; control_checked = b })
  step (permissions_answered p) s =
      let t = record s { awaiting_permissions = s.awaiting_permissions - 1 } in
      let u = if s.rfb then record t { permission = p } else t in
      if ltb 0 s.awaiting_permissions then sync_with_permissions u else s
  step (access_answered p) s =
      let t = record s { awaiting_access = s.awaiting_access - 1 } in
      let u = if s.rfb then record t { permission = p } else t in
      if ltb 0 s.awaiting_access then update_clipboard u else s
  step (received t) s = if s.receives then clipboard_receive t s else s

  unfoldable pub run : List Event → Clipboard → Clipboard
  run [] s = s
  run (e ∷ es) s = run es (step e s)

-- start has added the handlers; `setting` is what initSettings has left.
unfoldable pub loaded : Bool → Bool → Clipboard
loaded host_clipboard_sync setting = record {
  host_clipboard_sync = host_clipboard_sync;
  rfb = false;
  permission = unknown;
  sync_enabled = false;
  receives = false;
  setting = setting;
  control_checked = setting;
  control_disabled = false;
  has_handlers = true;
  section_hidden = false;
  text = [];
  pasted = [];
  awaiting_permissions = 0;
  awaiting_access = 0;
  threw = false;
}
