-- ===== src/FileManager/Protocol/Handlers.antt =====
-- The handlers of app/fileManager.js, seen from the protocol of uploads.
use docker_baseimage_gui.Prelude.{true, false, ◌||◌, Option, none, some, ◌≡◌, refl, arith}
use docker_baseimage_gui.Prelude.Text.{Text, codes}
use docker_baseimage_gui.Browser.{Callback, connect_web_socket, reset_upload_ui}
use docker_baseimage_gui.FileManager.Html.{unescape_html}
use docker_baseimage_gui.FileManager.Path.{is_empty}
use docker_baseimage_gui.FileManager.State.{
  Popover, State, show_error, clear_error, call_back, enabled, discard_popover,
}
use docker_baseimage_gui.FileManager.Upload.{
  refresh, terminate_upload, terminate_download, on_read_error, fail_upload, is_reading, reset_ui,
  start_download,
}
use docker_baseimage_gui.FileManager.Connection.{
  connect, disconnect, render_file_list, open_file_manager, close_file_manager, on_open, on_close,
}
use docker_baseimage_gui.FileManager.Dialog.{
  FileAction, handle_file_action_click, handle_confirm_action, submit_popover, Context,
  upload_context, upload_block_context, download_context, list_dir_context, rename_context,
  delete_context, create_folder_context, cancel_upload_context, other_context, on_refusal,
  on_success,
}
use docker_baseimage_gui.FileManager.Step.{fire}
use docker_baseimage_gui.FileManager.Protocol.Operations.{Typed, same-Typed, IsAlive}
use docker_baseimage_gui.FileManager.Protocol.Endings.{ended-Typed, cancelled-Typed}
use docker_baseimage_gui.FileManager.Protocol.Beginning.{
  has_sent_block, advance_upload-Typed, start_upload-Typed,
}
use docker_baseimage_gui.FileManager.Protocol.Actions.{
  Keeps, if-Keeps, then-Keeps, same-Keeps, send-Keeps, act_on-Keeps, confirm-Keeps,
}

module _ (s : State) (v : Typed s) (alive : IsAlive s) where
  pub clicked-Keeps :
      (a : FileAction) (attrs : Text × Text) → Keeps (handle_file_action_click a attrs s)
  unfolding handle_file_action_click
  clicked-Keeps a attrs =
      let name = unescape_html attrs.0 in
      let path = unescape_html attrs.1 in
      if-Keeps (is_empty name || is_empty path) s _ (λ e calm. v)
        (λ e. act_on-Keeps s v alive a name path attrs)

  pub submitted-Keeps : (input : Text) → Keeps (submit_popover input s)
  unfolding submit_popover
  submitted-Keeps input = on_popover s.active_popover
    where
      on_popover :
          (o : Option Popover)
          → Keeps (elim o [
            | none ↦ s
            | some p ↦ handle_confirm_action p.action input p.entry (discard_popover s)
          ])
      on_popover none = λ calm. v
      on_popover (some p) =
          confirm-Keeps (discard_popover s) (same-Typed s _ refl refl v) alive p.action input
            p.entry

  pub lost-Keeps : Keeps (on_close s)
  unfolding on_close disconnect
  lost-Keeps = same-Keeps s v alive _ (ground arith) (ground arith)

  pub opened-Keeps : Keeps (open_file_manager s)
  unfolding open_file_manager connect render_file_list
  opened-Keeps = same-Keeps s v alive _ (ground arith) (ground arith)

  pub connected-Keeps : Keeps (on_open s)
  unfolding on_open
  connected-Keeps =
      let t : State = clear_error (record s { web_socket_connected = true }) in
      let w : Typed t = same-Typed s t refl refl v in
      then-Keeps refresh (call_back enabled) t (unfold refresh in send-Keeps t w alive _ refl)
        (λ u calm. same-Typed (refresh t) _ refl refl u)

  pub closed-Keeps : s.threw ≡ false → Keeps (close_file_manager s)
  unfolding close_file_manager
  closed-Keeps before =
      let t = terminate_download (clear_error (disconnect (record s { manager_opened = false }))) in
      let w : Typed t =
        same-Typed s t (unfold disconnect in ground arith) (unfold disconnect in ground arith) v in
      let quiet : t.threw ≡ false = unfold disconnect in ground arith in
      if-Keeps s.manager_opened _ s
        (λ o calm. same-Typed (terminate_upload false t) _ refl refl (ended-Typed t quiet w))
        (λ o calm. v)

  pub failed-Keeps : Keeps (on_read_error s)
  unfolding on_read_error
  failed-Keeps = if-Keeps (is_reading s) (fail_upload s) s (λ e. cancelled) (λ e calm. v)
    where
      cancelled : Keeps (fail_upload s)
      cancelled =
          let t = show_error (codes "Upload operation failed: file read error.") s in
          let w : Typed t = unfold show_error in same-Typed s t refl refl v in
          unfold fail_upload in
          then-Keeps (show_error _) (terminate_upload true) s (λ calm. w)
            (λ u. cancelled-Typed t u (unfold show_error in alive))

  pub refused-Keeps : s.threw ≡ false → (c : Option Context) → Keeps (on_refusal c s)
  unfolding on_refusal
  refused-Keeps before (some upload_context) = λ calm. ended-Typed s before v
  refused-Keeps before (some upload_block_context) = λ calm. ended-Typed s before v
  refused-Keeps before (some download_context) = same-Keeps s v alive _ refl refl
  refused-Keeps before _ = λ calm. v

  pub succeeded-Keeps :
      s.threw ≡ false
      → (c : Context) (uuid : Text)
      → (c ≡ upload_block_context → has_sent_block s.active_upload ≡ true)
      → Keeps (on_success c uuid s)
  unfolding on_success refresh
  succeeded-Keeps before list_dir_context uuid turn = λ calm. v
  succeeded-Keeps before upload_context uuid turn = start_upload-Typed s v alive before
  succeeded-Keeps before upload_block_context uuid turn =
      advance_upload-Typed s (turn refl) v alive before
  succeeded-Keeps before download_context uuid turn =
      same-Keeps s v alive _ (unfold start_download in ground arith)
        (unfold start_download in ground arith)
  succeeded-Keeps before rename_context uuid turn = send-Keeps s v alive _ refl
  succeeded-Keeps before delete_context uuid turn = send-Keeps s v alive _ refl
  succeeded-Keeps before create_folder_context uuid turn = send-Keeps s v alive _ refl
  succeeded-Keeps before cancel_upload_context uuid turn = send-Keeps s v alive _ refl
  succeeded-Keeps before other_context uuid turn = λ calm. v

  pub fired-Keeps : (c : Callback) → Keeps (fire c s)
  unfolding fire
  fired-Keeps connect_web_socket =
      same-Keeps s v alive _ (unfold connect in ground arith) (unfold connect in ground arith)
  fired-Keeps reset_upload_ui =
      same-Keeps s v alive _ (unfold reset_ui in ground arith) (unfold reset_ui in ground arith)
