-- ===== src/FileManager/Dialog.antt =====
-- The dialog of app/fileManager.js: navigation, the actions on an entry, the popovers with their
-- forms, and the handling of the server's answers.
use docker_baseimage_gui.Prelude.{
  false, not, ◌&&◌, ◌||◌, Option, none, some, List, ◌++◌, if◌then◌else◌,
}
use docker_baseimage_gui.Prelude.Text.{Text, codes}
use docker_baseimage_gui.FileManager.Html.{unescape_html}
use docker_baseimage_gui.FileManager.Path.{is_empty, join_path, parent_path}
use docker_baseimage_gui.FileManager.State.{
  Entry, list_dir, delete, create_folder, rename, Action, rename_action, delete_action,
  create_action, State, send, show_error, clear_error, discard_popover,
}
use docker_baseimage_gui.FileManager.Upload.{
  refresh, start_upload, advance_upload, terminate_upload, download_file, start_download,
  terminate_download,
}
use docker_baseimage_gui.FileManager.Connection.{render_file_list}

unfoldable pub navigate : Text → State → State
navigate path s = send (list_dir path) s

unfoldable pub go_up : State → State
unfolding navigate
go_up s = elim (parent_path s.current_path) [ none ↦ s | some path ↦ navigate path s ]

-- showPopover discards the active popover first, and replaces it.
abbrev pub show_popover : Action → Option (Text × Text) → State → State
show_popover action entry s = record s {
  active_popover = some (record { action = action; entry = entry });
}

-- The values of the attribute data-fmgr-file-action.
pub data FileAction : Type 0 where
  navigate_entry download_entry rename_entry delete_entry : FileAction

-- The action on an entry whose name and path are known.
unfoldable pub act_on : FileAction → Text → Text → Text × Text → State → State
unfolding navigate
act_on navigate_entry name path attrs s = navigate path s
act_on download_entry name path attrs s = download_file name path s
act_on rename_entry name path attrs s = show_popover rename_action (some attrs) s
act_on delete_entry name path attrs s = show_popover delete_action (some attrs) s

-- handleFileActionClick, on the two attributes as the browser returns them.
unfoldable pub handle_file_action_click : FileAction → Text × Text → State → State
unfolding act_on
handle_file_action_click action attrs s =
    let name = unescape_html attrs.0 in
    let path = unescape_html attrs.1 in
    if is_empty name || is_empty path then s else act_on action name path attrs s

-- handleConfirmAction; a popover without an entry leaves the path null.
unfoldable pub handle_confirm_action : Action → Text → Option (Text × Text) → State → State
handle_confirm_action create_action input entry s =
    if is_empty input then s else send (create_folder (join_path s.current_path input)) s
handle_confirm_action rename_action input none s = s
handle_confirm_action rename_action input (some attrs) s =
    let path = unescape_html attrs.1 in
    if not (is_empty path) && not (is_empty input) then send (rename path input) s else s
handle_confirm_action delete_action input none s = s
handle_confirm_action delete_action input (some attrs) s =
    let path = unescape_html attrs.1 in if not (is_empty path) then send (delete path) s else s

-- The submission of a popover's form with this text.
unfoldable pub submit_popover : Text → State → State
unfolding handle_confirm_action
submit_popover input s = elim s.active_popover [
  | none ↦ s
  | some p ↦ handle_confirm_action p.action input p.entry (discard_popover s)
]

-- The request that an answer refers to, by its field `type`.
pub data Context : Type 0 where
  list_dir_context rename_context delete_context create_folder_context : Context
  upload_context upload_block_context download_context cancel_upload_context other_context : Context

unfoldable pub error_prefix : Context → Text
error_prefix list_dir_context = codes ": "
error_prefix rename_context = codes "Rename operation failed: "
error_prefix delete_context = codes "Delete operation failed: "
error_prefix create_folder_context = codes "Create directory operation failed: "
error_prefix upload_context = codes "Upload operation failed: "
error_prefix upload_block_context = codes "Upload operation failed: "
error_prefix download_context = codes "Download operation failed: "
error_prefix cancel_upload_context = codes "Operation failed: "
error_prefix other_context = codes "Operation failed: "

-- The text of showError for an answer; `none` is a field that is missing.
unfoldable pub error_text : Option Text → Option Context → Text
unfolding error_prefix
error_text error context =
    let message : Text = elim error [ none ↦ codes "unknown error" | some m ↦ m ] in
    elim context [ none ↦ message | some c ↦ error_prefix c ++ (message ++ codes ".") ]

-- The end of a transfer that the server refused.
unfoldable pub on_refusal : Option Context → State → State
on_refusal (some upload_context) s = terminate_upload false s
on_refusal (some upload_block_context) s = terminate_upload false s
on_refusal (some download_context) s = terminate_download s
on_refusal c s = s

-- A decoded answer: an error, a success with the data of its kind, or a message of another type.
pub data Answer : Type 0 where
  failure : Option Text → Option Context → Answer
  listing : Text → Option (List Entry) → Answer
  success : Context → Text → Answer
  success_without_context unknown : Answer

-- A success of a request that lists no directory; the text is the field `uuid`.
unfoldable pub on_success : Context → Text → State → State
on_success list_dir_context uuid s = s
on_success upload_context uuid s = start_upload s
on_success upload_block_context uuid s = advance_upload s
on_success download_context uuid s = start_download uuid s
on_success rename_context uuid s = refresh s
on_success delete_context uuid s = refresh s
on_success create_folder_context uuid s = refresh s
on_success cancel_upload_context uuid s = refresh s
on_success other_context uuid s = s

-- handleWebSocketMessage; `none` is a message that could not be decoded.
unfoldable pub handle_message : Option Answer → State → State
handle_message none s = s
handle_message (some (failure error context)) s =
    on_refusal context (show_error (error_text error context) s)
handle_message (some (listing path files)) s = render_file_list path files (clear_error s)
handle_message (some (success context uuid)) s = on_success context uuid (clear_error s)
handle_message (some success_without_context) s = clear_error s
handle_message (some unknown) s = s
