-- ===== src/FileManager/Connection.antt =====
-- The WebSocket of app/fileManager.js, and the opening and closing of the dialog.
use docker_baseimage_gui.Prelude.{true, false, Option, none, some, List, [], ◌∷◌, if◌then◌else◌}
use docker_baseimage_gui.Prelude.Text.{Text, codes, text_eq}
use docker_baseimage_gui.Browser.{
  connect_web_socket, new_socket, close_socket, set_timeout, clear_timeout,
}
use docker_baseimage_gui.FileManager.Html.{escape_html}
use docker_baseimage_gui.FileManager.State.{
  Entry, Row, close, enabled, disabled, State, ◌⨾◌, show_error, clear_error, call_back,
  discard_popover,
}
use docker_baseimage_gui.FileManager.Upload.{refresh, terminate_upload, terminate_download}

abbrev pub clear_connect_timer : State → State
clear_connect_timer s = elim s.connect_timer [
  | none ↦ s
  | some j ↦ record s { browser = clear_timeout j s.browser; connect_timer = none }
]

unfoldable pub connect : State → State
connect s = elim s.web_socket [
  | some i ↦ s
  | none ↦
      let t = clear_connect_timer s in
      record t { browser = new_socket t.browser; web_socket = some t.sockets }
]

unfoldable pub disconnect : State → State
disconnect s =
    let t : State = elim s.web_socket [
      | none ↦ s
      | some i ↦ record s {
        browser = close_socket i s.browser;
        web_socket = none;
        web_socket_connected = false;
      }
    ] in
    clear_connect_timer t

-- What renderFileList writes for an entry.
unfoldable pub render_row : Entry → Row
render_row e = record {
  is_dir_attr = e.is_dir;
  name_attr = escape_html e.name;
  path_attr = escape_html e.path;
}

unfoldable pub render_rows : List Entry → List Row
render_rows [] = []
render_rows (e ∷ es) = render_row e ∷ render_rows es

-- `files` is `none` where the source has null.
unfoldable pub render_file_list : Text → Option (List Entry) → State → State
unfolding text_eq
render_file_list path files s =
    let entries : List Entry = elim files [ none ↦ [] | some es ↦ es ] in
    record s {
      rows = render_rows entries;
      current_path = path;
      go_up_disabled = text_eq path (codes "/");
    }

unfoldable pub open_file_manager : State → State
unfolding render_file_list connect
open_file_manager s =
    let t = clear_error (call_back disabled (record s { manager_opened = true })) in
    if s.manager_opened then s else connect (render_file_list (codes "/") none t)

unfoldable pub close_file_manager : State → State
close_file_manager s =
    let t = clear_error (disconnect (record s { manager_opened = false })) in
    let u = terminate_upload false (terminate_download t) in
    if s.manager_opened then call_back close (discard_popover u) else s

-- The handler of `open`: enabling comes last.
unfoldable pub on_open : State → State
unfolding refresh
on_open s = (refresh ⨾ call_back enabled) (clear_error (record s { web_socket_connected = true }))

unfoldable pub on_close : State → State
unfolding disconnect show_error
on_close s =
    let t = disconnect (call_back disabled s) in
    let u = show_error (codes "Connection lost, reconnecting...") t in
    if t.manager_opened
    then record u {
      browser = set_timeout connect_web_socket u.browser;
      connect_timer = some u.timers;
    }
    else t
