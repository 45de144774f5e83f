-- ===== src/FileManager/Tests.antt =====
-- Runs of the file manager: names and paths, a listing, uploads of two small files, the ends of the
-- dialog.
use docker_baseimage_gui.Prelude.{
  ◌++◌, ℕ, ◌≤◌, true, false, none, some, List, [], ◌∷◌, ◌≡◌, refl, get_elem?, take, ◌≢◌, ◌↔◌, arith,
  All,
}
use docker_baseimage_gui.Prelude.Text.{Text, codes}
use docker_baseimage_gui.Browser.{fresh, update, opened, is_live}
use docker_baseimage_gui.FileManager.Html.{
  escape_html, replace_char, unescape_html, replace_all, replace_from, is_prefix,
}
use docker_baseimage_gui.FileManager.Html.Escape.{
  IsInert, escape_html-IsInert, parse_html, parse_html-escape_html,
}
use docker_baseimage_gui.FileManager.Html.Reading.{
  in_double_quotes, end_of, IsPlain, read_html, read_html-escape_html,
}
use docker_baseimage_gui.FileManager.Html.Unescape.{unescape_html-ne}
use docker_baseimage_gui.FileManager.Path.{
  join_path, parent_path, split_slash, push_unit, non_empty, pop, slashed, join_slash,
}
use docker_baseimage_gui.FileManager.State.{
  File, Upload, Entry, download, State, unloaded, send, list_dir, upload, cancel_upload,
}
use docker_baseimage_gui.FileManager.Upload.{
  upload_files, advance, start_upload, on_block, refresh, next_blob,
}
use docker_baseimage_gui.FileManager.Protocol.{Talk, bytes_sent}
use docker_baseimage_gui.FileManager.Protocol.Operations.{position, stage_of}
use docker_baseimage_gui.FileManager.Protocol.Typing.{Orderly, run-unloaded-Talk}
use docker_baseimage_gui.FileManager.Late.{late_answer-completes}
use docker_baseimage_gui.FileManager.Upload.Progress.{advance-progress}
use docker_baseimage_gui.FileManager.Upload.Store.{stored, expected}
use docker_baseimage_gui.FileManager.Upload.Serve.{serve, upload_files-stored}
use docker_baseimage_gui.FileManager.Connection.{render_file_list, open_file_manager, on_open}
use docker_baseimage_gui.FileManager.Dialog.{
  success, upload_context, upload_block_context, on_success, handle_message, download_entry,
  handle_file_action_click,
}
use docker_baseimage_gui.FileManager.Step.{
  Event, message_received, block_read, cancel_clicked, open_called, close_called, files_chosen,
  socket_opened, socket_closed, timer_fired, handle, step, run,
}
use docker_baseimage_gui.FileManager.Consistency.{DialogInv, is_connect}
use docker_baseimage_gui.FileManager.Invariant.{run-unloaded-DialogInv}
use docker_baseimage_gui.FileManager.Entries.{
  RowIsInert, render_file_list-IsInert, attributes, click-misses, click-downloads,
}
use docker_baseimage_gui.FileManager.Closing.{IsQuiet, close_called-ends, lost-keeps_upload}

abbrev tag : Text
tag = codes "<a href=\"x\">&</a>"

escape_html-IsInert_example : All IsInert (escape_html tag)
escape_html-IsInert_example = escape_html-IsInert tag

tag-IsPlain : All IsPlain tag
tag-IsPlain = ground arith

read_html-escape_html_example :
    read_html in_double_quotes (escape_html tag ++ (end_of in_double_quotes ∷ codes ">"))
    ≡ (tag, end_of in_double_quotes ∷ codes ">")
read_html-escape_html_example = read_html-escape_html in_double_quotes tag (codes ">") tag-IsPlain

escaped : escape_html (codes "a<b&c") ≡ codes "a&lt;b&amp;c"
unfolding escape_html replace_char
escaped = refl

unescape_html-ne_example : unescape_html (codes "x&lt;y") ≢ codes "x&lt;y"
unescape_html-ne_example = unescape_html-ne (codes "x") (codes "y")

unescaped_twice : unescape_html (codes "&amp;lt;") ≡ codes "<"
unfolding unescape_html replace_all replace_from is_prefix
unescaped_twice = refl

up_twice : parent_path (codes "//a///b/") ≡ some (codes "/a")
unfolding parent_path split_slash push_unit non_empty pop join_slash slashed
up_twice = refl

-- The dialog is open and connected.
abbrev online : State
online = record unloaded {
  browser = record fresh { ready = update fresh.ready 0 opened; sockets = 1 };
  web_socket = some 0;
  web_socket_connected = true;
  manager_opened = true;
}

abbrev odd_page : Entry
odd_page = record { name = codes "&lt;"; path = codes "/&lt;"; is_dir = false }

render_file_list-IsInert_example :
    All RowIsInert (render_file_list (codes "/") (some (odd_page ∷ [])) online).rows
render_file_list-IsInert_example = render_file_list-IsInert (codes "/") (odd_page ∷ []) online

abbrev page : Entry
page = record { name = codes "p"; path = codes "/p"; is_dir = false }

click-downloads_example :
    let t = handle_file_action_click download_entry (attributes parse_html page) online in
    (t.sent ≡ (0, download (codes "/p")) ∷ []) × (t.active_download ≡ some (codes "p"))
click-downloads_example =
    click-downloads parse_html parse_html-escape_html page online 0 (omega arith) (omega arith) refl
      refl refl refl refl

click-misses_example :
    (handle_file_action_click download_entry (attributes parse_html odd_page) online).sent
    ≢ (0, download (codes "/&lt;")) ∷ []
click-misses_example =
    click-misses parse_html parse_html-escape_html odd_page online 0 (codes "/") [] refl

abbrev first_file : File
first_file = record { name = codes "a"; content = 1 ∷ 2 ∷ 3 ∷ [] }

abbrev empty_file : File
empty_file = record { name = codes "b"; content = [] }

upload_files-stored_example :
    let t = serve 2 1 (upload_files (first_file ∷ empty_file ∷ []) online) in
    (t.active_upload ≡ none)
    × ((q : Text)
        → stored q t.sent ≡ expected q (codes "/") (first_file ∷ empty_file ∷ []) (stored q []))
upload_files-stored_example =
    upload_files-stored 0 1 first_file (empty_file ∷ []) online
      (record { held = refl; open_socket = refl; calm = refl }) refl
      (omega arith, (omega arith, tt))

abbrev half_way : Upload
half_way = record {
  dest_dir = codes "/";
  files = first_file ∷ empty_file ∷ [];
  total_files = 2;
  files_processed = 0;
  file_reader = none;
  cur = 2;
  tot = 3;
}

advance-progress_example :
    ((advance half_way online).1 ≤ 100)
    × (((advance half_way online).1 ≡ 100) ↔ ((◌≡◌ {A = ℕ} 2 3) × (◌≡◌ {A = ℕ} 1 2)))
advance-progress_example =
    advance-progress half_way online
      (record { current = omega arith; within = omega arith; begun = λ h. omega arith })

abbrev session : List Event
session = open_called ∷ socket_opened 0 ∷ files_chosen (first_file ∷ []) ∷ []

run-unloaded-DialogInv_example : DialogInv 0 0 (run session unloaded)
run-unloaded-DialogInv_example = run-unloaded-DialogInv session 0 0

close_called-ends_example :
    let t = step close_called (run (open_called ∷ []) unloaded) in
    IsQuiet t
    × ((i : ℕ) → is_live (t.ready i) ≡ false)
    × ((j : ℕ) → is_connect (t.pending j) ≡ false)
unfolding run step handle open_file_manager
close_called-ends_example = close_called-ends (open_called ∷ []) refl

lost-keeps_upload_example :
    let s = record online { active_upload = some half_way } in
    let t =
      run
        (socket_closed 0
          ∷ timer_fired s.timers
          ∷ socket_opened s.sockets
          ∷ files_chosen (first_file ∷ [])
          ∷ [])
        s in
    (t.active_upload ≡ some half_way) × (t.web_socket_connected ≡ true)
lost-keeps_upload_example =
    lost-keeps_upload (record online { active_upload = some half_way }) half_way 0 (first_file ∷ [])
      refl refl refl refl

-- Two files are uploaded, and the directory is listed again.
abbrev answered : List Event
answered =
    open_called
    ∷ socket_opened 0
    ∷ files_chosen (first_file ∷ empty_file ∷ [])
    ∷ message_received 0 (some (success upload_context []))
    ∷ block_read
    ∷ []

answered-Orderly : Orderly answered unloaded
unfolding step handle on_success handle_message open_file_manager on_open upload_files start_upload
    on_block refresh send next_blob
answered-Orderly = (refl, refl, (refl, refl, (refl, refl, (refl, refl, (refl, refl, tt)))))

run-unloaded-Talk_example :
    let t = run answered unloaded in
    Talk (stage_of t.active_upload) t.sent
    × ((u : Upload) (file : File)
        → t.active_upload ≡ some u
        → get_elem? u.files u.files_processed ≡ some file
        → bytes_sent t.sent ≡ take (position u.file_reader) file.content)
run-unloaded-Talk_example = run-unloaded-Talk answered answered-Orderly

late_answer-completes_example :
    let s = record online { active_upload = some half_way } in
    let t =
      run
        (cancel_clicked
          ∷ timer_fired s.timers
          ∷ files_chosen (first_file ∷ [])
          ∷ message_received 0 (some (success upload_block_context []))
          ∷ [])
        s in
    (t.active_upload ≡ none)
    × (t.progress_value ≡ 100)
    × (t.alert ≡ none)
    × (t.sent
        ≡ (0, list_dir (codes "/"))
          ∷ (0, upload (join_path (codes "/") (codes "a")) 3)
          ∷ (0, cancel_upload (join_path (codes "/") (codes "a")))
          ∷ [])
late_answer-completes_example =
    late_answer-completes (record online { active_upload = some half_way }) 0 half_way first_file
      first_file [] refl refl refl refl
