-- ===== src/FileManager/Upload.antt =====
-- The transfers of app/fileManager.js: class FileReaderModule, the object `activeUpload` with its
-- stages, and downloads.
pub mod Progress
pub mod Blocks
pub mod Store
pub mod Round
pub mod Transfer
pub mod Completion
pub mod Sequence
pub mod Serve
use docker_baseimage_gui.Prelude.{
  ℕ, suc, ◌+◌, ◌-◌, ◌*◌, ◌/◌, ◌<◌, max, Bool, true, false, Option, none, some, List, [], ◌∷◌, ltb,
  ◌==◌, if◌then◌else◌, length, get_elem?, take, drop,
}
use docker_baseimage_gui.Prelude.Text.{Text, codes}
use docker_baseimage_gui.Browser.{reset_upload_ui, set_timeout, clear_timeout}
use docker_baseimage_gui.FileManager.Path.{join_path}
use docker_baseimage_gui.FileManager.State.{
  File, Reader, Upload, Request, list_dir, cancel_upload, download, upload, upload_block, State,
  ◌⨾◌, throw, send, show_error,
}

abbrev pub block_size : ℕ
block_size = 512 * 1024

-- requestNextBlock, on a file of this content: the next blob to read, if the file has more.
unfoldable pub next_blob : List ℕ → ℕ → Option (List ℕ)
next_blob content file_pos =
    let first = file_pos in
    let last = first + block_size in
    let last' = if ltb (length content) last then length content else last in
    if ltb file_pos (length content) then some (take (last' - first) (drop first content)) else none

-- `readAsArrayBuffer` throws while an earlier read is under way.
unfoldable pub request_next_block : File → Upload → Reader → State → State
request_next_block file u r s = elim (next_blob file.content r.file_pos) [
  | none ↦ s
  | some blob ↦ elim r.reading [
    | some b ↦ throw s
    | none ↦ record s {
      active_upload = some (record u { file_reader = some (record r { reading = some blob }) });
    }
  ]
]

-- The stage `prepare`.
unfoldable pub prepare : Upload → State → State
prepare u s =
    if ltb u.files_processed u.total_files
    then elim (get_elem? u.files u.files_processed) [
      | none ↦ throw s
      | some file ↦ send (upload (join_path u.dest_dir file.name) (length file.content)) s
    ]
    else s

-- Math.floor of the progress, in exact arithmetic.
unfoldable pub progress_of : Upload → ℕ
progress_of u = ((u.files_processed + 1) * max u.cur 1 * 100) / (max u.tot 1 * u.total_files)

-- The stage `advance`, with the progress that it returns.
unfoldable pub advance : Upload → State → State × ℕ
unfolding prepare request_next_block
advance u s =
    let progress = progress_of u in
    if u.cur == u.tot
    then (let v = record u { files_processed = u.files_processed + 1 } in
        if v.files_processed == v.total_files
        then (record s { active_upload = some v }, 100)
        else (let w = record v { file_reader = none } in
            (prepare w (record s { active_upload = some w }), progress)))
    else elim u.file_reader [
      | none ↦ (throw s, progress)
      | some r ↦ elim (get_elem? u.files u.files_processed) [
        | none ↦ (throw s, progress)
        | some file ↦ (request_next_block file u r s, progress)
      ]
    ]

-- The method `terminate`: the reader is destroyed, then the cancellation is sent.
unfoldable pub terminate : Bool → Upload → State → State
terminate send_cancel u s =
    let v = record u { file_reader = none } in
    let t = record s { active_upload = some v } in
    if send_cancel
    then elim (get_elem? u.files u.files_processed) [
      | none ↦ throw t
      | some file ↦ send (cancel_upload (join_path u.dest_dir file.name)) t
    ]
    else t

-- The end of terminateUpload, when the upload is terminated.
unfoldable pub forget_upload : State → State
forget_upload s =
    let t : State = elim s.upload_ui_reset_timer [
      | none ↦ s
      | some j ↦ record s { browser = clear_timeout j s.browser }
    ] in
    record t {
      active_upload = none;
      browser = set_timeout reset_upload_ui t.browser;
      upload_ui_reset_timer = some t.timers;
    }

unfoldable pub terminate_upload : Bool → State → State
unfolding terminate forget_upload
terminate_upload from_user s = elim s.active_upload [
  | none ↦ s
  | some u ↦ (terminate from_user u ⨾ forget_upload) s
]

-- The callback of the timer that terminateUpload sets.
unfoldable pub reset_ui : State → State
reset_ui s =
    let t = record s { upload_ui_reset_timer = none } in
    elim t.active_upload [
      | some u ↦ t
      | none ↦ record t { progress_shown = false; upload_disabled = false }
    ]

unfoldable pub refresh : State → State
refresh s = send (list_dir s.current_path) s

abbrev pub set_progress : ℕ → State → State
set_progress n s = record s { progress_value = n }

-- The end of advanceUpload, with what `advance` gives.
unfoldable pub show_progress : State × ℕ → State
unfolding terminate_upload refresh
show_progress (t, progress) =
    if t.threw
    then t
    else if progress == 100
    then (refresh ⨾ terminate_upload false) (set_progress progress t)
    else set_progress progress t

unfoldable pub advance_upload : State → State
unfolding advance show_progress
advance_upload s = elim s.active_upload [ none ↦ s | some u ↦ show_progress (advance u s) ]

-- The stage `start`, on the file that the upload has come to.
unfoldable pub begin_file : File → Upload → State → State
unfolding request_next_block
begin_file file u s =
    if length file.content == 0
    then advance_upload s
    else (let r : Reader = record { file_pos = 0; reading = none } in
        let v = record u { file_reader = some r } in
        request_next_block file v r (record s { active_upload = some v }))

unfoldable pub start : Upload → State → State
unfolding begin_file
start u s = elim u.file_reader [
  | some r ↦ s
  | none ↦ elim (get_elem? u.files u.files_processed) [
    | none ↦ throw s
    | some file ↦ begin_file file u s
  ]
]

unfoldable pub start_upload : State → State
unfolding start
start_upload s = elim s.active_upload [ none ↦ s | some u ↦ start u s ]

-- The event `loadend` of the file reader, and the block callback of the upload.
unfoldable pub on_block : State → State
on_block s = elim s.active_upload [
  | none ↦ s
  | some u ↦ elim u.file_reader [
    | none ↦ s
    | some r ↦ elim r.reading [
      | none ↦ s
      | some blob ↦ elim (get_elem? u.files u.files_processed) [
        | none ↦ throw s
        | some file ↦
            let pos = r.file_pos + length blob in
            let v = record u {
              file_reader = some (record { file_pos = pos; reading = none });
              cur = pos;
              tot = length file.content;
            } in
            send (upload_block (join_path u.dest_dir file.name) blob)
              (record s { active_upload = some v })
      ]
    ]
  ]
]

-- A read is under way.
abbrev pub is_reading : State → Bool
is_reading s = elim s.active_upload [
  | none ↦ false
  | some u ↦ elim u.file_reader [
    | none ↦ false
    | some r ↦ elim r.reading [ none ↦ false | some blob ↦ true ]
  ]
]

-- The error callback of the upload.
unfoldable pub fail_upload : State → State
unfolding terminate_upload show_error
fail_upload = show_error (codes "Upload operation failed: file read error.") ⨾ terminate_upload true

-- The event `error` of the file reader.
unfoldable pub on_read_error : State → State
unfolding fail_upload
on_read_error s = if is_reading s then fail_upload s else s

unfoldable pub upload_files : List File → State → State
unfolding prepare
upload_files files s = elim s.active_upload [
  | some u ↦ s
  | none ↦
      let u : Upload = record {
        dest_dir = s.current_path;
        files = files;
        total_files = length files;
        files_processed = 0;
        file_reader = none;
        cur = 0;
        tot = 0;
      } in
      let t : State = elim s.upload_ui_reset_timer [
        | none ↦ s
        | some j ↦ record s { browser = clear_timeout j s.browser; upload_ui_reset_timer = none }
      ] in
      prepare u (record t {
        active_upload = some u;
        upload_disabled = true;
        progress_value = 0;
        progress_shown = true;
      })
]

unfoldable pub download_file : Text → Text → State → State
download_file name path s = elim s.active_download [
  | some n ↦ s
  | none ↦ send (download path) (record s { active_download = some name })
]

unfoldable pub start_download : Text → State → State
start_download uuid s = elim s.active_download [
  | none ↦ s
  | some name ↦ record s { downloads = (uuid, name) ∷ s.downloads; active_download = none }
]

abbrev pub terminate_download : State → State
terminate_download s = record s { active_download = none }
