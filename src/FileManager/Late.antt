-- ===== src/FileManager/Late.antt =====
-- The late acknowledgement of a block in app/fileManager.js, which is taken for one of another upload.
use docker_baseimage_gui.Prelude.{ℕ, none, some, [], ◌∷◌, ◌≡◌, arith, length, get_elem?}
use docker_baseimage_gui.Prelude.Text.{Text}
use docker_baseimage_gui.Browser.{opened}
use docker_baseimage_gui.FileManager.Path.{join_path}
use docker_baseimage_gui.FileManager.State.{
  File, Upload, list_dir, upload, cancel_upload, State, send,
}
use docker_baseimage_gui.FileManager.Upload.{
  upload_files, terminate_upload, advance_upload, reset_ui, show_progress,
}
use docker_baseimage_gui.FileManager.Dialog.{
  upload_block_context, success, on_success, handle_message,
}
use docker_baseimage_gui.FileManager.Step.{
  cancel_clicked, timer_fired, files_chosen, message_received, fire, handle, step, run,
}

-- An upload over an open connection is cancelled, another file is chosen as soon as that is possible
-- again, and then the answer to a block of the cancelled upload arrives: the new upload ends as
-- complete, and its file was only announced, whatever it holds.
pub late_answer-completes :
    (s : State) (i : ℕ) (u : Upload) (old new_file : File) (uuid : Text)
    → s.web_socket ≡ some i
    → s.ready i ≡ opened
    → s.active_upload ≡ some u
    → get_elem? u.files u.files_processed ≡ some old
    → let t =
        run
          (cancel_clicked
            ∷ timer_fired s.timers
            ∷ files_chosen (new_file ∷ [])
            ∷ message_received i (some (success upload_block_context uuid))
            ∷ [])
          s in
      (t.active_upload ≡ none)
      × (t.progress_value ≡ 100)
      × (t.alert ≡ none)
      × (t.sent
          ≡ (i, list_dir s.current_path)
            ∷ (i, upload (join_path s.current_path new_file.name) (length new_file.content))
            ∷ (i, cancel_upload (join_path u.dest_dir old.name))
            ∷ s.sent)
unfolding run step handle fire handle_message on_success upload_files terminate_upload
    advance_upload send reset_ui show_progress
late_answer-completes s i u old new_file uuid held open_socket active found = ground (arith, found)
