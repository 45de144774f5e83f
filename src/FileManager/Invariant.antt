-- ===== src/FileManager/Invariant.antt =====
-- Every event of app/fileManager.js keeps the connection, the timers and the dialog consistent.
use docker_baseimage_gui.Prelude.{
  ℕ, true, false, Option, none, some, List, [], ◌∷◌, ◌≡◌, refl, arith, Bool-cases, inl, inr,
}
use docker_baseimage_gui.Prelude.Text.{Text}
use docker_baseimage_gui.Browser.{
  Callback, connect_web_socket, reset_upload_ui, opened, closed, may_open, may_close, may_receive,
  set_ready, clear_timeout,
}
use docker_baseimage_gui.FileManager.State.{
  File, State, clear_error, call_back, discard_popover, close, create_action, unloaded, send,
  show_error,
}
use docker_baseimage_gui.FileManager.Upload.{
  terminate_upload, refresh, terminate_download, upload_files,
}
use docker_baseimage_gui.FileManager.Dialog.{
  go_up, show_popover, handle_file_action_click, error_text, Context, upload_context,
  upload_block_context, download_context, list_dir_context, rename_context, delete_context,
  create_folder_context, cancel_upload_context, other_context, on_refusal, on_success, Answer,
  failure, listing, success, success_without_context, unknown, handle_message,
}
use docker_baseimage_gui.FileManager.Frame.{
  start_download-Frame, on_block-Frame, go_up-Frame, handle_file_action_click-Frame,
  submit_popover-Frame,
}
use docker_baseimage_gui.FileManager.Step.{
  Event, fire, handle, step, run, timer_fired, socket_opened, socket_closed, message_received,
  open_called, close_called, files_chosen, action_clicked, popover_submitted, popover_cancelled,
  upload_clicked, new_folder_clicked, go_up_clicked, cancel_clicked, refresh_clicked, block_read,
  read_failed,
}
use docker_baseimage_gui.FileManager.Connection.{
  disconnect, open_file_manager, close_file_manager, on_open, on_close,
}
use docker_baseimage_gui.FileManager.Consistency.{
  is_reset, DialogInv, send-DialogInv, connect-DialogInv, reset_ui-DialogInv,
  render_file_list-DialogInv, Frame-DialogInv, if-DialogInv, terminate_upload-DialogInv,
  advance_upload-DialogInv, start_upload-DialogInv, on_read_error-DialogInv,
}

module _ (i j : ℕ) where
  upload_files-DialogInv :
      (files : List File) (s : State) → DialogInv i j s → DialogInv i j (upload_files files s)
  unfolding upload_files send
  upload_files-DialogInv files s v = ground arith

  open_file_manager-DialogInv : (s : State) → DialogInv i j s → DialogInv i j (open_file_manager s)
  unfolding open_file_manager
  open_file_manager-DialogInv s v = ground arith

  disconnect_closed-DialogInv :
      (s : State)
      → DialogInv i j s
      → DialogInv i j (disconnect (record s { manager_opened = false }))
  unfolding disconnect
  disconnect_closed-DialogInv s v = ground arith

  close_file_manager-DialogInv :
      (s : State) → DialogInv i j s → DialogInv i j (close_file_manager s)
  unfolding close_file_manager
  close_file_manager-DialogInv s v =
      let d = disconnect (record s { manager_opened = false }) in
      let t = terminate_download (clear_error d) in
      let u = terminate_upload false t in
      if-DialogInv i j s.manager_opened (call_back close (discard_popover u)) s
        (Frame-DialogInv i j u (call_back close (discard_popover u)) (ground arith) (
          terminate_upload-DialogInv i j false t
            (Frame-DialogInv i j d t (ground arith) (disconnect_closed-DialogInv s v))))
        v

  on_open-DialogInv :
      (k : ℕ) (s : State)
      → DialogInv i j s
      → DialogInv k j s
      → may_open (s.ready k) ≡ true
      → DialogInv i j (on_open (record s { browser = set_ready k opened s.browser }))
  unfolding on_open send
  on_open-DialogInv k s v w is_new = ground arith

  on_close-DialogInv :
      (k : ℕ) (s : State)
      → DialogInv i j s
      → DialogInv i j (on_close (record s { browser = set_ready k closed s.browser }))
  unfolding on_close
  on_close-DialogInv k s v = ground arith

  on_refusal-DialogInv :
      (c : Option Context) (s : State) → DialogInv i j s → DialogInv i j (on_refusal c s)
  unfolding on_refusal
  on_refusal-DialogInv (some upload_context) s v = terminate_upload-DialogInv i j false s v
  on_refusal-DialogInv (some upload_block_context) s v = terminate_upload-DialogInv i j false s v
  on_refusal-DialogInv (some download_context) s v = Frame-DialogInv i j s _ (ground arith) v
  on_refusal-DialogInv _ s v = v

  refresh-DialogInv : (s : State) → DialogInv i j s → DialogInv i j (refresh s)
  unfolding refresh
  refresh-DialogInv s v = send-DialogInv i j s v _

  on_success-DialogInv :
      (c : Context) (uuid : Text) (s : State)
      → DialogInv i j s
      → DialogInv i j (on_success c uuid s)
  unfolding on_success
  on_success-DialogInv list_dir_context uuid s v = v
  on_success-DialogInv upload_context uuid s v = start_upload-DialogInv i j s v
  on_success-DialogInv upload_block_context uuid s v = advance_upload-DialogInv i j s v
  on_success-DialogInv download_context uuid s v =
      Frame-DialogInv i j s _ (start_download-Frame uuid s) v
  on_success-DialogInv other_context uuid s v = v
  on_success-DialogInv rename_context uuid s v = refresh-DialogInv s v
  on_success-DialogInv delete_context uuid s v = refresh-DialogInv s v
  on_success-DialogInv create_folder_context uuid s v = refresh-DialogInv s v
  on_success-DialogInv cancel_upload_context uuid s v = refresh-DialogInv s v

  cleared-DialogInv : (s : State) → DialogInv i j s → DialogInv i j (clear_error s)
  cleared-DialogInv s v = Frame-DialogInv i j s _ (ground arith) v

  handle_message-DialogInv :
      (a : Option Answer) (s : State) → DialogInv i j s → DialogInv i j (handle_message a s)
  unfolding handle_message
  handle_message-DialogInv none s v = v
  handle_message-DialogInv (some (failure error context)) s v =
      let t = show_error (error_text error context) s in
      on_refusal-DialogInv context t (Frame-DialogInv i j s t (unfold show_error in ground arith) v)
  handle_message-DialogInv (some (listing path files)) s v =
      render_file_list-DialogInv i j _ (cleared-DialogInv s v) path files
  handle_message-DialogInv (some (success context uuid)) s v =
      on_success-DialogInv context uuid _ (cleared-DialogInv s v)
  handle_message-DialogInv (some success_without_context) s v = cleared-DialogInv s v
  handle_message-DialogInv (some unknown) s v = v

  clear_timeout-DialogInv :
      (k : ℕ) (s : State)
      → DialogInv i j s
      → DialogInv i j (record s { browser = clear_timeout k s.browser })
  clear_timeout-DialogInv k s v = ground arith

  fired_once :
      (k : ℕ) (s : State)
      → DialogInv i j s
      → DialogInv i k s
      → s.pending k ≡ some reset_upload_ui
      → is_reset ((clear_timeout k s.browser).pending j) ≡ false
  fired_once k s v w e = ground (arith, v.reset_named, w.reset_named)

  fired-DialogInv :
      (k : ℕ) (o : Option Callback) (s : State)
      → DialogInv i j s
      → DialogInv i k s
      → s.pending k ≡ o
      → DialogInv i j (elim o [
        | none ↦ s
        | some callback ↦ fire callback (record s { browser = clear_timeout k s.browser })
      ])
  unfolding fire
  fired-DialogInv k none s v w e = v
  fired-DialogInv k (some connect_web_socket) s v w e =
      connect-DialogInv i j _ (clear_timeout-DialogInv k s v) (ground (arith, w.timed))
  fired-DialogInv k (some reset_upload_ui) s v w e =
      reset_ui-DialogInv i j _ (clear_timeout-DialogInv k s v) (fired_once k s v w e)

  handle-DialogInv :
      (e : Event) (s : State) → ((i j : ℕ) → DialogInv i j s) → DialogInv i j (handle e s)
  unfolding handle
  handle-DialogInv open_called s v = open_file_manager-DialogInv s (v i j)
  handle-DialogInv close_called s v = close_file_manager-DialogInv s (v i j)
  handle-DialogInv upload_clicked s v =
      Frame-DialogInv i j s (discard_popover s) (ground arith) (v i j)
  handle-DialogInv new_folder_clicked s v =
      Frame-DialogInv i j s (show_popover create_action none s) (ground arith) (v i j)
  handle-DialogInv go_up_clicked s v =
      let t = discard_popover s in
      Frame-DialogInv i j t (go_up t) (go_up-Frame t)
        (Frame-DialogInv i j s t (ground arith) (v i j))
  handle-DialogInv cancel_clicked s v = terminate_upload-DialogInv i j true s (v i j)
  handle-DialogInv refresh_clicked s v =
      refresh-DialogInv (discard_popover s)
        (Frame-DialogInv i j s (discard_popover s) (ground arith) (v i j))
  handle-DialogInv (files_chosen files) s v = upload_files-DialogInv files s (v i j)
  handle-DialogInv (action_clicked action attrs) s v =
      let t = discard_popover s in
      Frame-DialogInv i j t (handle_file_action_click action attrs t)
        (handle_file_action_click-Frame action attrs t)
        (Frame-DialogInv i j s t (ground arith) (v i j))
  handle-DialogInv (popover_submitted input) s v =
      Frame-DialogInv i j s _ (submit_popover-Frame input s) (v i j)
  handle-DialogInv popover_cancelled s v =
      Frame-DialogInv i j s (discard_popover s) (ground arith) (v i j)
  handle-DialogInv (socket_opened k) s v = elim (Bool-cases (may_open (s.ready k))) [
    | inl e ↦ rw e (on_open-DialogInv k s (v i j) (v k j) e)
    | inr e ↦ rw e (v i j)
  ]
  handle-DialogInv (socket_closed k) s v = elim (Bool-cases (may_close (s.ready k))) [
    | inl e ↦ rw e (on_close-DialogInv k s (v i j))
    | inr e ↦ rw e (v i j)
  ]
  handle-DialogInv (message_received k a) s v =
      if-DialogInv i j (may_receive (s.ready k)) (handle_message a s) s
        (handle_message-DialogInv a s (v i j)) (v i j)
  handle-DialogInv block_read s v = Frame-DialogInv i j s _ (on_block-Frame s) (v i j)
  handle-DialogInv read_failed s v = on_read_error-DialogInv i j s (v i j)
  handle-DialogInv (timer_fired k) s v = fired-DialogInv k (s.pending k) s (v i j) (v i k) refl

-- Every event keeps the invariant.
pub step-DialogInv :
    (e : Event) (s : State) → ((i j : ℕ) → DialogInv i j s) → (i j : ℕ) → DialogInv i j (step e s)
unfolding step
step-DialogInv e s v i j =
    handle-DialogInv i j e (record s { threw = false })
      (λ i' j'. Frame-DialogInv i' j' s (record s { threw = false }) (ground arith) (v i' j'))

pub unloaded-DialogInv : (i j : ℕ) → DialogInv i j unloaded
unloaded-DialogInv i j = ground arith

pub run-DialogInv :
    (es : List Event) (s : State)
    → ((i j : ℕ) → DialogInv i j s)
    → (i j : ℕ) → DialogInv i j (run es s)
unfolding run
run-DialogInv [] s v = v
run-DialogInv (e ∷ es) s v = run-DialogInv es (step e s) (step-DialogInv e s v)

-- Whatever the user, the server and the network do after the page is loaded: a socket is live exactly
-- if it is the one that the dialog holds; a pending timer that connects is the one that it remembers and
-- the dialog is opened; a pending timer that resets the upload bar is the one that it remembers; a
-- closed dialog holds no socket; a connected dialog holds an open socket; and a dialog that is open
-- and shows no spinner is connected.
pub run-unloaded-DialogInv : (es : List Event) (i j : ℕ) → DialogInv i j (run es unloaded)
run-unloaded-DialogInv es = run-DialogInv es unloaded unloaded-DialogInv
