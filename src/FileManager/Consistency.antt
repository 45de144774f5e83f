-- ===== src/FileManager/Consistency.antt =====
-- What holds of the connection, the timers and the dialog of app/fileManager.js, and the operations
-- on the connection and on transfers that keep it.
use docker_baseimage_gui.Prelude.{
  ℕ, Bool, true, false, Option, none, some, List, ◌≡◌, arith, Bool-cases, inl, inr, if◌then◌else◌,
  ◌==◌, length, get_elem?,
}
use docker_baseimage_gui.Prelude.Text.{Text}
use docker_baseimage_gui.Browser.{
  Ready, Callback, connect_web_socket, reset_upload_ui, opened, unborn, is_live,
}
use docker_baseimage_gui.FileManager.State.{
  spinner_shown, Entry, File, Reader, Upload, Request, State, ◌⨾◌, throw, send, show_error,
}
use docker_baseimage_gui.FileManager.Upload.{
  request_next_block, advance, terminate, forget_upload, terminate_upload, reset_ui, refresh,
  set_progress, show_progress, begin_file, start, is_reading, fail_upload, advance_upload,
  start_upload, on_read_error,
}
use docker_baseimage_gui.FileManager.Frame.{Frame, advance-Frame, terminate-Frame}
use docker_baseimage_gui.FileManager.Connection.{connect, disconnect, render_file_list}

abbrev pub is_connect : Option Callback → Bool
is_connect (some connect_web_socket) = true
is_connect c = false

abbrev pub is_reset : Option Callback → Bool
is_reset (some reset_upload_ui) = true
is_reset c = false

abbrev pub current_ready : State → Ready
current_ready s = elim s.web_socket [ none ↦ unborn | some i ↦ s.ready i ]

-- The invariant, for one socket and one timer.
pub record DialogInv (i j : ℕ) (s : State) : Type 0 where
  -- If the socket is live, it is the one that the module holds.
  pub held : is_live (s.ready i) ≡ true → s.web_socket ≡ some i
  -- If the module holds the socket, it is live.
  pub alive : s.web_socket ≡ some i → is_live (s.ready i) ≡ true
  -- If the timer is to connect, it is the one that the module remembers, and the dialog is open.
  pub named : is_connect (s.pending j) ≡ true → s.connect_timer ≡ some j
  pub timed : is_connect (s.pending j) ≡ true → s.manager_opened ≡ true
  -- If the timer is to reset the dialog, it is the other one that the module remembers.
  pub reset_named : is_reset (s.pending j) ≡ true → s.upload_ui_reset_timer ≡ some j
  -- A closed dialog has no connection.
  pub owned : s.manager_opened ≡ false → s.web_socket ≡ none
  pub connected_open : s.web_socket_connected ≡ true → current_ready s ≡ opened
  -- While the dialog is open without its spinner, it is connected.
  pub usable :
      s.manager_opened ≡ true → spinner_shown s.callbacks ≡ false → s.web_socket_connected ≡ true

module _ (i j : ℕ) (s : State) (v : DialogInv i j s) where
  pub send-DialogInv : (m : Request) → DialogInv i j (send m s)
  unfolding send
  send-DialogInv m = ground arith

  pub connect-DialogInv : s.manager_opened ≡ true → DialogInv i j (connect s)
  unfolding connect
  connect-DialogInv o = ground arith

  disconnect-DialogInv : spinner_shown s.callbacks ≡ true → DialogInv i j (disconnect s)
  unfolding disconnect
  disconnect-DialogInv shown = ground arith

  request_next_block-DialogInv :
      (file : File) (u : Upload) (r : Reader) → DialogInv i j (request_next_block file u r s)
  unfolding request_next_block
  request_next_block-DialogInv file u r = ground arith

  forget_upload-DialogInv : DialogInv i j (forget_upload s)
  unfolding forget_upload
  forget_upload-DialogInv = ground arith

  pub reset_ui-DialogInv : is_reset (s.pending j) ≡ false → DialogInv i j (reset_ui s)
  unfolding reset_ui
  reset_ui-DialogInv fired = ground arith

  pub render_file_list-DialogInv :
      (path : Text) (files : Option (List Entry)) → DialogInv i j (render_file_list path files s)
  unfolding render_file_list
  render_file_list-DialogInv path files = ground arith

  set_upload-DialogInv : (u : Option Upload) → DialogInv i j (record s { active_upload = u })
  set_upload-DialogInv u = ground arith

⨾-DialogInv :
    (i j : ℕ) (f g : State → State) (s : State)
    → DialogInv i j (f s)
    → (DialogInv i j (f s) → DialogInv i j (g (f s)))
    → DialogInv i j ((f ⨾ g) s)
⨾-DialogInv i j f g s v w = elim (Bool-cases (f s).threw) [
  | inl e ↦ simp e v
  | inr e ↦ simp e (w v)
]

pub Frame-DialogInv : (i j : ℕ) (s t : State) → Frame s t → DialogInv i j s → DialogInv i j t
Frame-DialogInv i j s t f v = ground arith

module _ (i j : ℕ) where
  pub if-DialogInv :
      (b : Bool) (x y : State)
      → DialogInv i j x
      → DialogInv i j y
      → DialogInv i j (if b then x else y)
  if-DialogInv true x y v w = v
  if-DialogInv false x y v w = w

  terminated-DialogInv :
      (cancel : Bool) (o : Option Upload) (s : State)
      → DialogInv i j s
      → DialogInv i j (elim o [ none ↦ s | some u ↦ (terminate cancel u ⨾ forget_upload) s ])
  terminated-DialogInv cancel none s v = v
  terminated-DialogInv cancel (some u) s v =
      ⨾-DialogInv i j (terminate cancel u) forget_upload s
        (Frame-DialogInv i j s _ (terminate-Frame cancel u s) v) (forget_upload-DialogInv i j _)

  pub terminate_upload-DialogInv :
      (cancel : Bool) (s : State) → DialogInv i j s → DialogInv i j (terminate_upload cancel s)
  unfolding terminate_upload
  terminate_upload-DialogInv cancel s = terminated-DialogInv cancel s.active_upload s

  show_progress-DialogInv :
      (t : State) (progress : ℕ) → DialogInv i j t → DialogInv i j (show_progress (t, progress))
  unfolding show_progress
  show_progress-DialogInv t progress v = if-DialogInv t.threw t _ v (
      if-DialogInv (progress == 100) _ _
        (⨾-DialogInv i j refresh (terminate_upload false) (set_progress progress t)
          (Frame-DialogInv i j t _ (unfold refresh send in ground arith) v)
          (terminate_upload-DialogInv false _))
        (Frame-DialogInv i j t _ (ground arith) v))

  advanced-DialogInv :
      (o : Option Upload) (s : State)
      → DialogInv i j s
      → DialogInv i j (elim o [ none ↦ s | some u ↦ show_progress (advance u s) ])
  advanced-DialogInv none s v = v
  advanced-DialogInv (some u) s v =
      show_progress-DialogInv (advance u s).0 (advance u s).1
        (Frame-DialogInv i j s _ (advance-Frame u s) v)

  pub advance_upload-DialogInv : (s : State) → DialogInv i j s → DialogInv i j (advance_upload s)
  unfolding advance_upload
  advance_upload-DialogInv s = advanced-DialogInv s.active_upload s

  started-DialogInv :
      (o : Option File) (u : Upload) (s : State)
      → DialogInv i j s
      → DialogInv i j (elim o [ none ↦ throw s | some file ↦ begin_file file u s ])
  started-DialogInv none u s v = Frame-DialogInv i j s _ (ground arith) v
  started-DialogInv (some file) u s v =
      unfold begin_file in
      if-DialogInv (length file.content == 0) (advance_upload s) _ (advance_upload-DialogInv s v)
        (Frame-DialogInv i j s _ (unfold request_next_block in ground arith) v)

  start-DialogInv : (u : Upload) (s : State) → DialogInv i j s → DialogInv i j (start u s)
  unfolding start
  start-DialogInv u s v = on_reader u.file_reader
    where
      on_reader :
          (o : Option Reader)
          → DialogInv i j (elim o [
            | some r ↦ s
            | none ↦ elim (get_elem? u.files u.files_processed) [
              | none ↦ throw s
              | some file ↦ begin_file file u s
            ]
          ])
      on_reader (some r) = v
      on_reader none = started-DialogInv (get_elem? u.files u.files_processed) u s v

  pub start_upload-DialogInv : (s : State) → DialogInv i j s → DialogInv i j (start_upload s)
  unfolding start_upload
  start_upload-DialogInv s v = on_upload s.active_upload
    where
      on_upload : (o : Option Upload) → DialogInv i j (elim o [ none ↦ s | some u ↦ start u s ])
      on_upload none = v
      on_upload (some u) = start-DialogInv u s v

  pub on_read_error-DialogInv : (s : State) → DialogInv i j s → DialogInv i j (on_read_error s)
  unfolding on_read_error
  on_read_error-DialogInv s v =
      if-DialogInv (is_reading s) (fail_upload s) s
        (unfold fail_upload in
          ⨾-DialogInv i j (show_error _) (terminate_upload true) s
            (Frame-DialogInv i j s _ (unfold show_error in ground arith) v)
            (terminate_upload-DialogInv true _))
        v
