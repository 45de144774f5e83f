-- ===== src/FileManager/Closing.antt =====
-- How transfers and the dialog of app/fileManager.js end, and where they do not.
use docker_baseimage_gui.Prelude.{ℕ, true, false, none, some, List, [], ◌∷◌, ◌≡◌, arith}
use docker_baseimage_gui.Browser.{may_close, is_live}
use docker_baseimage_gui.FileManager.State.{File, Upload, State, unloaded, send}
use docker_baseimage_gui.FileManager.Upload.{terminate_upload, upload_files, refresh}
use docker_baseimage_gui.FileManager.Connection.{
  disconnect, close_file_manager, on_open, on_close, connect,
}
use docker_baseimage_gui.FileManager.Step.{
  Event, close_called, cancel_clicked, files_chosen, socket_opened, socket_closed, timer_fired,
  step, run,
}
use docker_baseimage_gui.FileManager.Consistency.{DialogInv, is_connect}
use docker_baseimage_gui.FileManager.Invariant.{step-DialogInv, run-unloaded-DialogInv}

-- What is left after the dialog was closed.
pub record IsQuiet (s : State) : Type 0 where
  pub not_opened : s.manager_opened ≡ false
  pub no_socket : s.web_socket ≡ none
  pub no_upload : s.active_upload ≡ none
  pub no_download : s.active_download ≡ none
  pub no_popover : s.active_popover ≡ none
  pub no_alert : s.alert ≡ none
  pub calm : s.threw ≡ false

close-IsQuiet : (s : State) → s.manager_opened ≡ true → IsQuiet (step close_called s)
unfolding step close_file_manager disconnect terminate_upload
close-IsQuiet s o = ground arith

quiet_not_live : (i j : ℕ) (s : State) → IsQuiet s → DialogInv i j s → is_live (s.ready i) ≡ false
quiet_not_live i j s q v = ground (arith, q.no_socket, v.held)

quiet_no_timer :
    (i j : ℕ) (s : State) → IsQuiet s → DialogInv i j s → is_connect (s.pending j) ≡ false
quiet_no_timer i j s q v = ground (arith, q.not_opened, v.timed)

-- Whatever happened after the page was loaded, closing the dialog, if it is opened, ends its
-- connection, its transfers, its popover and its alert without a throw; afterwards no socket is live
-- and no timer is to connect.
pub close_called-ends :
    (es : List Event)
    → (run es unloaded).manager_opened ≡ true
    → let t = step close_called (run es unloaded) in
      IsQuiet t
      × ((i : ℕ) → is_live (t.ready i) ≡ false)
      × ((j : ℕ) → is_connect (t.pending j) ≡ false)
close_called-ends es o =
    let q = close-IsQuiet (run es unloaded) o in
    let v = step-DialogInv close_called (run es unloaded) (run-unloaded-DialogInv es) in
    (q, λ i. quiet_not_live i 0 _ q (v i 0), λ j. quiet_no_timer 0 j _ q (v 0 j))

-- Cancelling an active upload while there is no connection throws before the upload is forgotten: it
-- stays active, without a reader, and the button for uploads stays as it was.
pub cancel-stuck :
    (s : State) (u : Upload)
    → s.active_upload ≡ some u
    → s.web_socket ≡ none
    → let t = step cancel_clicked s in
      (t.threw ≡ true)
      × (t.active_upload ≡ some (record u { file_reader = none }))
      × (t.upload_disabled ≡ s.upload_disabled)
unfolding step terminate_upload send
cancel-stuck s u active down = ground arith

-- A connection that is lost in the opened dialog during an upload does not end the upload: after the
-- dialog is connected again the upload is as it was, and files that are chosen then do not replace it.
pub lost-keeps_upload :
    (s : State) (u : Upload) (i : ℕ) (files : List File)
    → s.active_upload ≡ some u
    → s.web_socket ≡ some i
    → may_close (s.ready i) ≡ true
    → s.manager_opened ≡ true
    → let t =
        run
          (socket_closed i
            ∷ timer_fired s.timers
            ∷ socket_opened s.sockets
            ∷ files_chosen files
            ∷ [])
          s in
      (t.active_upload ≡ some u) × (t.web_socket_connected ≡ true)
unfolding run step on_close disconnect connect on_open send refresh upload_files
lost-keeps_upload s u i files active held live o = ground arith
