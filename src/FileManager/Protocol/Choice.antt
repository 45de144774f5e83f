-- ===== src/FileManager/Protocol/Choice.antt =====
-- The choice of files to upload in app/fileManager.js, seen from the protocol of uploads.
use docker_baseimage_gui.Prelude.{
  ℕ, true, false, Option, none, some, List, ◌∷◌, ◌≡◌, refl, sym, subst, ap, ◌∙◌, arith, length,
  get_elem?,
}
use docker_baseimage_gui.Browser.{clear_timeout}
use docker_baseimage_gui.FileManager.Path.{join_path}
use docker_baseimage_gui.FileManager.State.{File, Upload, upload, State, send}
use docker_baseimage_gui.FileManager.Upload.{prepare, upload_files}
use docker_baseimage_gui.FileManager.Protocol.{idle, sending, Talk, begun}
use docker_baseimage_gui.FileManager.Protocol.Operations.{
  stage_of, IsSound, Typed, same-Typed, IsAlive, send-Sends, stage_found,
}
use docker_baseimage_gui.FileManager.Protocol.Stages.{get_elem?-some}

abbrev fresh_upload : List File → State → Upload
fresh_upload files s = record {
  dest_dir = s.current_path;
  files = files;
  total_files = length files;
  files_processed = 0;
  file_reader = none;
  cur = 0;
  tot = 0;
}

-- The first file is requested in a state without an upload before.
module _ (files : List File) (s t : State) (idle_before : s.active_upload ≡ none)
    (active : t.active_upload ≡ some (fresh_upload files s)) (sent : t.sent ≡ s.sent)
    (v : Typed s) where
  abbrev chosen : Upload
  chosen = fresh_upload files s

  talk_before : Talk idle t.sent
  talk_before =
      subst (Talk idle) (sym sent) (subst (λ g. Talk g s.sent) (ap stage_of idle_before) v.talk)

  first-Typed : IsAlive t → (prepare chosen t).threw ≡ false → Typed (prepare chosen t)
  first-Typed alive calm = on_file (get_elem? files 0) refl
    where
      on_file : (o : Option File) → get_elem? files 0 ≡ o → Typed (prepare chosen t)
      on_file none e =
          let stays : prepare chosen t ≡ t = unfold prepare in ground arith in
          let stage : stage_of t.active_upload ≡ idle = ap stage_of active ∙ ground arith in
          subst Typed (sym stays) (record {
            talk = subst (λ g. Talk g t.sent) (sym stage) talk_before;
            sound = subst IsSound (sym active) (refl, refl);
          })
      on_file (some file) e =
          let path = join_path s.current_path file.name in
          let m = upload path (length file.content) in
          let sends : prepare chosen t ≡ send m t =
            unfold prepare in ground (arith, get_elem?-some files 0 file e) in
          let (k, out) = send-Sends m t alive (subst (λ (x : State). x.threw ≡ false) sends calm) in
          let stage : stage_of t.active_upload ≡ sending s.current_path files 0 0 =
            ap stage_of active ∙ stage_found chosen file e in
          subst Typed (sym (sends ∙ out)) (record {
            talk =
                subst (λ g. Talk g ((k, m) ∷ t.sent)) (sym stage)
                  (begun k s.current_path files file path 0 0 (length file.content) refl refl e refl
                    refl talk_before);
            sound = subst IsSound (sym active) (refl, refl);
          })

-- The timer that would reset the dialog is cleared, and the progress bar shown.
abbrev timer_cleared : Option ℕ → State → State
timer_cleared none s = s
timer_cleared (some j) s = record s {
  browser = clear_timeout j s.browser;
  upload_ui_reset_timer = none;
}

abbrev prepared : Option ℕ → List File → State → State
prepared o files s = record (timer_cleared o s) {
  active_upload = some (fresh_upload files s);
  upload_disabled = true;
  progress_value = 0;
  progress_shown = true;
}

prepares :
    (files : List File) (s : State) (o : Option ℕ)
    → s.active_upload ≡ none
    → s.upload_ui_reset_timer ≡ o
    → upload_files files s ≡ prepare (fresh_upload files s) (prepared o files s)
unfolding upload_files
prepares files s none e f = ground arith
prepares files s (some j) e f = ground arith

prepared-IsAlive :
    (files : List File) (s : State) (o : Option ℕ) → IsAlive s → IsAlive (prepared o files s)
prepared-IsAlive files s none alive i = alive i
prepared-IsAlive files s (some j) alive i = alive i

prepared-sent : (files : List File) (s : State) (o : Option ℕ) → (prepared o files s).sent ≡ s.sent
prepared-sent files s none = refl
prepared-sent files s (some j) = refl

pub upload_files-Typed :
    (files : List File) (s : State)
    → Typed s
    → IsAlive s
    → (upload_files files s).threw ≡ false
    → Typed (upload_files files s)
upload_files-Typed files s v alive calm = on_upload s.active_upload refl
  where
    on_upload : (o : Option Upload) → s.active_upload ≡ o → Typed (upload_files files s)
    on_upload (some u) e =
        same-Typed s _ (unfold upload_files in ground arith) (unfold upload_files in ground arith) v
    on_upload none e =
        let o = s.upload_ui_reset_timer in
        let begins = prepares files s o e refl in
        subst Typed (sym begins) (
          first-Typed files s (prepared o files s) e refl (prepared-sent files s o) v
            (prepared-IsAlive files s o alive) (subst (λ (x : State). x.threw ≡ false) begins calm))
