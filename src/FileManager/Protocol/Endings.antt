-- ===== src/FileManager/Protocol/Endings.antt =====
-- How uploads of app/fileManager.js end, seen from the protocol of uploads.
use docker_baseimage_gui.Prelude.{
  ℕ, true, false, Option, none, some, ◌∷◌, ◌≡◌, refl, sym, subst, ap, ◌∙◌, arith, get_elem?,
  if◌then◌else◌,
}
use docker_baseimage_gui.FileManager.Path.{join_path}
use docker_baseimage_gui.FileManager.State.{
  File, Upload, Request, list_dir, cancel_upload, State, send, ◌⨾◌,
}
use docker_baseimage_gui.FileManager.Upload.{terminate, forget_upload, terminate_upload, refresh}
use docker_baseimage_gui.FileManager.Protocol.{Stage, idle, Talk, aside, cancelled, ended}
use docker_baseimage_gui.FileManager.Protocol.Operations.{
  position, stage_of, IsSound, Typed, same-Typed, IsAlive, send-Sends, stage_found,
}

-- An upload that is over.
pub over-Typed : (t : State) → t.active_upload ≡ none → Talk idle t.sent → Typed t
over-Typed t e talk = record {
  talk = subst (λ o. Talk (stage_of o) t.sent) (sym e) talk;
  sound = subst IsSound (sym e) tt;
}

forget_upload-sent : (s : State) → (forget_upload s).sent ≡ s.sent
unfolding forget_upload
forget_upload-sent s = ground arith

forget_upload-active : (s : State) → (forget_upload s).active_upload ≡ none
unfolding forget_upload
forget_upload-active s = ground arith

-- What terminateUpload leaves, where the cancellation is not sent.
ended-sent : (s : State) → (terminate_upload false s).sent ≡ s.sent
unfolding terminate_upload terminate forget_upload
ended-sent s = ground arith

ended-active : (s : State) → s.threw ≡ false → (terminate_upload false s).active_upload ≡ none
unfolding terminate_upload terminate forget_upload
ended-active s before = ground arith

-- An upload that ends without a word to the server.
pub ended-Typed : (s : State) → s.threw ≡ false → Typed s → Typed (terminate_upload false s)
ended-Typed s before v = on_upload s.active_upload refl
  where
    on_upload : (o : Option Upload) → s.active_upload ≡ o → Typed (terminate_upload false s)
    on_upload none e =
        same-Typed s _ (unfold terminate_upload in ground arith)
          (unfold terminate_upload in ground arith) v
    on_upload (some u) e =
        over-Typed (terminate_upload false s) (ended-active s before)
          (subst (Talk idle) (sym (ended-sent s)) (ended v.talk))

-- The cancellation of a file that goes on.
module _ (s : State) (u : Upload) (file : File) (active : s.active_upload ≡ some u)
    (found : get_elem? u.files u.files_processed ≡ some file) where
  abbrev stopped : State
  stopped = record s { active_upload = some (record u { file_reader = none }) }

  abbrev cancellation : Request
  cancellation = cancel_upload (join_path u.dest_dir file.name)

  cancelled-send : terminate true u s ≡ send cancellation stopped
  unfolding terminate
  cancelled-send = ground (arith, found)

  cancelled-Talk :
      (k : ℕ) → Talk (stage_of s.active_upload) s.sent → Talk idle ((k, cancellation) ∷ s.sent)
  cancelled-Talk k t =
      cancelled k u.dest_dir u.files file (join_path u.dest_dir file.name) u.files_processed
        (position u.file_reader) found refl
        (subst (λ g. Talk g s.sent) (ap stage_of active ∙ stage_found u file found) t)

  cancelled_file-Typed :
      Typed s
      → IsAlive s
      → (terminate_upload true s).threw ≡ false
      → Typed (terminate_upload true s)
  cancelled_file-Typed v alive calm =
      let whole : terminate_upload true s
          ≡ (let t = send cancellation stopped in if t.threw then t else forget_upload t) =
        unfold terminate_upload in ground (arith, cancelled-send) in
      let quiet : (send cancellation stopped).threw ≡ false =
        ground (arith, ap (λ (t : State). t.threw) whole) in
      let (k, e) = send-Sends cancellation stopped alive quiet in
      let t = record stopped { sent = (k, cancellation) ∷ s.sent } in
      let end : terminate_upload true s ≡ forget_upload (send cancellation stopped) =
        ground (arith, whole, quiet) in
      subst Typed (sym (end ∙ ap forget_upload e)) (
        over-Typed (forget_upload t) (forget_upload-active t)
          (subst (Talk idle) (sym (forget_upload-sent t)) (cancelled-Talk k v.talk)))

pub cancelled-Typed :
    (s : State)
    → Typed s
    → IsAlive s
    → (terminate_upload true s).threw ≡ false
    → Typed (terminate_upload true s)
cancelled-Typed s v alive calm = on_upload s.active_upload refl
  where
    on_file :
        (u : Upload) (o : Option File)
        → s.active_upload ≡ some u
        → get_elem? u.files u.files_processed ≡ o
        → Typed (terminate_upload true s)
    on_file u none active e = unfold terminate_upload in unfold terminate in ground arith
    on_file u (some file) active e = cancelled_file-Typed s u file active e v alive calm

    on_upload : (o : Option Upload) → s.active_upload ≡ o → Typed (terminate_upload true s)
    on_upload none e =
        same-Typed s _ (unfold terminate_upload in ground arith)
          (unfold terminate_upload in ground arith) v
    on_upload (some u) e = on_file u (get_elem? u.files u.files_processed) e refl

-- The end of a complete upload: the directory is listed again.
pub finish-Typed :
    {g : Stage} (s : State)
    → Talk g s.sent
    → IsAlive s
    → s.threw ≡ false
    → ((refresh ⨾ terminate_upload false) s).threw ≡ false
    → Typed ((refresh ⨾ terminate_upload false) s)
finish-Typed s talk alive before calm =
    let m = list_dir s.current_path in
    let quiet : (send m s).threw ≡ false = unfold refresh in ground arith in
    let (k, e) = send-Sends m s alive quiet in
    let t = record s { sent = (k, m) ∷ s.sent } in
    let end : (refresh ⨾ terminate_upload false) s ≡ terminate_upload false t =
      unfold refresh in ground (arith, quiet, e, before) in
    subst Typed (sym end) (
      over-Typed (terminate_upload false t) (ended-active t before)
        (subst (Talk idle) (sym (ended-sent t)) (aside k m refl (ended talk))))
