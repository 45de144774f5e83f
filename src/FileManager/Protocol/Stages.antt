-- ===== src/FileManager/Protocol/Stages.antt =====
-- The stages of an upload of app/fileManager.js, seen from the protocol of uploads.
use docker_baseimage_gui.Prelude.{
  ℕ, zero, suc, ◌+◌, ◌≤◌, ◌<◌, false, Option, none, some, List, [], ◌∷◌, ◌≡◌, ◌≢◌, refl, sym, subst,
  ap, ◌∙◌, arith, length, get_elem?, ◌==◌, inl, inr, Bool-cases, dec_lt,
}
use docker_baseimage_gui.FileManager.Path.{join_path}
use docker_baseimage_gui.FileManager.State.{File, Reader, Upload, upload, State, send, ◌⨾◌}
use docker_baseimage_gui.FileManager.Upload.{
  request_next_block, prepare, advance, terminate_upload, refresh, show_progress, set_progress,
}
use docker_baseimage_gui.FileManager.Upload.Blocks.{blob_at, next_blob-some, next_blob-none}
use docker_baseimage_gui.FileManager.Protocol.{idle, sending, Talk, next, ended}
use docker_baseimage_gui.FileManager.Protocol.Operations.{
  position, stage_of, Follows, ReadsOn, IsSound, Typed, same-Typed, IsAlive, send-Sends,
  stage_found,
}
use docker_baseimage_gui.FileManager.Frame.{Frame, advance-Frame}
use native.Mathlib.Decide.{ℕ_discrete}
use docker_baseimage_gui.FileManager.Protocol.Endings.{finish-Typed}

-- The next block is read, if there is one.
module _ (s : State) (u : Upload) (r : Reader) (file : File) (active : s.active_upload ≡ some u)
    (reader : u.file_reader ≡ some r) (f : Follows u r file) where
  abbrev reading_at : State
  reading_at = record s {
    active_upload = some (record u {
      file_reader = some (record r { reading = some (blob_at file.content r.file_pos) });
    });
  }

  reading_at-Typed : r.file_pos < length file.content → Typed s → Typed reading_at
  reading_at-Typed more v = record {
    talk = subst (λ g. Talk g s.sent) (ap stage_of active ∙ ground (arith, f.found)) v.talk;
    sound = (
      ground arith,
      (
        file,
        record {
          found = f.found;
          within = f.within;
          cur_follows = f.cur_follows;
          tot_follows = f.tot_follows;
          reads = (refl, more);
        },
      ),
    );
  }

  pub request-Typed :
      Typed s
      → (request_next_block file u r s).threw ≡ false
      → Typed (request_next_block file u r s)
  request-Typed v calm = elim (dec_lt r.file_pos (length file.content)) [
    | no whole ↦
        same-Typed s _
          (unfold request_next_block in ground (arith, next_blob-none file.content r.file_pos))
          (unfold request_next_block in ground (arith, next_blob-none file.content r.file_pos)) v
    | yes more ↦
        let e : request_next_block file u r s ≡ reading_at =
          unfold request_next_block in
          ground (arith, next_blob-some file.content r.file_pos more) in
        subst Typed (sym e) (reading_at-Typed more v)
  ]

pub get_elem?-none {ℓ} : {A : Type ℓ} (xs : List A) (n : ℕ) → length xs ≤ n → get_elem? xs n ≡ none
get_elem?-none [] n h = refl
get_elem?-none (x ∷ xs) zero h = absurd (omega arith)
get_elem?-none (x ∷ xs) (suc n) h = get_elem?-none xs n (omega arith)

pub get_elem?-some {ℓ} :
    {A : Type ℓ} (xs : List A) (n : ℕ) (x : A) → get_elem? xs n ≡ some x → n < length xs
get_elem?-some [] n x h = cc
get_elem?-some (y ∷ ys) zero x h = omega arith
get_elem?-some (y ∷ ys) (suc n) x h = omega (arith, get_elem?-some ys n x h)

-- The next file is requested, when all of this one was sent.
module _ (s : State) (u : Upload) (file : File) (active : s.active_upload ≡ some u)
    (found : get_elem? u.files u.files_processed ≡ some file)
    (whole : position u.file_reader ≡ length file.content) (level : u.cur ≡ u.tot) where
  abbrev next_upload : Upload
  next_upload = record u { files_processed = u.files_processed + 1; file_reader = none }

  abbrev next_file : State
  next_file = record s { active_upload = some next_upload }

  stage_before :
      stage_of s.active_upload
      ≡ sending u.dest_dir u.files u.files_processed (position u.file_reader)
  stage_before = ap stage_of active ∙ stage_found u file found

  next-Talk :
      (k : ℕ) (new_file : File)
      → get_elem? u.files (u.files_processed + 1) ≡ some new_file
      → Talk (stage_of s.active_upload) s.sent
      → Talk
          (stage_of (some next_upload))
          ((k, upload (join_path u.dest_dir new_file.name) (length new_file.content)) ∷ s.sent)
  next-Talk k new_file there t =
      let m = (k, upload (join_path u.dest_dir new_file.name) (length new_file.content)) ∷ s.sent in
      subst (λ g. Talk g m) (sym (stage_found next_upload new_file there))
        (next k u.dest_dir u.files file new_file (join_path u.dest_dir new_file.name)
          u.files_processed (u.files_processed + 1) (position u.file_reader) 0
          (length new_file.content) found whole (omega arith) refl there refl refl
          (subst (λ g. Talk g s.sent) stage_before t))

  prepare-Typed :
      Typed s
      → IsAlive s
      → s.threw ≡ false
      → (prepare next_upload next_file).threw ≡ false
      → Typed (prepare next_upload next_file)
  prepare-Typed v alive before calm = on_file (get_elem? u.files (u.files_processed + 1)) refl
    where
      on_file :
          (o : Option File)
          → get_elem? u.files (u.files_processed + 1) ≡ o
          → Typed (prepare next_upload next_file)
      on_file none e =
          let stays : prepare next_upload next_file ≡ next_file = unfold prepare in ground arith in
          let stage : stage_of (some next_upload) ≡ idle = ground arith in
          subst Typed (sym stays) (record {
            talk = subst (λ g. Talk g s.sent) (sym stage) (ended v.talk);
            sound = (ground arith, level);
          })
      on_file (some new_file) e =
          let m = upload (join_path u.dest_dir new_file.name) (length new_file.content) in
          let inside : u.files_processed + 1 < u.total_files =
            ground (arith, get_elem?-some u.files (u.files_processed + 1) new_file e) in
          let sends : prepare next_upload next_file ≡ send m next_file =
            unfold prepare in ground (arith, inside) in
          let (k, out) =
            send-Sends m next_file alive (subst (λ (x : State). x.threw ≡ false) sends calm) in
          subst Typed (sym (sends ∙ out))
            (record { talk = next-Talk k new_file e v.talk; sound = (ground arith, level) })

pub Frame-IsAlive : (s t : State) → Frame s t → IsAlive s → IsAlive t
Frame-IsAlive s t f alive i = ground (arith, alive i)

-- What advanceUpload does with the progress that `advance` returns.
shown-Typed :
    (t : State) (n : ℕ)
    → Typed t
    → IsAlive t
    → t.threw ≡ false
    → (show_progress (t, n)).threw ≡ false
    → Typed (show_progress (t, n))
unfolding show_progress
shown-Typed t n v alive before calm = elim (Bool-cases (n == 100)) [
  | inl e ↦
      let finishes : show_progress (t, n) ≡ (refresh ⨾ terminate_upload false) (set_progress n t) =
        ground (arith, e, before) in
      subst Typed (sym finishes) (
        finish-Typed (set_progress n t) v.talk alive before
          (subst (λ (x : State). x.threw ≡ false) finishes calm))
  | inr e ↦
      let stays : show_progress (t, n) ≡ set_progress n t = ground (arith, e, before) in
      subst Typed (sym stays) (same-Typed t (set_progress n t) refl refl v)
]

shown_before : (t : State) (n : ℕ) → (show_progress (t, n)).threw ≡ false → t.threw ≡ false
unfolding show_progress
shown_before t n calm = ground arith

-- The stage `advance`, with its progress, on a file that goes on.
module _ (s : State) (u : Upload) (file : File) (active : s.active_upload ≡ some u)
    (found : get_elem? u.files u.files_processed ≡ some file)
    (whole : u.cur ≡ u.tot → position u.file_reader ≡ length file.content) (v : Typed s)
    (alive : IsAlive s) (before : s.threw ≡ false) where
  -- The last file.
  last-Typed :
      u.cur ≡ u.tot
      → u.files_processed + 1 ≡ u.total_files
      → (show_progress (advance u s)).threw ≡ false
      → Typed (show_progress (advance u s))
  last-Typed level last calm =
      let t : State = record s {
        active_upload = some (record u { files_processed = u.files_processed + 1 });
      } in
      let e : show_progress (advance u s)
          ≡ (refresh ⨾ terminate_upload false) (set_progress 100 t) =
        unfold advance in unfold show_progress in ground (arith, level, last, before) in
      subst Typed (sym e) (
        finish-Typed (set_progress 100 t) v.talk alive before
          (subst (λ (x : State). x.threw ≡ false) e calm))

  -- Another file, or another block.
  next-Typed :
      (same : u.cur ≡ u.tot)
      → u.files_processed + 1 ≢ u.total_files
      → (advance u s).0.threw ≡ false
      → Typed (advance u s).0
  next-Typed same more calm =
      let t =
        prepare (next_upload s u file active found (whole same) same)
          (next_file s u file active found (whole same) same) in
      let e : (advance u s).0 ≡ t = unfold advance in ground arith in
      subst Typed (sym e) (
        prepare-Typed s u file active found (whole same) same v alive before
          (subst (λ (x : State). x.threw ≡ false) e calm))

  further-Typed :
      (o : Option Reader)
      → u.file_reader ≡ o
      → ReadsOn u o
      → u.cur ≢ u.tot
      → (advance u s).0.threw ≡ false
      → Typed (advance u s).0
  further-Typed none e level differ calm = unfold advance in ground arith
  further-Typed (some r) reader (file', f) differ calm =
      let e : (advance u s).0 ≡ request_next_block file' u r s =
        unfold advance in ground (arith, f.found) in
      subst Typed (sym e) (
        request-Typed s u r file' active reader f v (subst (λ (x : State). x.threw ≡ false) e calm))

  shown_further-Typed :
      ((advance u s).0.threw ≡ false → Typed (advance u s).0)
      → (show_progress (advance u s)).threw ≡ false
      → Typed (show_progress (advance u s))
  shown_further-Typed step calm =
      let quiet = shown_before (advance u s).0 (advance u s).1 calm in
      shown-Typed (advance u s).0 (advance u s).1 (step quiet)
        (Frame-IsAlive s (advance u s).0 (advance-Frame u s) alive) quiet calm

  pub advanced-Typed :
      (show_progress (advance u s)).threw ≡ false → Typed (show_progress (advance u s))
  advanced-Typed calm = elim (ℕ_discrete u.cur u.tot) [
    | no differ ↦
        shown_further-Typed
          (further-Typed u.file_reader refl (subst IsSound active v.sound).1 differ) calm
    | yes level ↦ elim (ℕ_discrete (u.files_processed + 1) u.total_files) [
      | no more ↦ shown_further-Typed (next-Typed level more) calm
      | yes last ↦ last-Typed level last calm
    ]
  ]
