-- ===== src/FileManager/Protocol/Beginning.antt =====
-- How an upload of app/fileManager.js begins and goes on by the answers of the server, seen from the
-- protocol of uploads.
use docker_baseimage_gui.Prelude.{
  Bool, true, false, Option, none, some, ◌≡◌, refl, sym, subst, ap, ◌∙◌, arith, length, get_elem?,
  ◌==◌, ltb, inl, inr, Bool-cases,
}
use docker_baseimage_gui.FileManager.State.{File, Reader, Upload, State}
use docker_baseimage_gui.FileManager.Upload.{
  request_next_block, advance, show_progress, advance_upload, begin_file, start, start_upload,
}
use docker_baseimage_gui.FileManager.Protocol.{Talk}
use docker_baseimage_gui.FileManager.Protocol.Operations.{
  stage_of, Follows, ReadsOn, IsSound, Typed, same-Typed, IsAlive,
}
use docker_baseimage_gui.FileManager.Protocol.Stages.{request-Typed, advanced-Typed}

-- A block is acknowledged in turn where it was sent and no other one is being read, or where no upload
-- goes on any more.
abbrev pub has_sent_block : Option Upload → Bool
has_sent_block none = true
has_sent_block (some u) = elim u.file_reader [
  | none ↦ false
  | some r ↦ elim r.reading [ none ↦ ltb 0 r.file_pos | some blob ↦ false ]
]

pub advance_upload-Typed :
    (s : State)
    → has_sent_block s.active_upload ≡ true
    → Typed s
    → IsAlive s
    → s.threw ≡ false
    → (advance_upload s).threw ≡ false
    → Typed (advance_upload s)
advance_upload-Typed s in_turn v alive before calm = on_upload s.active_upload refl
  where
    on_reader :
        (u : Upload) (o : Option Reader)
        → s.active_upload ≡ some u
        → u.file_reader ≡ o
        → ReadsOn u o
        → Typed (advance_upload s)
    on_reader u none active e f = ground arith
    on_reader u (some r) active e (file, f) =
        let shown : advance_upload s ≡ show_progress (advance u s) =
          unfold advance_upload in ground arith in
        subst Typed (sym shown) (
          advanced-Typed s u file active f.found
            (λ level. ground (arith, f.cur_follows, f.tot_follows)) v alive before
            (subst (λ (x : State). x.threw ≡ false) shown calm))

    on_upload : (o : Option Upload) → s.active_upload ≡ o → Typed (advance_upload s)
    on_upload none e =
        same-Typed s _ (unfold advance_upload in ground arith)
          (unfold advance_upload in ground arith) v
    on_upload (some u) e = on_reader u u.file_reader e refl (subst IsSound e v.sound).1

module _ (s : State) (u : Upload) (file : File) (active : s.active_upload ≡ some u)
    (fresh : u.file_reader ≡ none) (found : get_elem? u.files u.files_processed ≡ some file)
    (v : Typed s) (alive : IsAlive s) (before : s.threw ≡ false) where
  -- An empty file is complete at once.
  empty-Typed :
      length file.content ≡ 0 → (begin_file file u s).threw ≡ false → Typed (begin_file file u s)
  empty-Typed empty calm =
      let shown : begin_file file u s ≡ show_progress (advance u s) =
        unfold begin_file in unfold advance_upload in ground (arith, empty) in
      subst Typed (sym shown) (
        advanced-Typed s u file active found (λ level. ground (arith, empty)) v alive before
          (subst (λ (x : State). x.threw ≡ false) shown calm))

  abbrev new_reader : Reader
  new_reader = record { file_pos = 0; reading = none }

  abbrev with_reader : Upload
  with_reader = record u { file_reader = some new_reader }

  abbrev opened_file : State
  opened_file = record s { active_upload = some with_reader }

  new_reader-Follows : Follows with_reader new_reader file
  new_reader-Follows = record {
    found = found;
    within = omega arith;
    cur_follows = λ h. absurd (omega arith);
    tot_follows = λ h. absurd (omega arith);
    reads = tt;
  }

  opened_file-Typed : Typed opened_file
  opened_file-Typed = record {
    talk = subst (λ g. Talk g s.sent) (ap stage_of active ∙ ground (arith, found)) v.talk;
    sound = (ground arith, (file, new_reader-Follows));
  }

  begin_file-Typed : (begin_file file u s).threw ≡ false → Typed (begin_file file u s)
  begin_file-Typed calm = elim (Bool-cases (length file.content == 0)) [
    | inl e ↦ empty-Typed (ground (arith, e)) calm
    | inr e ↦
        let requests : begin_file file u s
            ≡ request_next_block file with_reader new_reader opened_file =
          unfold begin_file in ground (arith, e) in
        subst Typed (sym requests) (
          request-Typed opened_file with_reader new_reader file refl refl new_reader-Follows
            opened_file-Typed (subst (λ (x : State). x.threw ≡ false) requests calm))
  ]

pub start_upload-Typed :
    (s : State)
    → Typed s
    → IsAlive s
    → s.threw ≡ false
    → (start_upload s).threw ≡ false
    → Typed (start_upload s)
start_upload-Typed s v alive before calm = on_upload s.active_upload refl
  where
    on_file :
        (u : Upload) (o : Option File)
        → s.active_upload ≡ some u
        → u.file_reader ≡ none
        → get_elem? u.files u.files_processed ≡ o
        → Typed (start_upload s)
    on_file u none active fresh e = unfold start_upload in unfold start in ground arith
    on_file u (some file) active fresh e =
        let begins : start_upload s ≡ begin_file file u s =
          unfold start_upload in unfold start in ground arith in
        subst Typed (sym begins) (
          begin_file-Typed s u file active fresh e v alive before
            (subst (λ (x : State). x.threw ≡ false) begins calm))

    on_reader :
        (u : Upload) (o : Option Reader)
        → s.active_upload ≡ some u
        → u.file_reader ≡ o
        → Typed (start_upload s)
    on_reader u none active e = on_file u (get_elem? u.files u.files_processed) active e refl
    on_reader u (some r) active e =
        same-Typed s _ (unfold start_upload in unfold start in ground arith)
          (unfold start_upload in unfold start in ground arith) v

    on_upload : (o : Option Upload) → s.active_upload ≡ o → Typed (start_upload s)
    on_upload none e =
        same-Typed s _ (unfold start_upload in ground arith) (unfold start_upload in ground arith) v
    on_upload (some u) e = on_reader u u.file_reader e refl
