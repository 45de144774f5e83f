-- ===== src/FileManager/Protocol/Operations.antt =====
-- The operations of app/fileManager.js on an upload, seen from the protocol of uploads.
use docker_baseimage_gui.Prelude.{
  ℕ, ◌+◌, ◌≤◌, ◌<◌, true, false, Option, none, some, List, ◌∷◌, ◌≡◌, refl, sym, subst, ap, ◌∙◌,
  arith, length, get_elem?,
}
use docker_baseimage_gui.Prelude.Text.{Text}
use docker_baseimage_gui.Browser.{is_live}
use docker_baseimage_gui.FileManager.Path.{join_path}
use docker_baseimage_gui.FileManager.State.{
  File, Reader, Upload, Request, upload_block, State, send,
}
use docker_baseimage_gui.FileManager.Upload.{on_block}
use docker_baseimage_gui.FileManager.Upload.Blocks.{blob_at, length-blob_at}
use docker_baseimage_gui.FileManager.Protocol.{Stage, idle, sending, is_aside, Talk, aside, block}

abbrev pub position : Option Reader → ℕ
position none = 0
position (some r) = r.file_pos

-- Where an upload stands, by the variables of the module.
abbrev pub stage_of : Option Upload → Stage
stage_of none = idle
stage_of (some u) = elim (get_elem? u.files u.files_processed) [
  | none ↦ idle
  | some file ↦ sending u.dest_dir u.files u.files_processed (position u.file_reader)
]

-- A blob that is being read is the one behind the position.
abbrev pub Reads : List ℕ → ℕ → Option (List ℕ) → Type 0
Reads content pos none = Unit
Reads content pos (some blob) = (blob ≡ blob_at content pos) × (pos < length content)

-- The counters of the progress follow the reader, as soon as a block was read.
pub record Follows (u : Upload) (r : Reader) (file : File) : Type 0 where
  pub found : get_elem? u.files u.files_processed ≡ some file
  pub within : r.file_pos ≤ length file.content
  pub cur_follows : 0 < r.file_pos → u.cur ≡ r.file_pos
  pub tot_follows : 0 < r.file_pos → u.tot ≡ length file.content
  pub reads : Reads file.content r.file_pos r.reading

-- Without a reader, the counters are those of a complete file.
abbrev pub ReadsOn : Upload → Option Reader → Type 0
ReadsOn u none = u.cur ≡ u.tot
ReadsOn u (some r) = (file : File) × Follows u r file

abbrev pub IsSound : Option Upload → Type 0
IsSound none = Unit
IsSound (some u) = (u.total_files ≡ length u.files) × ReadsOn u u.file_reader

-- What was sent is a conversation that has come to where the upload is.
pub record Typed (s : State) : Type 0 where
  pub talk : Talk (stage_of s.active_upload) s.sent
  pub sound : IsSound s.active_upload

pub same-Typed :
    (s t : State) → t.active_upload ≡ s.active_upload → t.sent ≡ s.sent → Typed s → Typed t
same-Typed s t e f v = record {
  talk =
      subst (λ o. Talk (stage_of o) t.sent) (sym e)
        (subst (Talk (stage_of s.active_upload)) (sym f) v.talk);
  sound = subst IsSound (sym e) v.sound;
}

-- The socket that is held is live.
abbrev pub IsAlive : State → Type 0
IsAlive s = (i : ℕ) → s.web_socket ≡ some i → is_live (s.ready i) ≡ true

-- A message that was not refused by a throw has gone out.
abbrev pub Sends : Request → State → State → Type 0
Sends m s t = (k : ℕ) × (t ≡ record s { sent = (k, m) ∷ s.sent })

pub send-Sends :
    (m : Request) (s : State) → IsAlive s → (send m s).threw ≡ false → Sends m s (send m s)
unfolding send
send-Sends m s alive calm = on_socket s.web_socket refl
  where
    on_socket :
        (o : Option ℕ)
        → s.web_socket ≡ o
        → (k : ℕ) × (send m s ≡ record s { sent = (k, m) ∷ s.sent })
    on_socket none e = ground arith
    on_socket (some i) e = (i, ground (arith, alive i))

pub stage_found :
    (u : Upload) (file : File)
    → get_elem? u.files u.files_processed ≡ some file
    → stage_of (some u) ≡ sending u.dest_dir u.files u.files_processed (position u.file_reader)
stage_found u file found = ground arith

module _ (s : State) (v : Typed s) where
  aside_sent : (r : Request) (t : State) → is_aside r ≡ true → Sends r s t → Typed t
  aside_sent r t other (k, e) =
      subst Typed (sym e) (record { talk = aside k r other v.talk; sound = v.sound })

  pub send-Typed :
      (r : Request) → is_aside r ≡ true → IsAlive s → (send r s).threw ≡ false → Typed (send r s)
  send-Typed r other alive calm = aside_sent r (send r s) other (send-Sends r s alive calm)

-- The block that was read goes out.
module _ (s : State) (u : Upload) (r : Reader) (file : File) (blob : List ℕ)
    (active : s.active_upload ≡ some u) (reader : u.file_reader ≡ some r) (f : Follows u r file)
    (read : r.reading ≡ some blob) where
  abbrev counted : Upload
  counted = record u {
    file_reader = some (record { file_pos = r.file_pos + length blob; reading = none });
    cur = r.file_pos + length blob;
    tot = length file.content;
  }

  abbrev path : Text
  path = join_path u.dest_dir file.name

  on_block-send :
      on_block s ≡ send (upload_block path blob) (record s { active_upload = some counted })
  unfolding on_block
  on_block-send = ground (arith, f.found)

  talk_block :
      (k : ℕ)
      → Talk (stage_of s.active_upload) s.sent
      → Reads file.content r.file_pos (some blob)
      → Talk (stage_of (some counted)) ((k, upload_block path blob) ∷ s.sent)
  talk_block k t b =
      let before : stage_of s.active_upload
          ≡ sending u.dest_dir u.files u.files_processed r.file_pos =
        ground (arith, f.found) in
      subst (λ g. Talk g ((k, upload_block path blob) ∷ s.sent))
        (sym (stage_found counted file f.found))
        (block k u.dest_dir u.files file path blob u.files_processed r.file_pos
          (r.file_pos + length blob) f.found refl b.1 b.0 refl
          (subst (λ g. Talk g s.sent) before t))

  counted-Follows :
      Reads file.content r.file_pos (some blob)
      → Follows counted (record { file_pos = r.file_pos + length blob; reading = none }) file
  counted-Follows b = record {
    found = f.found;
    within = ground (arith, length-blob_at file.content r.file_pos, ap length b.0);
    cur_follows = λ h. refl;
    tot_follows = λ h. refl;
    reads = tt;
  }

  on_block-Typed : Typed s → IsAlive s → (on_block s).threw ≡ false → Typed (on_block s)
  on_block-Typed v alive calm =
      let t : State = record s { active_upload = some counted } in
      let b : Reads file.content r.file_pos (some blob) =
        subst (Reads file.content r.file_pos) read f.reads in
      let (k, e) =
        send-Sends (upload_block path blob) t alive
          (subst (λ x. x.threw ≡ false) on_block-send calm) in
      subst Typed (sym (on_block-send ∙ e))
        (record { talk = talk_block k v.talk b; sound = (ground arith, (file, counted-Follows b)) })

-- The event of the file reader, whether or not a blob was being read.
pub block_read-Typed :
    (s : State) → Typed s → IsAlive s → (on_block s).threw ≡ false → Typed (on_block s)
block_read-Typed s v alive calm = on_upload s.active_upload refl
  where
    on_blob :
        (u : Upload) (r : Reader) (file : File) (o : Option (List ℕ))
        → s.active_upload ≡ some u
        → u.file_reader ≡ some r
        → Follows u r file
        → r.reading ≡ o
        → Typed (on_block s)
    on_blob u r file none active reader f e =
        same-Typed s (on_block s) (unfold on_block in ground arith)
          (unfold on_block in ground arith) v
    on_blob u r file (some blob) active reader f e =
        on_block-Typed s u r file blob active reader f e v alive calm

    on_reader :
        (u : Upload) (o : Option Reader)
        → s.active_upload ≡ some u
        → u.file_reader ≡ o
        → ReadsOn u o
        → Typed (on_block s)
    on_reader u none active e f =
        same-Typed s (on_block s) (unfold on_block in ground arith)
          (unfold on_block in ground arith) v
    on_reader u (some r) active e (file, f) = on_blob u r file r.reading active e f refl

    on_upload : (o : Option Upload) → s.active_upload ≡ o → Typed (on_block s)
    on_upload none e =
        same-Typed s (on_block s) (unfold on_block in ground arith)
          (unfold on_block in ground arith) v
    on_upload (some u) e = on_reader u u.file_reader e refl (subst IsSound e v.sound).1
