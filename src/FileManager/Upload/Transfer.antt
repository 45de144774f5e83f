-- ===== src/FileManager/Upload/Transfer.antt =====
-- An upload of app/fileManager.js from beginning to end, with a server that accepts every request.
use docker_baseimage_gui.Prelude.{
  ℕ, zero, suc, ◌+◌, ◌-◌, ◌*◌, ◌≤◌, ◌<◌, none, some, List, [], ◌∷◌, ◌++◌, if◌then◌else◌, ◌≡◌, refl,
  ap, ◌∙◌, arith, length, drop, get_elem?, append_assoc, append-nil, drop_all, dec_lt,
}
use docker_baseimage_gui.Prelude.Text.{Text, text_eq}
use docker_baseimage_gui.FileManager.Path.{join_path}
use docker_baseimage_gui.FileManager.State.{File, Upload, Request, upload_block, State}
use docker_baseimage_gui.FileManager.Upload.{block_size, progress_of, advance_upload, on_block}
use docker_baseimage_gui.FileManager.Upload.Blocks.{blob_at, length-blob_at, blob_at-rest}
use docker_baseimage_gui.FileManager.Upload.Store.{stored}
use docker_baseimage_gui.FileManager.Upload.Round.{
  IsOnline, reading, counted, transfer, transfer-idle, transfer-reading, on_block-reading,
  advance_upload-more, advance_upload_complete,
}

-- The requests of the blocks from a position on add to the file what stands there, and change no
-- other file.
pub record Adds (path : Text) (rest : List ℕ) (before after : List (ℕ × Request)) : Type 0 where
  pub adds :
      (q : Text)
      → stored q after ≡ (if text_eq path q then stored q before ++ rest else stored q before)

Adds-block :
    (k : ℕ) (path : Text) (blob rest : List ℕ) (before after : List (ℕ × Request))
    → Adds path rest ((k, upload_block path blob) ∷ before) after
    → Adds path (blob ++ rest) before after
unfolding stored
Adds-block k path blob rest before after a = record {
  adds = λ q. ground (arith, a.adds q, append_assoc (stored q before) blob rest);
}

-- A transfer from position `pos` on ends with the acknowledgement of the last block, the blocks
-- before having added what the file holds there.
pub record Transferred (k : ℕ) (u : Upload) (file : File) (fuel pos : ℕ) (s : State) : Type 0 where
  pub value : ℕ
  pub after : List (ℕ × Request)
  pub added : Adds (join_path u.dest_dir file.name) (drop pos file.content) s.sent after
  pub ended :
      transfer fuel s
      ≡ advance_upload (record s {
        active_upload = some (
            counted
              (reading u (length file.content) none)
              (length file.content)
              (length file.content));
        progress_value = value;
        sent = after;
      })

pub Adds-nil : (path : Text) (sent : List (ℕ × Request)) → Adds path [] sent sent
Adds-nil path sent = record { adds = λ q. ground (arith, append-nil (stored q sent)) }

-- The blob at a position and then the rest of the file.
Adds-blob_at :
    (k pos : ℕ) (path : Text) (content : List ℕ) (before after : List (ℕ × Request))
    → Adds path
        (drop (pos + length (blob_at content pos)) content)
        ((k, upload_block path (blob_at content pos)) ∷ before)
        after
    → Adds path (drop pos content) before after
Adds-blob_at k pos path content before after a =
    rw (← blob_at-rest content pos) (Adds-block k path _ _ before after a)

module _ (k : ℕ) (u : Upload) (file : File)
    (found : get_elem? u.files u.files_processed ≡ some file)
    (cur : u.files_processed < u.total_files) where
  abbrev size : ℕ
  size = length file.content

  -- The last block.
  transfer_last :
      (fuel : ℕ) (s : State) (pos : ℕ)
      → IsOnline k s
      → pos + length (blob_at file.content pos) ≡ size
      → s.active_upload ≡ some (reading u pos (some (blob_at file.content pos)))
      → Transferred k u file (suc fuel) pos s
  transfer_last fuel s pos o last active =
      let blob = blob_at file.content pos in
      let after : List (ℕ × Request) =
        (k, upload_block (join_path u.dest_dir file.name) blob) ∷ s.sent in
      let t : State = record s {
        active_upload = some (counted (reading u size none) size size);
        sent = after;
      } in
      let sends : on_block s ≡ t =
        rw last at (on_block-reading k u file found s pos blob o active) in
      let online : IsOnline k t = record {
        held = o.held;
        open_socket = o.open_socket;
        calm = o.calm;
      } in
      record {
        value = s.progress_value;
        after = after;
        added =
            Adds-blob_at k pos _ file.content s.sent after
              (rw (last, drop_all size file.content (omega arith)) (Adds-nil _ after));
        ended =
            transfer-reading fuel s (rw active)
            ∙ ap (λ x. transfer fuel (advance_upload x)) sends
            ∙ transfer-idle fuel (advance_upload t)
                (advance_upload_complete k u file found t size online refl);
      }

  -- The state when the next block is being read.
  abbrev next_state : State → ℕ → State
  next_state s pos =
      let pos' = pos + length (blob_at file.content pos) in
      record s {
        active_upload =
            some (counted (reading u pos' (some (blob_at file.content pos'))) pos' size);
        progress_value = progress_of (counted (reading u pos' none) pos' size);
        sent =
            (k, upload_block (join_path u.dest_dir file.name) (blob_at file.content pos)) ∷ s.sent;
      }

  one_block :
      (s : State) (pos : ℕ)
      → IsOnline k s
      → pos + length (blob_at file.content pos) < size
      → 0 < length (blob_at file.content pos)
      → s.active_upload ≡ some (reading u pos (some (blob_at file.content pos)))
      → advance_upload (on_block s) ≡ next_state s pos
  one_block s pos o further some_bytes active =
      let pos' = pos + length (blob_at file.content pos) in
      let t : State = record s {
        active_upload = some (counted (reading u pos' none) pos' size);
        sent =
            (k, upload_block (join_path u.dest_dir file.name) (blob_at file.content pos)) ∷ s.sent;
      } in
      let online : IsOnline k t = record {
        held = o.held;
        open_socket = o.open_socket;
        calm = o.calm;
      } in
      ap advance_upload (on_block-reading k u file found s pos (blob_at file.content pos) o active)
      ∙ advance_upload-more k u file found t pos' online
          (record { current = cur; within = omega arith; begun = λ _. omega arith }) further refl

  transfer_further :
      (fuel : ℕ) (s : State) (pos : ℕ)
      → s.active_upload ≡ some (reading u pos (some (blob_at file.content pos)))
      → advance_upload (on_block s) ≡ next_state s pos
      → Transferred k
          (counted u (pos + length (blob_at file.content pos)) size)
          file
          fuel
          (pos + length (blob_at file.content pos))
          (next_state s pos)
      → Transferred k u file (suc fuel) pos s
  transfer_further fuel s pos active step rest = record {
    value = rest.value;
    after = rest.after;
    added = Adds-blob_at k pos _ file.content s.sent rest.after rest.added;
    ended = transfer-reading fuel s (rw active) ∙ ap (transfer fuel) step ∙ rest.ended;
  }

pub transfer_lem :
    (fuel k : ℕ) (u : Upload) (file : File) (s : State) (pos : ℕ)
    → get_elem? u.files u.files_processed ≡ some file
    → u.files_processed < u.total_files
    → IsOnline k s
    → pos < length file.content
    → length file.content - pos ≤ fuel * block_size
    → s.active_upload ≡ some (reading u pos (some (blob_at file.content pos)))
    → Transferred k u file fuel pos s
transfer_lem zero k u file s pos found cur o more enough active = absurd (omega arith)
transfer_lem (suc fuel) k u file s pos found cur o more enough active =
    elim (dec_lt (pos + length (blob_at file.content pos)) (length file.content)) [
      | no last ↦
          transfer_last k u file found cur fuel s pos o
            (omega (arith, length-blob_at file.content pos)) active
      | yes further ↦
          transfer_further k u file found cur fuel s pos active
            (one_block k u file found cur s pos o further
              (omega (arith, length-blob_at file.content pos)) active)
            (transfer_lem fuel k
              (counted u (pos + length (blob_at file.content pos)) (length file.content)) file
              (next_state k u file found cur s pos) (pos + length (blob_at file.content pos)) found
              cur (record { held = o.held; open_socket = o.open_socket; calm = o.calm }) further
              (omega (arith, length-blob_at file.content pos)) refl)
    ]
