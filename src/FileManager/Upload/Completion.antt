-- ===== src/FileManager/Upload/Completion.antt =====
-- The transfer of one file of an upload of app/fileManager.js, from its announcement on.
use docker_baseimage_gui.Prelude.{
  ℕ, ◌*◌, ◌≤◌, ◌<◌, false, none, some, List, [], ◌∷◌, ◌≡◌, refl, ap, ◌∙◌, arith, length, get_elem?,
  dec_lt,
}
use docker_baseimage_gui.FileManager.Path.{join_path}
use docker_baseimage_gui.FileManager.State.{File, Upload, State, send}
use docker_baseimage_gui.FileManager.Upload.{block_size, is_reading, advance_upload, start_upload}
use docker_baseimage_gui.FileManager.Upload.Blocks.{blob_at, next_blob-some}
use docker_baseimage_gui.FileManager.Upload.Round.{
  IsOnline, reading, counted, transfer, transfer-idle,
}
use docker_baseimage_gui.FileManager.Upload.Transfer.{Adds, Adds-nil, Transferred, transfer_lem}

-- A file was announced to the server and is to be transferred.
pub record Announced (k : ℕ) (u : Upload) (file : File) (s : State) : Type 0 where
  pub online : IsOnline k s
  pub active : s.active_upload ≡ some u
  pub no_reader : u.file_reader ≡ none
  pub found : get_elem? u.files u.files_processed ≡ some file
  pub current : u.files_processed < u.total_files
  pub rested : u.cur ≡ u.tot

-- A file is complete, but for the acknowledgement of its last block (or of its announcement, if it
-- is empty).
pub record Complete (k : ℕ) (u : Upload) (file : File) (fuel : ℕ) (s : State) : Type 0 where
  pub last : State
  pub final : Upload
  pub online : IsOnline k last
  pub active : last.active_upload ≡ some final
  pub same_path : last.current_path ≡ s.current_path
  pub same_dir : final.dest_dir ≡ u.dest_dir
  pub same_files : final.files ≡ u.files
  pub same_total : final.total_files ≡ u.total_files
  pub same_processed : final.files_processed ≡ u.files_processed
  pub counters : final.cur ≡ final.tot
  pub added : Adds (join_path u.dest_dir file.name) file.content s.sent last.sent
  pub ended : transfer fuel (start_upload s) ≡ advance_upload last

nil_of_length {ℓ} : {A : Type ℓ} (xs : List A) → length xs ≡ 0 → xs ≡ []
nil_of_length [] e = refl
nil_of_length (x ∷ xs) e = absurd (omega arith)

module _ (k : ℕ) (u : Upload) (file : File) (s : State) (a : Announced k u file s) where
  start_upload-empty : length file.content ≡ 0 → start_upload s ≡ advance_upload s
  unfolding start_upload
  start_upload-empty e = ground (arith, a.active, a.no_reader, a.found)

  start_upload-some :
      0 < length file.content
      → start_upload s
        ≡ record s { active_upload = some (reading u 0 (some (blob_at file.content 0))) }
  unfolding start_upload
  start_upload-some h =
      ground (arith, next_blob-some file.content 0 h, a.active, a.no_reader, a.found)

  advance_upload-idle : is_reading (advance_upload s) ≡ false
  unfolding advance_upload send
  advance_upload-idle = ground (arith, a.active, a.no_reader, a.rested)

  empty-Complete : (fuel : ℕ) → length file.content ≡ 0 → Complete k u file fuel s
  empty-Complete fuel e = record {
    last = s;
    final = u;
    online = a.online;
    active = a.active;
    same_path = refl;
    same_dir = refl;
    same_files = refl;
    same_total = refl;
    same_processed = refl;
    counters = a.rested;
    added = rw (nil_of_length file.content e) (Adds-nil (join_path u.dest_dir file.name) s.sent);
    ended =
        ap (transfer fuel) (start_upload-empty e)
        ∙ transfer-idle fuel (advance_upload s) advance_upload-idle;
  }

  some-Complete :
      (fuel : ℕ)
      → 0 < length file.content
      → length file.content ≤ fuel * block_size
      → Complete k u file fuel s
  some-Complete fuel h enough =
      let s' : State = record s {
        active_upload = some (reading u 0 (some (blob_at file.content 0)));
      } in
      let t : Transferred k u file fuel 0 s' =
        transfer_lem fuel k u file s' 0 a.found a.current
          (record {
            held = a.online.held;
            open_socket = a.online.open_socket;
            calm = a.online.calm;
          })
          h (omega arith) refl in
      record {
        last = record s' {
          active_upload = some (
              counted (reading u (length file.content) none) (length file.content)
                (length file.content));
          progress_value = t.value;
          sent = t.after;
        };
        final =
            counted (reading u (length file.content) none) (length file.content)
              (length file.content);
        online = record {
          held = a.online.held;
          open_socket = a.online.open_socket;
          calm = a.online.calm;
        };
        active = refl;
        same_path = refl;
        same_dir = refl;
        same_files = refl;
        same_total = refl;
        same_processed = refl;
        counters = refl;
        added = t.added;
        ended = ap (transfer fuel) (start_upload-some h) ∙ t.ended;
      }

  pub complete : (fuel : ℕ) → length file.content ≤ fuel * block_size → Complete k u file fuel s
  complete fuel enough = elim (dec_lt 0 (length file.content)) [
    | yes h ↦ some-Complete fuel h enough
    | no h ↦ empty-Complete fuel (omega arith)
  ]
