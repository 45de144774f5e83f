-- ===== src/FileManager/Upload/Round.antt =====
-- One block of an upload of app/fileManager.js: it is read, sent and acknowledged.
use docker_baseimage_gui.Prelude.{
  ℕ, zero, suc, ◌+◌, ◌<◌, true, false, Option, none, some, List, ◌∷◌, ◌≡◌, refl, arith, length,
  get_elem?,
}
use docker_baseimage_gui.Prelude.Text.{Text}
use docker_baseimage_gui.Browser.{opened}
use docker_baseimage_gui.FileManager.Path.{join_path}
use docker_baseimage_gui.FileManager.State.{File, Upload, upload_block, State, send}
use docker_baseimage_gui.FileManager.Upload.{is_reading, progress_of, advance_upload, on_block}
use docker_baseimage_gui.FileManager.Upload.Progress.{UnderWay, progress_of-lt}
use docker_baseimage_gui.FileManager.Upload.Blocks.{blob_at, next_blob-some}

-- Requests go out on socket `k`.
pub record IsOnline (k : ℕ) (s : State) : Type 0 where
  pub held : s.web_socket ≡ some k
  pub open_socket : s.ready k ≡ opened
  pub calm : s.threw ≡ false

-- The current file of an upload, whose reader has come to a position and reads.
abbrev pub reading : Upload → ℕ → Option (List ℕ) → Upload
reading u pos blob = record u { file_reader = some (record { file_pos = pos; reading = blob }) }

-- The same after a block was read: the counters of the progress follow the reader.
abbrev pub counted : Upload → ℕ → ℕ → Upload
counted u pos size = record u { cur = pos; tot = size }

-- The server acknowledges each block that was read and sent, until nothing more is being read.
unfoldable pub transfer : ℕ → State → State
transfer zero s = s
transfer (suc fuel) s = elim (is_reading s) [
  | false ↦ s
  | true ↦ transfer fuel (advance_upload (on_block s))
]

pub transfer-idle : (fuel : ℕ) (s : State) → is_reading s ≡ false → transfer fuel s ≡ s
unfolding transfer
transfer-idle zero s h = refl
transfer-idle (suc fuel) s h = ground arith

module _ (k : ℕ) (u : Upload) (file : File)
    (found : get_elem? u.files u.files_processed ≡ some file) where
  abbrev file_path : Text
  file_path = join_path u.dest_dir file.name

  -- The block is sent as it was read.
  pub on_block-reading :
      (s : State) (pos : ℕ) (blob : List ℕ)
      → IsOnline k s
      → s.active_upload ≡ some (reading u pos (some blob))
      → on_block s ≡ record s {
        active_upload = some (
            counted (reading u (pos + length blob) none) (pos + length blob) (length file.content));
        sent = (k, upload_block file_path blob) ∷ s.sent;
      }
  unfolding on_block send
  on_block-reading s pos blob o active = ground arith

  -- An acknowledged block that does not end the file: the next one is read.
  pub advance_upload-more :
      (s : State) (pos : ℕ)
      → IsOnline k s
      → UnderWay (counted (reading u pos none) pos (length file.content))
      → pos < length file.content
      → s.active_upload ≡ some (counted (reading u pos none) pos (length file.content))
      → advance_upload s ≡ record s {
        active_upload =
            some
              (counted (reading u pos (some (blob_at file.content pos))) pos (length file.content));
        progress_value = progress_of (counted (reading u pos none) pos (length file.content));
      }
  unfolding advance_upload
  advance_upload-more s pos o v more active = ground (
    arith,
    next_blob-some file.content pos more,
    progress_of-lt (counted (reading u pos none) pos (length file.content)) v more,
  )

  -- Behind the last block of a file nothing is being read.
  pub advance_upload_complete :
      (s : State) (size : ℕ)
      → IsOnline k s
      → s.active_upload ≡ some (counted (reading u size none) size size)
      → is_reading (advance_upload s) ≡ false
  unfolding advance_upload send
  advance_upload_complete s size o active = ground arith

pub transfer-reading :
    (fuel : ℕ) (s : State)
    → is_reading s ≡ true
    → transfer (suc fuel) s ≡ transfer fuel (advance_upload (on_block s))
unfolding transfer
transfer-reading fuel s h = ground arith
