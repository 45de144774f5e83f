-- ===== src/FileManager/Protocol.antt =====
-- The protocol of uploads between app/fileManager.js and the server, as a type of what may be sent.
pub mod Operations
pub mod Endings
pub mod Stages
pub mod Beginning
pub mod Choice
pub mod Actions
pub mod Handlers
pub mod Typing
use docker_baseimage_gui.Prelude.{
  ℕ, zero, suc, ◌+◌, ◌≤◌, ◌<◌, Bool, true, false, Option, none, some, List, [], ◌∷◌, ◌++◌, ◌≡◌,
  refl, sym, ◌∙◌, ap, arith, length, get_elem?, take, drop,
}
use docker_baseimage_gui.Prelude.Text.{Text}
use docker_baseimage_gui.FileManager.Path.{join_path}
use docker_baseimage_gui.FileManager.State.{
  File, Reader, Upload, Request, list_dir, delete, create_folder, cancel_upload, download, rename,
  upload, upload_block, State,
}
use docker_baseimage_gui.FileManager.Upload.Blocks.{blob_at, blob_at-extends}

-- Where the conversation stands: no upload goes on, or of an upload of files to a directory the file
-- with this number goes on, of which so many bytes were sent.
pub data Stage : Type 0 where
  idle : Stage
  sending : Text → List File → ℕ → ℕ → Stage

abbrev pub is_aside : Request → Bool
is_aside (upload path size) = false
is_aside (upload_block path blob) = false
is_aside (cancel_upload path) = false
is_aside r = true

-- What was sent, the newest first, where the conversation stands now. An upload begins with the request
-- for its first file. Blocks follow, each of them what the file holds behind the blocks before. Behind
-- the last byte the next file may be requested. A cancellation names the file that goes on; an upload
-- may also end silently, and requests of other kinds may stand in between.
pub data Talk : Stage → List (ℕ × Request) → Type 0 where
  silent : Talk idle []
  aside :
      {g : Stage} {m : List (ℕ × Request)} (k : ℕ) (r : Request)
      → is_aside r ≡ true
      → Talk g m
      → Talk g ((k, r) ∷ m)
  begun :
      {m : List (ℕ × Request)} (k : ℕ) (dir : Text) (files : List File) (file : File) (path : Text)
      (n d size : ℕ)
      → n ≡ 0
      → d ≡ 0
      → get_elem? files n ≡ some file
      → path ≡ join_path dir file.name
      → size ≡ length file.content
      → Talk idle m
      → Talk (sending dir files n d) ((k, upload path size) ∷ m)
  block :
      {m : List (ℕ × Request)} (k : ℕ) (dir : Text) (files : List File) (file : File) (path : Text)
      (blob : List ℕ) (n d after : ℕ)
      → get_elem? files n ≡ some file
      → path ≡ join_path dir file.name
      → d < length file.content
      → blob ≡ blob_at file.content d
      → after ≡ d + length blob
      → Talk (sending dir files n d) m
      → Talk (sending dir files n after) ((k, upload_block path blob) ∷ m)
  next :
      {m : List (ℕ × Request)} (k : ℕ) (dir : Text) (files : List File) (file new_file : File)
      (path : Text) (n next_n done d size : ℕ)
      → get_elem? files n ≡ some file
      → done ≡ length file.content
      → next_n ≡ suc n
      → d ≡ 0
      → get_elem? files next_n ≡ some new_file
      → path ≡ join_path dir new_file.name
      → size ≡ length new_file.content
      → Talk (sending dir files n done) m
      → Talk (sending dir files next_n d) ((k, upload path size) ∷ m)
  cancelled :
      {m : List (ℕ × Request)} (k : ℕ) (dir : Text) (files : List File) (file : File) (path : Text)
      (n d : ℕ)
      → get_elem? files n ≡ some file
      → path ≡ join_path dir file.name
      → Talk (sending dir files n d) m
      → Talk idle ((k, cancel_upload path) ∷ m)
  ended : {g : Stage} {m : List (ℕ × Request)} → Talk g m → Talk idle m

-- The bytes of the blocks that were sent since the last request of an upload.
pub bytes_sent : List (ℕ × Request) → List ℕ
bytes_sent [] = []
bytes_sent ((k, upload path size) ∷ m) = []
bytes_sent ((k, upload_block path blob) ∷ m) = bytes_sent m ++ blob
bytes_sent ((k, r) ∷ m) = bytes_sent m

bytes_sent-aside :
    (k : ℕ) (r : Request) (m : List (ℕ × Request))
    → is_aside r ≡ true
    → bytes_sent ((k, r) ∷ m) ≡ bytes_sent m
unfolding bytes_sent
bytes_sent-aside k (list_dir p) m h = refl
bytes_sent-aside k (delete p) m h = refl
bytes_sent-aside k (create_folder p) m h = refl
bytes_sent-aside k (cancel_upload p) m h = cc
bytes_sent-aside k (download p) m h = refl
bytes_sent-aside k (rename p q) m h = refl
bytes_sent-aside k (upload p n) m h = cc
bytes_sent-aside k (upload_block p b) m h = cc

-- So the bytes sent of a file are the beginning of what it holds.
abbrev Begins : Stage → List (ℕ × Request) → Type 0
Begins idle m = Unit
Begins (sending dir files n d) m =
    (file : File) → get_elem? files n ≡ some file → bytes_sent m ≡ take d file.content

Begins-aside :
    (g : Stage) (k : ℕ) (r : Request) (m : List (ℕ × Request))
    → is_aside r ≡ true
    → Begins g m
    → Begins g ((k, r) ∷ m)
Begins-aside idle k r m h b = tt
Begins-aside (sending dir files n d) k r m h b =
    λ file found. bytes_sent-aside k r m h ∙ b file found

block-Begins :
    (k : ℕ) (dir : Text) (files : List File) (file : File) (path : Text) (n d : ℕ)
    (m : List (ℕ × Request))
    → get_elem? files n ≡ some file
    → Begins (sending dir files n d) m
    → Begins
        (sending dir files n (d + length (blob_at file.content d)))
        ((k, upload_block path (blob_at file.content d)) ∷ m)
unfolding bytes_sent
block-Begins k dir files file path n d m found b f g =
    ground (arith, b f g, blob_at-extends file.content d)

begun-Begins :
    (k : ℕ) (dir : Text) (files : List File) (path : Text) (n size : ℕ) (m : List (ℕ × Request))
    → Begins (sending dir files n 0) ((k, upload path size) ∷ m)
unfolding bytes_sent
begun-Begins k dir files path n size m f g = refl

pub Talk-Begins : {g : Stage} {m : List (ℕ × Request)} → Talk g m → Begins g m
Talk-Begins silent = tt
Talk-Begins {g} (aside {m = m} k r h t) = Begins-aside g k r m h (Talk-Begins t)
Talk-Begins (begun {m} k dir files file path n d size first zeroth found named sized t) =
    rw zeroth (begun-Begins k dir files path n size m)
Talk-Begins (block {m} k dir files file path blob n d after found named inside read so_far t) =
    rw (so_far, read) (block-Begins k dir files file path n d m found (Talk-Begins t))
Talk-Begins
      (next {m} k dir files file new_file path n next_n done d size found whole following zeroth
        found' named sized t) =
    rw zeroth (begun-Begins k dir files path next_n size m)
Talk-Begins (cancelled k dir files file path n d found named t) = tt
Talk-Begins (ended t) = tt
