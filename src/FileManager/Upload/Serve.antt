-- ===== src/FileManager/Upload/Serve.antt =====
-- An upload of several files of app/fileManager.js, with a server that accepts every request.
use docker_baseimage_gui.Prelude.{
  ℕ, zero, suc, ◌*◌, ◌≤◌, false, none, some, List, [], ◌∷◌, if◌then◌else◌, ◌≡◌, refl, ap, ◌∙◌,
  arith, length, All, length_of_drop,
}
use docker_baseimage_gui.Prelude.Text.{Text, text_eq}
use docker_baseimage_gui.Browser.{opened}
use docker_baseimage_gui.FileManager.Path.{join_path}
use docker_baseimage_gui.FileManager.State.{File, Upload, Request, upload, State, send}
use docker_baseimage_gui.FileManager.Upload.{block_size, start_upload, upload_files}
use docker_baseimage_gui.FileManager.Upload.Store.{stored, expected}
use docker_baseimage_gui.FileManager.Upload.Round.{IsOnline, transfer}
use docker_baseimage_gui.FileManager.Upload.Completion.{complete}
use docker_baseimage_gui.FileManager.Upload.Sequence.{
  advance_upload-last, Remaining, announced, stored-Complete, advanced,
}

-- The server accepts the announcement of a file, and then each block; for this many files.
unfoldable pub serve : ℕ → ℕ → State → State
serve zero fuel s = s
serve (suc n) fuel s = serve n fuel (transfer fuel (start_upload s))

-- The announcement of the next file does not matter to what is expected.
expected_advanced :
    (dir : Text) (f g : File) (rest : List File) (before next : List ℕ) (q : Text)
    → next ≡ (
        if text_eq (join_path dir g.name) q
        then []
        else if text_eq (join_path dir f.name) q
        then f.content
        else before)
    → expected q dir (g ∷ rest) next ≡ expected q dir (f ∷ g ∷ rest) before
unfolding expected
expected_advanced dir f g rest before next q h = ap (expected q dir rest) (ground (arith, h))

pub serve-stored :
    (k fuel : ℕ) (u : Upload) (f : File) (rest : List File) (s : State)
    → Remaining k u f rest s
    → All (λ (g : File). length g.content ≤ fuel * block_size) (f ∷ rest)
    → let t = serve (length (f ∷ rest)) fuel s in
      (t.active_upload ≡ none)
      × ((q : Text) → stored q t.sent ≡ expected q u.dest_dir (f ∷ rest) (stored q s.sent))
unfolding serve
serve-stored k fuel u f [] s r enough =
    let c = complete k u f s (announced k u f [] s r) fuel enough.0 in
    let over = advance_upload-last k c.final c.last c.online c.active c.counters (
      omega (
        arith,
        length_of_drop u.files_processed u.files [] r.left,
        r.total,
        c.same_processed,
        c.same_total,
      )) in
    (
      rw c.ended over.0,
      λ q. rw (c.ended, over.1) (unfold stored expected in stored-Complete k u f [] s r fuel c q),
    )
serve-stored k fuel u f (g ∷ rest) s r enough =
    let c = complete k u f s (announced k u f (g ∷ rest) s r) fuel enough.0 in
    let a = advanced k u f g rest s r fuel c in
    let (over, files) = serve-stored k fuel a.following g rest a.next a.remaining enough.1 in
    let first : serve (length (f ∷ g ∷ rest)) fuel s ≡ serve (length (g ∷ rest)) fuel a.next =
      ap (serve (length (g ∷ rest)) fuel) a.reached in
    (
      ap (λ (t : State). t.active_upload) first ∙ over,
      λ q.
          ap (λ (t : State). stored q t.sent) first
          ∙ files q
          ∙ ap (λ d. expected q d (g ∷ rest) (stored q a.next.sent)) a.same_dir
          ∙ expected_advanced u.dest_dir f g rest (stored q s.sent) (stored q a.next.sent) q
              (a.holds q),
    )

-- The upload that uploadFiles begins.
abbrev pub begun_upload : List File → State → Upload
begun_upload files s = record {
  dest_dir = s.current_path;
  files = files;
  total_files = length files;
  files_processed = 0;
  file_reader = none;
  cur = 0;
  tot = 0;
}

pub record Begun (k : ℕ) (f : File) (files : List File) (s t : State) : Type 0 where
  held : t.web_socket ≡ some k
  open_socket : t.ready k ≡ opened
  calm : t.threw ≡ false
  active : t.active_upload ≡ some (begun_upload files s)
  sends : t.sent ≡ (k, upload (join_path s.current_path f.name) (length f.content)) ∷ s.sent

pub upload_files-Begun :
    (k : ℕ) (f : File) (rest : List File) (s : State)
    → IsOnline k s
    → s.active_upload ≡ none
    → Begun k f (f ∷ rest) s (upload_files (f ∷ rest) s)
unfolding upload_files send
upload_files-Begun k f rest s o idle = ground arith

pub upload_files-Remaining :
    (k : ℕ) (f : File) (rest : List File) (s : State)
    → Begun k f (f ∷ rest) s (upload_files (f ∷ rest) s)
    → Remaining k (begun_upload (f ∷ rest) s) f rest (upload_files (f ∷ rest) s)
upload_files-Remaining k f rest s b = record {
  online = record { held = b.held; open_socket = b.open_socket; calm = b.calm };
  active = b.active;
  no_reader = refl;
  rested = refl;
  left = refl;
  total = refl;
  afresh = λ q e. rw b.sends (unfold stored in rw e);
}

expected_begun :
    (dir : Text) (f : File) (rest : List File) (size k : ℕ) (before : List (ℕ × Request)) (q : Text)
    → expected q dir (f ∷ rest) (stored q ((k, upload (join_path dir f.name) size) ∷ before))
      ≡ expected q dir (f ∷ rest) (stored q before)
unfolding expected stored
expected_begun dir f rest size k before q = ap (expected q dir rest) (ground arith)

-- An upload of at least one file, begun over an open connection with no upload active, and with a
-- server that accepts every request: given a round for each file, and for a file as many rounds as it
-- has blocks of 512 KiB, the upload comes to an end, and at every path the server holds what the files, put one
-- after the other at their places as they are, leave there.
pub upload_files-stored :
    (k fuel : ℕ) (f : File) (rest : List File) (s : State)
    → IsOnline k s
    → s.active_upload ≡ none
    → All (λ (g : File). length g.content ≤ fuel * block_size) (f ∷ rest)
    → let t = serve (length (f ∷ rest)) fuel (upload_files (f ∷ rest) s) in
      (t.active_upload ≡ none)
      × ((q : Text) → stored q t.sent ≡ expected q s.current_path (f ∷ rest) (stored q s.sent))
upload_files-stored k fuel f rest s o idle enough =
    let b = upload_files-Begun k f rest s o idle in
    let (over, files) =
      serve-stored k fuel (begun_upload (f ∷ rest) s) f rest (upload_files (f ∷ rest) s)
        (upload_files-Remaining k f rest s b) enough in
    (
      over,
      λ q.
          files q
          ∙ ap (λ sent. expected q s.current_path (f ∷ rest) (stored q sent)) b.sends
          ∙ expected_begun s.current_path f rest (length f.content) k s.sent q,
    )
