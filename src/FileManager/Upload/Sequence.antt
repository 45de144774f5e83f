-- ===== src/FileManager/Upload/Sequence.antt =====
-- From one file of an upload of app/fileManager.js to the next.
use docker_baseimage_gui.Prelude.{
  ℕ, suc, ◌+◌, ◌<◌, true, none, some, List, [], ◌∷◌, if◌then◌else◌, ◌≡◌, refl, ◌∙◌, arith, length,
  drop, get_elem?, get_elem?-drop, drop-suc, length_of_drop,
}
use docker_baseimage_gui.Prelude.Text.{Text, text_eq}
use docker_baseimage_gui.FileManager.Path.{join_path}
use docker_baseimage_gui.FileManager.State.{File, Upload, list_dir, upload, State, send}
use docker_baseimage_gui.FileManager.Upload.{progress_of, advance_upload, start_upload}
use docker_baseimage_gui.FileManager.Upload.Progress.{progress_of-last}
use docker_baseimage_gui.FileManager.Upload.Store.{stored}
use docker_baseimage_gui.FileManager.Upload.Round.{IsOnline, transfer}
use docker_baseimage_gui.FileManager.Upload.Completion.{Announced, Complete}

-- The acknowledgement that ends the last file: the directory is listed, and the upload is over.
pub advance_upload-last :
    (k : ℕ) (u : Upload) (s : State)
    → IsOnline k s
    → s.active_upload ≡ some u
    → u.cur ≡ u.tot
    → suc u.files_processed ≡ u.total_files
    → ((advance_upload s).active_upload ≡ none)
      × ((advance_upload s).sent ≡ (k, list_dir s.current_path) ∷ s.sent)
unfolding advance_upload send
advance_upload-last k u s o active counters last = ground arith

-- The acknowledgement that ends another file: the next file is announced.
next_upload : Upload → Upload
next_upload u = record u { files_processed = u.files_processed + 1; file_reader = none }

advance_upload-next :
    (k : ℕ) (u : Upload) (file : File) (s : State)
    → IsOnline k s
    → s.active_upload ≡ some u
    → u.cur ≡ u.tot
    → u.files_processed + 1 < u.total_files
    → get_elem? u.files (u.files_processed + 1) ≡ some file
    → progress_of u < 100
    → advance_upload s ≡ record s {
      active_upload = some (next_upload u);
      progress_value = progress_of u;
      sent = (k, upload (join_path u.dest_dir file.name) (length file.content)) ∷ s.sent;
    }
unfolding advance_upload send next_upload
advance_upload-next k u file s o active counters more found small = ground arith

-- An upload whose file `f` was announced and whose files `rest` are still to come.
pub record Remaining (k : ℕ) (u : Upload) (f : File) (rest : List File) (s : State) : Type 0 where
  pub online : IsOnline k s
  pub active : s.active_upload ≡ some u
  pub no_reader : u.file_reader ≡ none
  pub rested : u.cur ≡ u.tot
  pub left : drop u.files_processed u.files ≡ f ∷ rest
  pub total : u.total_files ≡ length u.files
  -- The announcement begins the file afresh.
  pub afresh : (q : Text) → text_eq (join_path u.dest_dir f.name) q ≡ true → stored q s.sent ≡ []

module _ (k : ℕ) (u : Upload) (f : File) (rest : List File) (s : State)
    (r : Remaining k u f rest s) where
  pub announced : Announced k u f s
  announced = record {
    online = r.online;
    active = r.active;
    no_reader = r.no_reader;
    found = get_elem?-drop u.files_processed u.files rest r.left;
    current = omega (arith, length_of_drop u.files_processed u.files rest r.left, r.total);
    rested = r.rested;
  }

  -- The file is stored as it is, and no other file is touched.
  pub stored-Complete :
      (fuel : ℕ) (c : Complete k u f fuel s) (q : Text)
      → stored q c.last.sent
        ≡ (if text_eq (join_path u.dest_dir f.name) q then f.content else stored q s.sent)
  stored-Complete fuel c q = ground (arith, c.added.adds q, r.afresh q)

-- One file is done and the next one is announced.
pub record Advanced (k : ℕ) (u : Upload) (f g : File) (rest : List File) (fuel : ℕ) (s : State)
    : Type 0 where
  pub next : State
  pub following : Upload
  pub same_dir : following.dest_dir ≡ u.dest_dir
  pub reached : transfer fuel (start_upload s) ≡ next
  pub remaining : Remaining k following g rest next
  pub holds :
      (q : Text)
      → stored q next.sent ≡ (
          if text_eq (join_path u.dest_dir g.name) q
          then []
          else if text_eq (join_path u.dest_dir f.name) q
          then f.content
          else stored q s.sent)

module _ (k : ℕ) (u : Upload) (f g : File) (rest : List File) (s : State)
    (r : Remaining k u f (g ∷ rest) s) (fuel : ℕ) (c : Complete k u f fuel s) where
  final_left : drop (c.final.files_processed + 1) c.final.files ≡ g ∷ rest
  final_left =
      let e : c.final.files_processed + 1 ≡ suc u.files_processed =
        omega (arith, c.same_processed) in
      rw (e, c.same_files) (drop-suc u.files_processed u.files (g ∷ rest) r.left)

  final_more : c.final.files_processed + 1 < c.final.total_files
  final_more = omega (
    arith,
    length_of_drop u.files_processed u.files (g ∷ rest) r.left,
    r.total,
    c.same_processed,
    c.same_total,
  )

  final_small : progress_of c.final < 100
  final_small =
      progress_of-last c.final
        (record {
          current = omega (arith, final_more);
          within = omega (arith, c.counters);
          begun = λ h. omega (arith, c.counters);
        })
        (omega (arith, final_more))

  pub advanced : Advanced k u f g rest fuel s
  advanced =
      let found = get_elem?-drop (c.final.files_processed + 1) c.final.files rest final_left in
      record {
        next = record c.last {
          active_upload = some (next_upload c.final);
          progress_value = progress_of c.final;
          sent = (k, upload (join_path c.final.dest_dir g.name) (length g.content)) ∷ c.last.sent;
        };
        following = next_upload c.final;
        same_dir = unfold next_upload in c.same_dir;
        reached =
            c.ended
            ∙ advance_upload-next k c.final g c.last c.online c.active c.counters final_more found
                final_small;
        remaining = record {
          online = record {
            held = c.online.held;
            open_socket = c.online.open_socket;
            calm = c.online.calm;
          };
          active = refl;
          no_reader = unfold next_upload in refl;
          rested = unfold next_upload in c.counters;
          left = unfold next_upload in final_left;
          total = unfold next_upload in rw (c.same_files, c.same_total) r.total;
          afresh = λ q e. unfold stored next_upload in rw e;
        };
        holds =
            λ q. unfold stored in rw (c.same_dir, stored-Complete k u f (g ∷ rest) s r fuel c q);
      }
