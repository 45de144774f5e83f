-- ===== src/FileManager/Upload/Store.antt =====
-- What the uploads of app/fileManager.js are for: the files that a server holds after the requests
-- that it was sent.
use docker_baseimage_gui.Prelude.{ℕ, List, [], ◌∷◌, ◌++◌, if◌then◌else◌}
use docker_baseimage_gui.Prelude.Text.{Text, text_eq}
use docker_baseimage_gui.FileManager.Path.{join_path}
use docker_baseimage_gui.FileManager.State.{File, Request, upload, upload_block}

-- `upload` begins a file afresh, `upload_block` adds to its end.
unfoldable pub apply_request : Text → Request → List ℕ → List ℕ
apply_request path (upload p size) before = if text_eq p path then [] else before
apply_request path (upload_block p block) before =
    if text_eq p path then before ++ block else before
apply_request path m before = before

-- The bytes under a path, after the requests (newest first).
unfoldable pub stored : Text → List (ℕ × Request) → List ℕ
unfolding apply_request
stored path [] = []
stored path ((k, m) ∷ older) = apply_request path m (stored path older)

-- The bytes under a path, if the files go into the directory one after the other.
unfoldable pub expected : Text → Text → List File → List ℕ → List ℕ
expected path dir [] before = before
expected path dir (f ∷ fs) before =
    expected path dir fs (if text_eq (join_path dir f.name) path then f.content else before)
