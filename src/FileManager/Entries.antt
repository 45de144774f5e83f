-- ===== src/FileManager/Entries.antt =====
-- From an entry of a listing to the request that a click on it sends (renderFileList,
-- handleFileActionClick, goUp and the popovers of app/fileManager.js). `parse` is what the browser
-- makes of the text of an attribute.
use docker_baseimage_gui.Prelude.{
  ℕ, false, none, some, List, [], ◌∷◌, ◌++◌, ◌≡◌, ◌≢◌, ap, ◌∙◌, sym, arith, All, length,
}
use docker_baseimage_gui.Prelude.Text.{Text, codes}
use docker_baseimage_gui.Browser.{opened}
use docker_baseimage_gui.FileManager.Html.{escape_html, unescape_html}
use docker_baseimage_gui.FileManager.Html.Escape.{IsInert, escape_html-IsInert}
use docker_baseimage_gui.FileManager.Html.Unescape.{Lacks, unescape_html-Lacks, unescape_html-ne}
use docker_baseimage_gui.FileManager.Path.{is_empty}
use docker_baseimage_gui.FileManager.Path.Laws.{
  IsName, render, join_path-render, parent_path-render,
}
use docker_baseimage_gui.FileManager.State.{
  Entry, Row, list_dir, download, create_folder, create_action, State, send,
}
use docker_baseimage_gui.FileManager.Connection.{render_row, render_rows, render_file_list}
use docker_baseimage_gui.FileManager.Dialog.{
  download_entry, handle_file_action_click, go_up, submit_popover, show_popover,
}
use docker_baseimage_gui.FileManager.Upload.{download_file}

-- Neither attribute of the row can end early or open a tag.
abbrev pub RowIsInert : Row → Type 0
RowIsInert r = All IsInert r.name_attr × All IsInert r.path_attr

render_rows-IsInert : (es : List Entry) → All RowIsInert (render_rows es)
unfolding render_rows render_row
render_rows-IsInert [] = tt
render_rows-IsInert (e ∷ es) =
    ((escape_html-IsInert e.name, escape_html-IsInert e.path), render_rows-IsInert es)

-- Whatever names and paths the server sends, the attributes of the listing hold no `<`, `>`, `"`
-- and `'`.
pub render_file_list-IsInert :
    (path : Text) (es : List Entry) (s : State)
    → All RowIsInert (render_file_list path (some es) s).rows
unfolding render_file_list
render_file_list-IsInert path es s = render_rows-IsInert es

cons-ne {ℓ} : {A : Type ℓ} (x : A) (xs : List A) → xs ≢ x ∷ xs
cons-ne x xs e = absurd (omega (arith, ap length e))

-- A download that is asked for is the one of the path that was given.
download_file-sent :
    (name path q : Text) (s : State) (i : ℕ)
    → (download_file name path s).sent ≡ (i, download q) ∷ s.sent
    → path ≡ q
unfolding download_file send
download_file-sent name path q s i h = ground (arith, cons-ne (i, download q) s.sent)

clicked-sent :
    (attrs : Text × Text) (q : Text) (s : State) (i : ℕ)
    → (handle_file_action_click download_entry attrs s).sent ≡ (i, download q) ∷ s.sent
    → unescape_html attrs.1 ≡ q
unfolding handle_file_action_click
clicked-sent attrs q s i h = ground (
  arith,
  cons-ne (i, download q) s.sent,
  download_file-sent (unescape_html attrs.0) (unescape_html attrs.1) q s i,
)

-- The attributes of the row of an entry, as the browser returns them.
abbrev pub attributes : (Text → Text) → Entry → Text × Text
attributes parse e = (parse (render_row e).name_attr, parse (render_row e).path_attr)

module _ (parse : Text → Text) (reads : (t : Text) → parse (escape_html t) ≡ t) where
  -- If the browser reads escaped text back as it was, then over an open connection and with no
  -- download active, a click on the download button of an entry with a non-empty name and path that
  -- hold no `&` asks for its path and remembers its name.
  pub click-downloads :
      (e : Entry) (s : State) (i : ℕ)
      → Lacks b'&' e.name
      → Lacks b'&' e.path
      → is_empty e.name ≡ false
      → is_empty e.path ≡ false
      → s.active_download ≡ none
      → s.web_socket ≡ some i
      → s.ready i ≡ opened
      → let t = handle_file_action_click download_entry (attributes parse e) s in
        (t.sent ≡ (i, download e.path) ∷ s.sent) × (t.active_download ≡ some e.name)
  unfolding handle_file_action_click render_row download_file send
  click-downloads e s i name_lacks path_lacks some_name some_path idle held is_open =
      rw
        (
          reads e.name,
          reads e.path,
          unescape_html-Lacks e.name name_lacks,
          unescape_html-Lacks e.path path_lacks,
          some_name,
          some_path,
        )
        (ground arith)

  -- If the browser reads escaped text back as it was, a click on the download button of an entry
  -- whose path holds `&lt;` does not ask for that path.
  pub click-misses :
      (e : Entry) (s : State) (i : ℕ) (pre post : Text)
      → e.path ≡ pre ++ (codes "&lt;" ++ post)
      → (handle_file_action_click download_entry (attributes parse e) s).sent
        ≢ (i, download e.path) ∷ s.sent
  unfolding render_row
  click-misses e s i pre post holds h = unescape_html-ne pre post (
      ap unescape_html (sym (reads e.path ∙ holds))
      ∙ clicked-sent (attributes parse e) e.path s i h
      ∙ holds)

-- Over an open connection, in the directory that the names `ws` lead to, the form for a new
-- directory, submitted with a non-empty name, asks for the path that the names and that one lead to,
-- and the popover is gone.
submit-creates :
    (ws : List Text) (n : Text) (s : State) (i : ℕ)
    → All IsName ws
    → is_empty n ≡ false
    → s.current_path ≡ render ws
    → s.web_socket ≡ some i
    → s.ready i ≡ opened
    → let t = submit_popover n (show_popover create_action none s) in
      (t.sent ≡ (i, create_folder (render (ws ++ (n ∷ [])))) ∷ s.sent) × (t.active_popover ≡ none)
unfolding submit_popover send
submit-creates ws n s i names some_name here held is_open =
    ground (arith, join_path-render ws n names)

-- Over an open connection, in the directory that the names `ws` and `n` lead to, the button for going
-- up asks for a listing of the directory that `ws` leads to.
pub go_up-parent :
    (ws : List Text) (n : Text) (s : State) (i : ℕ)
    → All IsName ws
    → IsName n
    → s.current_path ≡ render (ws ++ (n ∷ []))
    → s.web_socket ≡ some i
    → s.ready i ≡ opened
    → (go_up s).sent ≡ (i, list_dir (render ws)) ∷ s.sent
unfolding go_up send
go_up-parent ws n s i names name here held is_open =
    ground (arith, parent_path-render ws n names name)
