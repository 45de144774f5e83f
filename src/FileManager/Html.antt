-- ===== src/FileManager/Html.antt =====
-- escapeHtml and unescapeHtml of app/fileManager.js, on texts (the two functions return null and
-- undefined as they are, which no caller passes on to a text).
pub mod Escape
pub mod Unescape
pub mod Reading
use docker_baseimage_gui.Prelude.{
  ℕ, zero, suc, ◌-◌, Bool, true, false, ◌&&◌, [], ◌∷◌, ◌++◌, ◌==◌, if◌then◌else◌, length,
}
use docker_baseimage_gui.Prelude.Text.{Text, codes}

-- `.replace(/c/g, r)` for one code unit `c`.
unfoldable pub replace_char : ℕ → Text → Text → Text
replace_char c r [] = []
replace_char c r (d ∷ s) = (if d == c then r else d ∷ []) ++ replace_char c r s

unfoldable pub escape_html : Text → Text
escape_html s =
    let amp = replace_char b'&' (codes "&amp;") s in
    let lt = replace_char b'<' (codes "&lt;") amp in
    let gt = replace_char b'>' (codes "&gt;") lt in
    let quot = replace_char b'"' (codes "&quot;") gt in replace_char b'\'' (codes "&#39;") quot

unfoldable pub is_prefix : Text → Text → Bool
is_prefix [] s = true
is_prefix (c ∷ p) [] = false
is_prefix (c ∷ p) (d ∷ s) = c == d && is_prefix p s

-- `.replace(/p/g, r)` for a literal pattern `p`: from left to right, and a match is skipped. The
-- number counts the code units of the last match that are still to be skipped.
unfoldable pub replace_from : Text → Text → ℕ → Text → Text
replace_from p r skip [] = []
replace_from p r (suc skip) (c ∷ s) = replace_from p r skip s
replace_from p r zero (c ∷ s) =
    let matched = r ++ replace_from p r (length p - 1) s in
    let copied = c ∷ replace_from p r 0 s in if is_prefix p (c ∷ s) then matched else copied

unfoldable pub replace_all : Text → Text → Text → Text
unfolding replace_from
replace_all p r s = replace_from p r 0 s

unfoldable pub unescape_html : Text → Text
unescape_html s =
    let amp = replace_all (codes "&amp;") (codes "&") s in
    let lt = replace_all (codes "&lt;") (codes "<") amp in
    let gt = replace_all (codes "&gt;") (codes ">") lt in
    let quot = replace_all (codes "&quot;") (codes "\"") gt in
    replace_all (codes "&#39;") (codes "'") quot
