-- ===== src/FileManager/Html/Escape.antt =====
-- escapeHtml of app/fileManager.js against what an HTML parser makes of its result.
use docker_baseimage_gui.Prelude.{
  ℕ, zero, suc, ◌-◌, List, Option, none, some, length, [], ◌∷◌, ◌++◌, ◌==◌, if◌then◌else◌, ◌≡◌,
  refl, ◌≢◌, ap, ◌∙◌, append_assoc, arith, All, All-append,
}
use docker_baseimage_gui.Prelude.Text.{Text, codes}
use docker_baseimage_gui.FileManager.Html.{replace_char, escape_html, is_prefix}

-- What becomes of one code unit.
unfoldable pub escape_unit : ℕ → Text
escape_unit c =
    if c == b'&'
    then codes "&amp;"
    else if c == b'<'
    then codes "&lt;"
    else if c == b'>'
    then codes "&gt;"
    else if c == b'"'
    then codes "&quot;"
    else if c == b'\''
    then codes "&#39;"
    else c ∷ []

replace_char-append :
    (c : ℕ) (r s t : Text) → replace_char c r (s ++ t) ≡ replace_char c r s ++ replace_char c r t
unfolding replace_char
replace_char-append c r [] t = refl
replace_char-append c r (d ∷ s) t = simp (replace_char-append c r s t, append_assoc)

escape_html-append : (s t : Text) → escape_html (s ++ t) ≡ escape_html s ++ escape_html t
unfolding escape_html
escape_html-append s t = simp replace_char-append

escape_html-one : (c : ℕ) → escape_html (c ∷ []) ≡ escape_unit c
unfolding escape_html replace_char escape_unit
escape_html-one c = ground arith

pub escape_html-cons : (c : ℕ) (s : Text) → escape_html (c ∷ s) ≡ escape_unit c ++ escape_html s
escape_html-cons c s = rw (← escape_html-one c) (escape_html-append (c ∷ []) s)

-- A reader of texts that use no other references than these five: one pass from left to right. The
-- number counts the code units of a reference still to be skipped.
abbrev pub references : List (Text × ℕ)
references =
    (codes "&amp;", b'&')
    ∷ (codes "&lt;", b'<')
    ∷ (codes "&gt;", b'>')
    ∷ (codes "&quot;", b'"')
    ∷ (codes "&#39;", b'\'')
    ∷ []

-- The reference that a text begins with: its character, and how many code units follow the first.
unfoldable pub reference_at : List (Text × ℕ) → Text → Option (ℕ × ℕ)
unfolding is_prefix
reference_at [] s = none
reference_at ((p, c) ∷ refs) s =
    if is_prefix p s then some (c, length p - 1) else reference_at refs s

parse_from : ℕ → Text → Text
unfolding reference_at
parse_from skip [] = []
parse_from (suc skip) (c ∷ s) = parse_from skip s
parse_from zero (c ∷ s) = elim (reference_at references (c ∷ s)) [
  | none ↦ c ∷ parse_from 0 s
  | some (d, skip) ↦ d ∷ parse_from skip s
]

pub parse_html : Text → Text
unfolding parse_from
parse_html s = parse_from 0 s

parse-escape_unit : (c : ℕ) (s : Text) → parse_from 0 (escape_unit c ++ s) ≡ c ∷ parse_from 0 s
unfolding parse_from escape_unit
parse-escape_unit c s = ground arith

-- It reads an escaped text as the text itself.
pub parse_html-escape_html : (s : Text) → parse_html (escape_html s) ≡ s
unfolding parse_html
parse_html-escape_html [] = unfold escape_html replace_char in refl
parse_html-escape_html (c ∷ s) =
    rw escape_html-cons (parse-escape_unit c (escape_html s) ∙ ap (c ∷◌) (parse_html-escape_html s))

-- Neither a tag nor the end of a quoted attribute can begin with this code unit.
abbrev pub IsInert : ℕ → Type 0
IsInert c = (c ≢ b'<') × (c ≢ b'>') × (c ≢ b'"') × (c ≢ b'\'')

escape_unit-IsInert : (c : ℕ) → All IsInert (escape_unit c)
unfolding escape_unit
escape_unit-IsInert c = ground arith

-- An escaped text holds no `<`, `>`, `"` or `'`, whatever the text was.
pub escape_html-IsInert : (s : Text) → All IsInert (escape_html s)
escape_html-IsInert [] = unfold escape_html replace_char in tt
escape_html-IsInert (c ∷ s) = rw escape_html-cons (
    All-append IsInert (escape_unit c) (escape_html s) (escape_unit-IsInert c)
      (escape_html-IsInert s))
