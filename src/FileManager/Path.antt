-- ===== src/FileManager/Path.antt =====
-- joinPath and goUp of app/fileManager.js, and the paths that they work on.
pub mod Laws
use docker_baseimage_gui.Prelude.{
  Bool, true, false, not, ◌&&◌, ◌||◌, List, [], ◌∷◌, ◌++◌, Option, none, some, ◌==◌, if◌then◌else◌,
}
use docker_baseimage_gui.Prelude.Text.{Text, codes, text_eq}

abbrev pub is_empty {ℓ} : {A : Type ℓ} → List A → Bool
is_empty [] = true
is_empty (x ∷ xs) = false

-- `.replace(/\/+$/, '')`
unfoldable pub strip_slashes : Text → Text
strip_slashes [] = []
strip_slashes (c ∷ s) =
    let rest = strip_slashes s in if c == b'/' && is_empty rest then [] else c ∷ rest

unfoldable pub join_path : Text → Text → Text
unfolding text_eq
join_path dir name =
    if is_empty dir || text_eq dir (codes "/")
    then b'/' ∷ name
    else strip_slashes dir ++ (b'/' ∷ name)

-- `.split('/')`
unfoldable pub push_unit : Text → List Text → List Text
push_unit c [] = c ∷ []
push_unit c (w ∷ ws) = (c ++ w) ∷ ws

unfoldable pub split_slash : Text → List Text
unfolding push_unit
split_slash [] = [] ∷ []
split_slash (c ∷ s) =
    let rest = split_slash s in if c == b'/' then [] ∷ rest else push_unit (c ∷ []) rest

-- `.filter(Boolean)`
unfoldable pub non_empty : List Text → List Text
non_empty [] = []
non_empty (w ∷ ws) = let rest = non_empty ws in if is_empty w then rest else w ∷ rest

-- `.pop()`, for what it leaves of the array.
unfoldable pub pop : List Text → List Text
pop [] = []
pop (w ∷ []) = []
pop (w ∷ v ∷ vs) = w ∷ pop (v ∷ vs)

-- `.join('/')`
unfoldable pub slashed : List Text → Text
slashed [] = []
slashed (w ∷ ws) = b'/' ∷ (w ++ slashed ws)

unfoldable pub join_slash : List Text → Text
unfolding slashed
join_slash [] = []
join_slash (w ∷ ws) = w ++ slashed ws

-- The path that goUp navigates to, if it navigates. Its last test, `path === ''`, is for a path
-- that begins with `/` and never holds.
unfoldable pub parent_path : Text → Option Text
unfolding text_eq
parent_path current =
    if not (text_eq current (codes "/"))
    then some (b'/' ∷ join_slash (pop (non_empty (split_slash current))))
    else none
