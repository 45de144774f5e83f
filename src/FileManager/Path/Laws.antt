-- ===== src/FileManager/Path/Laws.antt =====
-- joinPath and goUp of app/fileManager.js on paths as lists of names.
use docker_baseimage_gui.Prelude.{
  false, List, [], ◌∷◌, ◌++◌, some, ◌≡◌, refl, sym, ◌≢◌, ap, ◌∙◌, append_assoc, append-nil, arith,
  All,
}
use docker_baseimage_gui.Prelude.Text.{Text, codes, text_eq}
use docker_baseimage_gui.FileManager.Path.{
  is_empty, strip_slashes, join_path, push_unit, split_slash, non_empty, pop, slashed, join_slash,
  parent_path,
}

-- A name of a file or directory.
abbrev pub IsName : Text → Type 0
IsName w = (w ≢ []) × All (λ c. c ≢ b'/') w

-- The absolute path to what the names lead to from the root.
pub render : List Text → Text
unfolding slashed
render [] = codes "/"
render (w ∷ ws) = slashed (w ∷ ws)

strip_slashes-append :
    (w s : Text) → All (λ c. c ≢ b'/') w → strip_slashes s ≡ s → strip_slashes (w ++ s) ≡ w ++ s
unfolding strip_slashes
strip_slashes-append [] s h e = e
strip_slashes-append (c ∷ w) s h e = ground (arith, strip_slashes-append w s h.1 e)

strip_slashes-slash :
    (s : Text) → strip_slashes s ≡ s → is_empty s ≡ false → strip_slashes (b'/' ∷ s) ≡ b'/' ∷ s
unfolding strip_slashes
strip_slashes-slash s e h = ground arith

is_empty-append : (w s : Text) → w ≢ [] → is_empty (w ++ s) ≡ false
is_empty-append [] s h = absurd (h refl)
is_empty-append (c ∷ w) s h = refl

strip_slashes-slashed : (ws : List Text) → All IsName ws → strip_slashes (slashed ws) ≡ slashed ws
unfolding slashed
strip_slashes-slashed [] h = unfold strip_slashes in refl
strip_slashes-slashed (w ∷ ws) h =
    strip_slashes-slash (w ++ slashed ws)
      (strip_slashes-append w (slashed ws) h.0.1 (strip_slashes-slashed ws h.1))
      (is_empty-append w (slashed ws) h.0.0)

slashed-append : (ws : List Text) (n : Text) → slashed (ws ++ (n ∷ [])) ≡ slashed ws ++ (b'/' ∷ n)
unfolding slashed
slashed-append [] n = ap (b'/' ∷◌) (append-nil n)
slashed-append (w ∷ ws) n = simp (slashed-append ws n, append_assoc)

join_path-kept :
    (dir n : Text)
    → is_empty dir ≡ false
    → text_eq dir (codes "/") ≡ false
    → strip_slashes dir ≡ dir
    → join_path dir n ≡ dir ++ (b'/' ∷ n)
unfolding join_path
join_path-kept dir n some_dir not_root kept = rw (some_dir, not_root, kept)

slashed-not_root :
    (w : Text) (ws : List Text)
    → All IsName (w ∷ ws)
    → text_eq (slashed (w ∷ ws)) (codes "/") ≡ false
unfolding slashed text_eq
slashed-not_root [] ws h = absurd (h.0.0 refl)
slashed-not_root (c ∷ w) ws h = refl

slashed-cons-not_empty : (w : Text) (ws : List Text) → is_empty (slashed (w ∷ ws)) ≡ false
unfolding slashed
slashed-cons-not_empty w ws = refl

-- joinPath puts a name at the end of the path that non-empty names without `/` lead to.
pub join_path-render :
    (ws : List Text) (n : Text) → All IsName ws → join_path (render ws) n ≡ render (ws ++ (n ∷ []))
unfolding render
join_path-render [] n h = unfold slashed join_path in ap (b'/' ∷◌) (sym (append-nil n))
join_path-render (w ∷ ws) n h =
    join_path-kept (slashed (w ∷ ws)) n (slashed-cons-not_empty w ws) (slashed-not_root w ws h)
      (strip_slashes-slashed (w ∷ ws) h)
    ∙ sym (slashed-append (w ∷ ws) n)

split_slash-name : (w : Text) → All (λ c. c ≢ b'/') w → split_slash w ≡ w ∷ []
unfolding split_slash
split_slash-name [] h = refl
split_slash-name (c ∷ w) h = unfold push_unit in ground (arith, split_slash-name w h.1)

split_slash-append :
    (w s : Text) → All (λ c. c ≢ b'/') w → split_slash (w ++ (b'/' ∷ s)) ≡ w ∷ split_slash s
unfolding split_slash
split_slash-append [] s h = refl
split_slash-append (c ∷ w) s h = unfold push_unit in ground (arith, split_slash-append w s h.1)

split_slash-slashed :
    (w : Text) (ws : List Text) → All IsName (w ∷ ws) → split_slash (w ++ slashed ws) ≡ w ∷ ws
unfolding slashed
split_slash-slashed w [] h = rw append-nil (split_slash-name w h.0.1)
split_slash-slashed w (v ∷ vs) h =
    split_slash-append w (v ++ slashed vs) h.0.1 ∙ ap (w ∷◌) (split_slash-slashed v vs h.1)

non_empty-names : (ws : List Text) → All IsName ws → non_empty ws ≡ ws
unfolding non_empty
non_empty-names [] h = refl
non_empty-names ([] ∷ ws) h = absurd (h.0.0 refl)
non_empty-names ((c ∷ w) ∷ ws) h = ap ((c ∷ w) ∷◌) (non_empty-names ws h.1)

pop-append : (ws : List Text) (n : Text) → pop (ws ++ (n ∷ [])) ≡ ws
unfolding pop
pop-append [] n = refl
pop-append (w ∷ []) n = refl
pop-append (w ∷ v ∷ vs) n = ap (w ∷◌) (pop-append (v ∷ vs) n)

All-IsName-append :
    (ws : List Text) (n : Text) → All IsName ws → IsName n → All IsName (ws ++ (n ∷ []))
All-IsName-append [] n h hn = (hn, tt)
All-IsName-append (w ∷ ws) n h hn = (h.0, All-IsName-append ws n h.1 hn)

-- The text before the first `/` of an absolute path is empty, and is filtered out.
split_slash-slashed_cons :
    (w : Text) (ws : List Text) → All IsName (w ∷ ws) → split_slash (slashed (w ∷ ws)) ≡ [] ∷ w ∷ ws
unfolding split_slash slashed
split_slash-slashed_cons w ws h = ap ([] ∷◌) (unfold slashed in split_slash-slashed w ws h)

names_of_path : (ws : List Text) → All IsName ws → non_empty (split_slash (slashed ws)) ≡ ws
names_of_path [] h = unfold slashed split_slash non_empty in refl
names_of_path (w ∷ ws) h =
    rw (split_slash-slashed_cons w ws h) (unfold non_empty in non_empty-names (w ∷ ws) h)

render-join_slash : (ws : List Text) → b'/' ∷ join_slash ws ≡ render ws
unfolding join_slash render slashed
render-join_slash [] = refl
render-join_slash (w ∷ ws) = refl

render-not_root :
    (ws : List Text) (n : Text)
    → All IsName (ws ++ (n ∷ []))
    → text_eq (slashed (ws ++ (n ∷ []))) (codes "/") ≡ false
render-not_root [] n h = slashed-not_root n [] h
render-not_root (w ∷ ws) n h = slashed-not_root w (ws ++ (n ∷ [])) h

render-append : (ws : List Text) (n : Text) → render (ws ++ (n ∷ [])) ≡ slashed (ws ++ (n ∷ []))
unfolding render
render-append [] n = refl
render-append (w ∷ ws) n = refl

-- goUp leaves the last name of a path out, for non-empty names without `/`.
pub parent_path-render :
    (ws : List Text) (n : Text)
    → All IsName ws
    → IsName n
    → parent_path (render (ws ++ (n ∷ []))) ≡ some (render ws)
unfolding parent_path
parent_path-render ws n h hn =
    let all = All-IsName-append ws n h hn in
    rw (
      render-append ws n,
      render-not_root ws n all,
      names_of_path (ws ++ (n ∷ [])) all,
      pop-append ws n,
      render-join_slash ws,
    )
