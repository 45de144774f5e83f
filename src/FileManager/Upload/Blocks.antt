-- ===== src/FileManager/Upload/Blocks.antt =====
-- The blobs that class FileReaderModule of app/fileManager.js reads, one after the other.
use docker_baseimage_gui.Prelude.{
  ℕ, zero, suc, ◌+◌, ◌-◌, ◌≤◌, ◌<◌, min, true, none, some, List, [], ◌∷◌, ◌++◌, ltb, if◌then◌else◌,
  ◌≡◌, refl, sym, ap, ◌∙◌, arith, length, take, drop, take-append-drop, length-take, length-drop,
}
use docker_baseimage_gui.FileManager.Upload.{block_size, next_blob}

drop-nil {ℓ} : {A : Type ℓ} (n : ℕ) → drop {A = A} n [] ≡ []
drop-nil zero = refl
drop-nil (suc n) = refl

drop-drop {ℓ} : {A : Type ℓ} (m n : ℕ) (xs : List A) → drop n (drop m xs) ≡ drop (m + n) xs
drop-drop zero n xs = ap (λ k. drop k xs) (omega arith)
drop-drop (suc m) n [] = drop-nil n ∙ sym (drop-nil (suc m + n))
drop-drop (suc m) n (x ∷ xs) =
    let e : suc m + n ≡ suc (m + n) = omega arith in rw e (drop-drop m n xs)

take-nil {ℓ} : {A : Type ℓ} (n : ℕ) → take {A = A} n [] ≡ []
take-nil zero = refl
take-nil (suc n) = refl

take-more {ℓ} :
    {A : Type ℓ} (m n : ℕ) (xs : List A) → take m xs ++ take n (drop m xs) ≡ take (m + n) xs
take-more zero n xs = ap (λ k. take k xs) (omega arith)
take-more (suc m) n [] = take-nil n ∙ sym (take-nil (suc m + n))
take-more (suc m) n (x ∷ xs) =
    let e : suc m + n ≡ suc (m + n) = omega arith in rw (e, take-more m n xs)

-- The blob at a position within the file.
pub blob_at : List ℕ → ℕ → List ℕ
blob_at content pos = take (min block_size (length content - pos)) (drop pos content)

pub next_blob-some :
    (content : List ℕ) (pos : ℕ)
    → pos < length content
    → next_blob content pos ≡ some (blob_at content pos)
unfolding next_blob blob_at
next_blob-some content pos h =
    let inside : ltb pos (length content) ≡ true = ground arith in
    let size : ((if ltb (length content) (pos + block_size)
            then length content
            else pos + block_size)
          - pos)
        ≡ min block_size (length content - pos) =
      ground arith in
    rw (inside, size)

pub next_blob-none :
    (content : List ℕ) (pos : ℕ) → length content ≤ pos → next_blob content pos ≡ none
unfolding next_blob
next_blob-none content pos h = ground arith

pub length-blob_at :
    (content : List ℕ) (pos : ℕ)
    → length (blob_at content pos) ≡ min block_size (length content - pos)
unfolding blob_at
length-blob_at content pos = omega (
  arith,
  length-take (min block_size (length content - pos)) (drop pos content),
  length-drop pos content,
)

-- A blob and what the file holds behind it.
pub blob_at-rest :
    (content : List ℕ) (pos : ℕ)
    → blob_at content pos ++ drop (pos + length (blob_at content pos)) content ≡ drop pos content
blob_at-rest content pos =
    rw (length-blob_at content pos, ← drop-drop pos (min block_size (length content - pos)) content)
      (unfold blob_at in
        take-append-drop (min block_size (length content - pos)) (drop pos content))

-- What was read up to a position, with the blob there, is what stands before the next position.
pub blob_at-extends :
    (content : List ℕ) (pos : ℕ)
    → take pos content ++ blob_at content pos ≡ take (pos + length (blob_at content pos)) content
blob_at-extends content pos =
    rw (length-blob_at content pos)
      (unfold blob_at in take-more pos (min block_size (length content - pos)) content)
