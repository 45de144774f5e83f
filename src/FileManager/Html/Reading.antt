-- ===== src/FileManager/Html/Reading.antt =====
-- escapeHtml of app/fileManager.js against an HTML parser that reads its result where it is put: in the
-- content of an element, or in the value of an attribute.
use docker_baseimage_gui.Prelude.{
  ℕ, zero, suc, Bool, true, false, ◌||◌, ◌⊎◌, inl, inr, Bool-cases, none, some, [], ◌∷◌, ◌++◌, ◌==◌,
  if◌then◌else◌, ◌≡◌, refl, ◌≢◌, ap, ◌∙◌, append_assoc, arith, All,
}
use docker_baseimage_gui.Prelude.Text.{Text}
use docker_baseimage_gui.FileManager.Html.{replace_char, escape_html, is_prefix}
use docker_baseimage_gui.FileManager.Html.Escape.{
  escape_unit, escape_html-cons, references, reference_at,
}

-- Where a text stands in HTML, and what ends it there.
pub data Place : Type 0 where
  in_content in_double_quotes in_single_quotes : Place

abbrev pub end_of : Place → ℕ
end_of in_content = b'<'
end_of in_double_quotes = b'"'
end_of in_single_quotes = b'\''

-- What an HTML parser makes of one code unit: a carriage return is a line feed, and a null is lost from
-- content and replaced in an attribute.
abbrev pub normal : Place → ℕ → Text
normal place c =
    if c == 13
    then 10 ∷ []
    else if c == 0
    then (elim place [
      | in_content ↦ []
      | in_double_quotes ↦ 65533 ∷ []
      | in_single_quotes ↦ 65533 ∷ []
    ])
    else c ∷ []

-- An HTML parser that reads content or the value of an attribute: up to where that ends, from left to
-- right, and the rest. It knows the five references; other uses of `&` stay as they are. The number
-- counts the code units of a reference still to be skipped.
unfoldable pub read_from : Place → ℕ → Text → Text × Text
unfolding reference_at
read_from place skip [] = ([], [])
read_from place (suc skip) (c ∷ s) = read_from place skip s
read_from place zero (c ∷ s) =
    let plain = read_from place 0 s in
    if c == end_of place then ([], c ∷ s) else (elim (reference_at references (c ∷ s)) [
      | none ↦ (normal place c ++ plain.0, plain.1)
      | some (d, skip) ↦ (let read = read_from place skip s in (d ∷ read.0, read.1))
    ])

unfoldable pub read_html : Place → Text → Text × Text
unfolding read_from
read_html place s = read_from place 0 s

-- The code unit is neither a null nor a carriage return.
abbrev pub IsPlain : ℕ → Type 0
IsPlain c = (c ≢ 0) × (c ≢ 13)

no_reference : (c : ℕ) (s : Text) → c ≢ b'&' → reference_at references (c ∷ s) ≡ none
unfolding reference_at is_prefix
no_reference c s h = ground arith

plain_unit : (place : Place) (c : ℕ) → IsPlain c → normal place c ≡ c ∷ []
plain_unit place c p = ground arith

read-other :
    (place : Place) (c : ℕ) (s : Text)
    → IsPlain c
    → c ≢ b'&'
    → (c == end_of place) ≡ false
    → read_from place 0 (c ∷ s) ≡ (c ∷ (read_from place 0 s).0, (read_from place 0 s).1)
unfolding read_from
read-other place c s p amp e = rw (e, no_reference c s amp, plain_unit place c p) refl

-- The code units that are escaped.
abbrev is_escaped : ℕ → Bool
is_escaped c = (c == b'&') || ((c == b'<') || ((c == b'>') || ((c == b'"') || (c == b'\''))))

unescaped_unit : (c : ℕ) → is_escaped c ≡ false → escape_unit c ≡ c ∷ []
unfolding escape_unit
unescaped_unit c h = ground arith

not_ended : (place : Place) (c : ℕ) → is_escaped c ≡ false → (c == end_of place) ≡ false
not_ended in_content c h = ground arith
not_ended in_double_quotes c h = ground arith
not_ended in_single_quotes c h = ground arith

not_amp : (c : ℕ) → is_escaped c ≡ false → c ≢ b'&'
not_amp c h = ground arith

-- What is read at the reference of one of the five.
Reads : Place → ℕ → Text → Type 0
Reads place c s =
    read_from place 0 (escape_unit c ++ s) ≡ (c ∷ (read_from place 0 s).0, (read_from place 0 s).1)

read_amp : (place : Place) (s : Text) → Reads place b'&' s
unfolding Reads read_from escape_unit reference_at is_prefix
read_amp in_content s = refl
read_amp in_double_quotes s = refl
read_amp in_single_quotes s = refl

read_lt : (place : Place) (s : Text) → Reads place b'<' s
unfolding Reads read_from escape_unit reference_at is_prefix
read_lt in_content s = refl
read_lt in_double_quotes s = refl
read_lt in_single_quotes s = refl

read_gt : (place : Place) (s : Text) → Reads place b'>' s
unfolding Reads read_from escape_unit reference_at is_prefix
read_gt in_content s = refl
read_gt in_double_quotes s = refl
read_gt in_single_quotes s = refl

read_quot : (place : Place) (s : Text) → Reads place b'"' s
unfolding Reads read_from escape_unit reference_at is_prefix
read_quot in_content s = refl
read_quot in_double_quotes s = refl
read_quot in_single_quotes s = refl

read_apos : (place : Place) (s : Text) → Reads place b'\'' s
unfolding Reads read_from escape_unit reference_at is_prefix
read_apos in_content s = refl
read_apos in_double_quotes s = refl
read_apos in_single_quotes s = refl

escaped_case :
    (c : ℕ)
    → is_escaped c ≡ true
    → (c ≡ b'&') ⊎ ((c ≡ b'<') ⊎ ((c ≡ b'>') ⊎ ((c ≡ b'"') ⊎ (c ≡ b'\''))))
escaped_case c h = ground arith

read-escape_unit : (place : Place) (c : ℕ) (s : Text) → IsPlain c → Reads place c s
read-escape_unit place c s p = elim (Bool-cases (is_escaped c)) [
  | inr e ↦
      unfold Reads in
      rw (unescaped_unit c e) (read-other place c s p (not_amp c e) (not_ended place c e))
  | inl e ↦ elim (escaped_case c e) [
    | inl f ↦ rw f (read_amp place s)
    | inr (inl f) ↦ rw f (read_lt place s)
    | inr (inr (inl f)) ↦ rw f (read_gt place s)
    | inr (inr (inr (inl f))) ↦ rw f (read_quot place s)
    | inr (inr (inr (inr f))) ↦ rw f (read_apos place s)
  ]
]

read-end :
    (place : Place) (rest : Text)
    → read_from place 0 (escape_html [] ++ (end_of place ∷ rest)) ≡ ([], end_of place ∷ rest)
unfolding read_from escape_html replace_char
read-end in_content rest = refl
read-end in_double_quotes rest = refl
read-end in_single_quotes rest = refl

-- An HTML parser reads an escaped text as the text itself, if that holds no null and no carriage return,
-- and stops exactly behind it: as the content of an element, and as the value of an attribute in quotes of
-- either kind.
pub read_html-escape_html :
    (place : Place) (s rest : Text)
    → All IsPlain s
    → read_html place (escape_html s ++ (end_of place ∷ rest)) ≡ (s, end_of place ∷ rest)
unfolding read_html Reads
read_html-escape_html place [] rest p = read-end place rest
read_html-escape_html place (c ∷ s) rest (p, ps) =
    let tail = end_of place ∷ rest in
    let read = read_html-escape_html place s rest ps in
    rw (escape_html-cons c s, append_assoc (escape_unit c) (escape_html s) tail)
      (read-escape_unit place c (escape_html s ++ tail) p ∙ ap (λ r. (c ∷ r.0, r.1)) read)
