-- ===== src/FileManager/Html/Unescape.antt =====
-- unescapeHtml of app/fileManager.js: what it leaves alone, and what it damages.
use docker_baseimage_gui.Prelude.{
  ℕ, zero, suc, ◌+◌, ◌-◌, ◌≤◌, ◌<◌, true, false, [], ◌∷◌, ◌++◌, ◌≡◌, refl, ◌≢◌, ap, ◌⊎◌, inl, inr,
  length, length-append, arith, All, Bool-cases, and-true,
}
use docker_baseimage_gui.Prelude.Text.{Text, codes}
use docker_baseimage_gui.FileManager.Html.{is_prefix, replace_from, replace_all, unescape_html}

abbrev pub Lacks : ℕ → Text → Type 0
Lacks c = All (λ d. d ≢ c)

is_prefix-Lacks : (c : ℕ) (p s : Text) (d : ℕ) → d ≢ c → is_prefix (c ∷ p) (d ∷ s) ≡ false
unfolding is_prefix
is_prefix-Lacks c p s d h = ground arith

replace_from-Lacks : (c : ℕ) (p r s : Text) → Lacks c s → replace_from (c ∷ p) r 0 s ≡ s
unfolding replace_from
replace_from-Lacks c p r [] h = refl
replace_from-Lacks c p r (d ∷ s) h =
    rw (is_prefix-Lacks c p s d h.0) (ap (d ∷◌) (replace_from-Lacks c p r s h.1))

-- unescapeHtml leaves a text with no `&` as it is.
pub unescape_html-Lacks : (s : Text) → Lacks b'&' s → unescape_html s ≡ s
unfolding unescape_html replace_all
unescape_html-Lacks s h = simp (replace_from-Lacks _ _ _ s h)

is_prefix-length : (p s : Text) → is_prefix p s ≡ true → length p ≤ length s
unfolding is_prefix
is_prefix-length [] s h = omega arith
is_prefix-length (c ∷ p) [] h = ground arith
is_prefix-length (c ∷ p) (d ∷ s) h = omega (arith, is_prefix-length p s (and-true _ _ h).1)

is_prefix-append : (p s : Text) → is_prefix p (p ++ s) ≡ true
unfolding is_prefix
is_prefix-append [] s = refl
is_prefix-append (c ∷ p) s = ground (arith, is_prefix-append p s)

-- A replacement that is no longer than its pattern does not lengthen the text.
module _ (p r : Text) (short : length r ≤ length p) (some_p : 0 < length p) where
  length-replace_from :
      (skip : ℕ) (s : Text) → skip ≤ length s → length (replace_from p r skip s) + skip ≤ length s
  unfolding replace_from
  length-replace_from skip [] h = omega arith
  length-replace_from (suc skip) (c ∷ s) h = omega (arith, length-replace_from skip s)
  length-replace_from zero (c ∷ s) h = elim (Bool-cases (is_prefix p (c ∷ s))) [
    | inl e ↦ rw e (
        omega (
          arith,
          length-append r (replace_from p r (length p - 1) s),
          is_prefix-length p (c ∷ s) e,
          length-replace_from (length p - 1) s,
        ))
    | inr e ↦ rw e (omega (arith, length-replace_from 0 s))
  ]

-- A replacement by less either leaves the text alone or shortens it, and it shortens a text in
-- which the pattern stands.
module _ (p r : Text) (less : length r < length p) where
  shortened :
      (c : ℕ) (s : Text)
      → is_prefix p (c ∷ s) ≡ true
      → length (r ++ replace_from p r (length p - 1) s) < length (c ∷ s)
  shortened c s e = omega (
    arith,
    length-append r (replace_from p r (length p - 1) s),
    is_prefix-length p (c ∷ s) e,
    length-replace_from p r (omega arith) (omega arith) (length p - 1) s,
  )

  replace_from_same_or_less :
      (s : Text) → (replace_from p r 0 s ≡ s) ⊎ (length (replace_from p r 0 s) < length s)
  unfolding replace_from
  replace_from_same_or_less [] = inl refl
  replace_from_same_or_less (c ∷ s) = elim (Bool-cases (is_prefix p (c ∷ s))) [
    | inl e ↦ rw e (inr (shortened c s e))
    | inr e ↦ rw e (elim (replace_from_same_or_less s) [
      | inl same ↦ inl (ap (c ∷◌) same)
      | inr lt ↦ inr (omega arith)
    ])
  ]

  matched-shortens :
      (s : Text) → 0 < length s → is_prefix p s ≡ true → length (replace_from p r 0 s) < length s
  unfolding replace_from
  matched-shortens [] h e = absurd (omega arith)
  matched-shortens (c ∷ s) h e = rw e (shortened c s e)

  length-replace_from_lt :
      (pre post : Text)
      → length (replace_from p r 0 (pre ++ (p ++ post))) < length (pre ++ (p ++ post))
  unfolding replace_from
  length-replace_from_lt [] post =
      matched-shortens (p ++ post) (omega (arith, length-append p post)) (is_prefix-append p post)
  length-replace_from_lt (c ∷ pre) post =
      elim (Bool-cases (is_prefix p (c ∷ (pre ++ (p ++ post))))) [
        | inl e ↦ rw e (shortened c _ e)
        | inr e ↦ rw e (omega (arith, length-replace_from_lt pre post))
      ]

-- The four passes after the one for `&lt;`, and the one for `&amp;` before it.
length-replace_all : (p r s : Text) → length r < length p → length (replace_all p r s) ≤ length s
unfolding replace_all
length-replace_all p r s h = elim (replace_from_same_or_less p r h s) [
  | inl e ↦ rw e (omega arith)
  | inr lt ↦ omega arith
]

-- A text that holds `&lt;` loses code units.
length-unescape_html_lt :
    (pre post : Text)
    → length (unescape_html (pre ++ (codes "&lt;" ++ post)))
      < length (pre ++ (codes "&lt;" ++ post))
unfolding unescape_html
length-unescape_html_lt pre post =
    let s = pre ++ (codes "&lt;" ++ post) in
    let amp = replace_all (codes "&amp;") (codes "&") s in
    let lt = replace_all (codes "&lt;") (codes "<") amp in
    let gt = replace_all (codes "&gt;") (codes ">") lt in
    let quot = replace_all (codes "&quot;") (codes "\"") gt in
    let lt_less : length lt < length s =
      elim (replace_from_same_or_less (codes "&amp;") (codes "&") (omega arith) s) [
        | inl same ↦
            unfold replace_all in
            rw same (length-replace_from_lt (codes "&lt;") (codes "<") (omega arith) pre post)
        | inr less ↦
            unfold replace_all in
            omega (
              arith,
              length-replace_all (codes "&lt;") (codes "<")
                  (replace_all (codes "&amp;") (codes "&") s) (omega arith),
            )
      ] in
    omega (
      arith,
      lt_less,
      length-replace_all (codes "&gt;") (codes ">") lt (omega arith),
      length-replace_all (codes "&quot;") (codes "\"") gt (omega arith),
      length-replace_all (codes "&#39;") (codes "'") quot (omega arith),
    )

-- unescapeHtml never leaves a text that holds `&lt;` as it is.
pub unescape_html-ne :
    (pre post : Text)
    → unescape_html (pre ++ (codes "&lt;" ++ post)) ≢ pre ++ (codes "&lt;" ++ post)
unescape_html-ne pre post e = absurd (omega (arith, ap length e, length-unescape_html_lt pre post))
