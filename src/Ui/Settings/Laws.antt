-- ===== src/Ui/Settings/Laws.antt =====
-- What the settings of app/ui.js keep to: precedence, saving and forcing.
use docker_baseimage_gui.Prelude.{
  ℕ, zero, suc, ◌+◌, false, Option, none, some, List, [], ◌∷◌, ◌≡◌, ◌≢◌, refl, sym, ◌∙◌, ap, subst,
  arith, Bool-cases, inl, inr, get_elem?,
}
use docker_baseimage_gui.Prelude.Text.{Text, text_eq, text_eq_sound, text_eq_refl}
use docker_baseimage_gui.Ui.Settings.{
  Value, nothing, text, Control, checkbox, select, input, WebUtil, IsWebUtil, Form, at, index_of,
  show_value, shown, get_setting, update_setting, save_setting, select_found, option_value,
  update_control, save_control, write_shown,
}

text_eq_other : (s t : Text) → s ≢ t → text_eq s t ≡ false
text_eq_other s t h = elim (Bool-cases (text_eq s t)) [
  | inl e ↦ absurd (h (text_eq_sound s t e))
  | inr e ↦ e
]

pub at-same {ℓ} : {A : Type ℓ} (n : Text) (v : A) (f : Text → A) → at n v f n ≡ v
at-same n v f = rw (text_eq_refl n) refl

pub at-other {ℓ} : {A : Type ℓ} (m n : Text) (v : A) (f : Text → A) → m ≢ n → at n v f m ≡ f m
at-other m n v f h = rw (text_eq_other m n h) refl

-- An option that is selected is found again, perhaps at an earlier place.
index_of-found :
    (k : ℕ) (options : List Text) (i : ℕ) (o : Text)
    → get_elem? options i ≡ some o
    → (j : ℕ) × (index_of k options (text o) ≡ some (k + j)) × (get_elem? options j ≡ some o)
unfolding index_of
index_of-found k [] i o h = absurd (ground arith)
index_of-found k (p ∷ os) zero o h = (0, ground (arith, text_eq_refl o), h)
index_of-found k (p ∷ os) (suc i) o h = elim (Bool-cases (text_eq p o)) [
  | inl e ↦ (0, ground (arith, e), ap some (text_eq_sound p o e))
  | inr e ↦
      let (j, found, same) = index_of-found (suc k) os i o h in
      (suc j, ground (arith, e, found), same)
]

shown-show_option :
    (options : List Text) (i j : ℕ) (o : Text)
    → index_of 0 options (text o) ≡ some j
    → get_elem? options j ≡ some o
    → shown (show_value (text o) (select options i)) ≡ some (text o)
unfolding shown show_value
shown-show_option options i j o found same =
    ap (λ k. shown (select_found k options i)) found ∙ ap option_value same

shown_select :
    (options : List Text) (i : ℕ) (o : Option Text) (v : Value)
    → get_elem? options i ≡ o
    → shown (select options i) ≡ some v
    → (p : Text) × (get_elem? options i ≡ some p) × (v ≡ text p)
unfolding shown
shown_select options i none v e h = absurd (ground (arith, e))
shown_select options i (some p) v e h = (p, e, ground (arith, e))

-- A control that is made to show what it shows already shows it still.
shown-show_value : (c : Control) (v : Value) → shown c ≡ some v → shown (show_value v c) ≡ some v
unfolding shown show_value
shown-show_value (checkbox b) v h = ground arith
shown-show_value (select options i) v h =
    let (p, e, same) = shown_select options i (get_elem? options i) v refl h in
    let (j, found, again) = index_of-found 0 options i p e in
    subst (λ u. shown (show_value u (select options i)) ≡ some u) (sym same)
      (shown-show_option options i j p (found ∙ ap some (omega arith)) again)
shown-show_value (input t) v h = ground arith

module _ {S : Type 0} (w : WebUtil S) (h : IsWebUtil w) where
  pub get_setting-shown :
      (n : Text) (c : Control) (v : Value) (f : Form S)
      → shown c ≡ some v
      → f.control n ≡ some c
      → w.read_setting n nothing f.store ≡ v
      → get_setting w n f ≡ v
  unfolding get_setting shown
  get_setting-shown n (checkbox b) v f e r s = ground arith
  get_setting-shown n (select options i) v f e r s = ground arith
  get_setting-shown n (input t) v f e r s = ground arith

  update_setting-control :
      (n : Text) (c : Control) (f : Form S)
      → f.control n ≡ some c
      → (update_setting w n f).control n ≡ some (show_value (get_setting w n f) c)
  unfolding update_setting
  update_setting-control n c f e =
      ap (λ o. (update_control w n o f).control n) e
      ∙ at-same n (some (show_value (get_setting w n f) c)) f.control

  pub update_setting-store :
      (n : Text) (c : Control) (f : Form S)
      → f.control n ≡ some c
      → (update_setting w n f).store ≡ f.store
  unfolding update_setting
  update_setting-store n c f e = ap (λ o. (update_control w n o f).store) e

  save_setting-writes :
      (n : Text) (c : Control) (v : Value) (f : Form S)
      → f.control n ≡ some c
      → shown c ≡ some v
      → save_setting w n f ≡ (record f { store = w.write_setting n v f.store }, v)
  unfolding save_setting
  save_setting-writes n c v f e s =
      ap (λ o. save_control w n o f) e ∙ ap (λ o. write_shown w n o f) s

  -- A setting whose control shows a value is saved with it: it has that value from then on, and if the
  -- control is updated from the setting it shows that value again.
  pub save_setting-get_setting :
      (n : Text) (c : Control) (v : Value) (f : Form S)
      → f.control n ≡ some c
      → shown c ≡ some v
      → let t = (save_setting w n f).0 in
        (get_setting w n t ≡ v)
        × ((d : Control) × ((update_setting w n t).control n ≡ some d)
            × (shown d ≡ some v)
            × (get_setting w n (update_setting w n t) ≡ v))
  save_setting-get_setting n c v f e s =
      let t = record f { store = w.write_setting n v f.store } in
      let kept : (save_setting w n f).0 ≡ t = ap (λ p. p.0) (save_setting-writes n c v f e s) in
      let got = get_setting-shown n c v t s e (h.read-write n v f.store) in
      let d = show_value v c in
      let updated : (update_setting w n t).control n ≡ some d =
        update_setting-control n c t e ∙ ap (λ u. some (show_value u c)) got in
      let again = shown-show_value c v s in
      subst
        (λ (u : Form S).
          (get_setting w n u ≡ v)
          × ((d : Control) × ((update_setting w n u).control n ≡ some d)
              × (shown d ≡ some v)
              × (get_setting w n (update_setting w n u) ≡ v)))
        (sym kept)
        (
          got,
          (
            d,
            updated,
            again,
            get_setting-shown n d v (update_setting w n t) again updated (
                ap (w.read_setting n nothing) (update_setting-store n c t e)
                ∙ h.read-write n v f.store),
          ),
        )
