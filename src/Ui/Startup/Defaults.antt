-- ===== src/Ui/Startup/Defaults.antt =====
-- What initSettings of app/ui.js leaves, and where the page is loaded again.
use docker_baseimage_gui.Prelude.{
  Bool, true, false, ◌&&◌, Option, none, some, List, [], ◌∷◌, ◌≡◌, ◌≢◌, ◌⊎◌, refl, sym, ap, ◌∙◌,
  subst, arith, if◌then◌else◌, Bool-cases, inl, inr, and-true,
}
use docker_baseimage_gui.Prelude.Text.{Text, text_eq, text_eq_sound, text_eq_refl}
use docker_baseimage_gui.Ui.Settings.{Value, nothing, WebUtil, IsWebUtil, Form, init_setting}
use docker_baseimage_gui.Ui.Settings.Initial.{
  preferred, init_setting-stored, init_setting-reads, init_setting-other,
}
use docker_baseimage_gui.Ui.Startup.{Environment, WebData, defaults, init_all, init_settings}

-- The default of a setting, and whether no name stands twice.
unfoldable pub default_of : List (Text × Value) → Text → Option Value
default_of [] n = none
default_of ((m, v) ∷ ps) n = let rest = default_of ps n in if text_eq n m then some v else rest

abbrev pub is_none : Option Value → Bool
is_none none = true
is_none (some v) = false

unfoldable pub distinct : List (Text × Value) → Bool
unfolding default_of
distinct [] = true
distinct ((m, v) ∷ ps) = is_none (default_of ps m) && distinct ps

different : (s t : Text) → text_eq s t ≡ false → s ≢ t
different s t h e = ground (arith, h, text_eq_refl t, ap (λ r. text_eq r t) e)

default_of-cons :
    (m n : Text) (u v : Value) (ps : List (Text × Value))
    → default_of ((m, u) ∷ ps) n ≡ some v
    → ((n ≡ m) × (u ≡ v)) ⊎ ((n ≢ m) × (default_of ps n ≡ some v))
unfolding default_of
default_of-cons m n u v ps h = elim (Bool-cases (text_eq n m)) [
  | inl e ↦ inl (text_eq_sound n m e, ground (arith, e))
  | inr e ↦ inr (different n m e, ground (arith, e))
]

default_of-cons_none :
    (m n : Text) (u : Value) (ps : List (Text × Value))
    → default_of ((m, u) ∷ ps) n ≡ none
    → (n ≢ m) × (default_of ps n ≡ none)
unfolding default_of
default_of-cons_none m n u ps h = elim (Bool-cases (text_eq n m)) [
  | inl e ↦ absurd (ground (arith, e))
  | inr e ↦ (different n m e, ground (arith, e))
]

is_none-none : (o : Option Value) → is_none o ≡ true → o ≡ none
is_none-none none h = refl
is_none-none (some v) h = absurd (ground arith)

defaults-distinct : (e : Environment) (d : WebData) → distinct (defaults e d) ≡ true
unfolding distinct default_of defaults text_eq
defaults-distinct e d = refl

module _ {S : Type 0} (w : WebUtil S) (h : IsWebUtil w) where
  -- The value that is read, without a default.
  abbrev stored : Text → Form S → Value
  stored n f = w.read_setting n nothing f.store

  init_all-other :
      (ps : List (Text × Value)) (n : Text) (f : Form S)
      → default_of ps n ≡ none
      → stored n (init_all w ps f) ≡ stored n f
  unfolding init_all default_of
  init_all-other [] n f e = refl
  init_all-other ((m, u) ∷ ps) n f e =
      let (other, rest) = default_of-cons_none m n u ps e in
      init_all-other ps n (init_setting w m u f).0 rest ∙ (init_setting-other w h n m u f other)

  init_setting-config :
      (m n : Text) (u : Value) (f : Form S)
      → w.get_config_var n (init_setting w m u f).0.store ≡ w.get_config_var n f.store
  init_setting-config m n u f =
      ap (w.get_config_var n) (init_setting-stored w h m u f) ∙ h.config-set n m _ f.store

  init_all-preferred :
      (ps : List (Text × Value)) (n : Text) (v : Value) (f : Form S)
      → distinct ps ≡ true
      → default_of ps n ≡ some v
      → stored n (init_all w ps f) ≡ preferred (w.get_config_var n f.store) (stored n f) v
  unfolding init_all distinct
  init_all-preferred [] n v f d e = absurd (unfold default_of in ground arith)
  init_all-preferred ((m, u) ∷ ps) n v f d e =
      let (fresh, rest) = and-true (is_none (default_of ps m)) (distinct ps) d in
      let g = (init_setting w m u f).0 in
      elim (default_of-cons m n u v ps e) [
        | inl (same, value) ↦
            let kept = init_all-other ps m g (is_none-none (default_of ps m) fresh) in
            subst
              (λ k.
                stored k (init_all w ps g) ≡ preferred (w.get_config_var k f.store) (stored k f) v)
              (sym same)
              (kept
                ∙ init_setting-reads w h m u f
                ∙ ap (preferred (w.get_config_var m f.store) (stored m f)) value)
        | inr (other, later) ↦
            init_all-preferred ps n v g rest later
            ∙ ap (λ o. preferred o (stored n g) v) (init_setting-config m n u f)
            ∙ ap (λ x. preferred (w.get_config_var n f.store) x v)
                (init_setting-other w h n m u f other)
      ]

  -- initSettings gives each of the settings that it names the value of the URL, or else the one that is
  -- stored, or else its default, whatever the browser and the server say.
  pub init_settings-preferred :
      (e : Environment) (d : WebData) (n : Text) (v : Value) (f : Form S)
      → default_of (defaults e d) n ≡ some v
      → w.read_setting n nothing (init_settings w e d f).store
        ≡ preferred (w.get_config_var n f.store) (w.read_setting n nothing f.store) v
  unfolding init_settings
  init_settings-preferred e d n v f named =
      init_all-preferred (defaults e d) n v f (defaults-distinct e d) named

  -- A setting that initSettings does not name is left as it is stored.
  pub init_settings-other :
      (e : Environment) (d : WebData) (n : Text) (f : Form S)
      → default_of (defaults e d) n ≡ none
      → w.read_setting n nothing (init_settings w e d f).store ≡ w.read_setting n nothing f.store
  unfolding init_settings
  init_settings-other e d n f unnamed = init_all-other (defaults e d) n f unnamed
