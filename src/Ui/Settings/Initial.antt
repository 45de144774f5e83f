-- ===== src/Ui/Settings/Initial.antt =====
-- The values that initSetting of app/ui.js gives to settings, and those that the URL gives.
use docker_baseimage_gui.Prelude.{true, false, not, Option, none, some, ◌≡◌, ◌≢◌, refl, ◌∙◌, ap}
use docker_baseimage_gui.Prelude.Text.{Text, codes}
use docker_baseimage_gui.Ui.Settings.{
  Value, nothing, text, flag, Control, or_default, WebUtil, IsWebUtil, Form, is_truthy, is_empty,
  get_setting, init_setting, as_control, update_if, is_true, config_or_read, uses_encryption,
  allows_reconnect,
}
use docker_baseimage_gui.Ui.Settings.Laws.{update_setting-store}

-- The URL before the storage, and the storage before the default.
abbrev pub preferred : Option Text → Value → Value → Value
preferred (some t) v d = text t
preferred none v d = or_default d v

module _ {S : Type 0} (w : WebUtil S) (h : IsWebUtil w) where
  update_if-store :
      (n : Text) (o : Option Control) (f : Form S)
      → f.control n ≡ o
      → (update_if w o n f).store ≡ f.store
  update_if-store n none f e = refl
  update_if-store n (some c) f e = update_setting-store w h n c f e

  pub init_setting-stored :
      (n : Text) (d : Value) (f : Form S)
      → (init_setting w n d f).0.store
        ≡ w.set_setting n (config_or_read w (w.get_config_var n f.store) n d f.store) f.store
  unfolding init_setting
  init_setting-stored n d f =
      update_if-store n (f.control n)
        (record f {
          store =
              w.set_setting n (config_or_read w (w.get_config_var n f.store) n d f.store) f.store;
        })
        refl

  config_or_read-preferred :
      (o : Option Text) (n : Text) (d : Value) (s : S)
      → config_or_read w o n d s ≡ preferred o (w.read_setting n nothing s) d
  config_or_read-preferred none n d s = h.read-default n d s
  config_or_read-preferred (some t) n d s = refl

  pub init_setting-reads :
      (n : Text) (d : Value) (f : Form S)
      → w.read_setting n nothing (init_setting w n d f).0.store
        ≡ preferred (w.get_config_var n f.store) (w.read_setting n nothing f.store) d
  init_setting-reads n d f =
      let v = config_or_read w (w.get_config_var n f.store) n d f.store in
      ap (w.read_setting n nothing) (init_setting-stored n d f)
      ∙ h.read-set n v f.store
      ∙ config_or_read-preferred (w.get_config_var n f.store) n d f.store

  pub init_setting-other :
      (m n : Text) (d : Value) (f : Form S)
      → m ≢ n
      → w.read_setting m nothing (init_setting w n d f).0.store ≡ w.read_setting m nothing f.store
  init_setting-other m n d f other =
      ap (w.read_setting m nothing) (init_setting-stored n d f)
      ∙ h.read-set_other m n (config_or_read w (w.get_config_var n f.store) n d f.store) f.store
          other

  uncontrolled :
      (n t : Text) (d : Value) (f : Form S)
      → f.control n ≡ none
      → w.get_config_var n f.store ≡ some t
      → get_setting w n (init_setting w n d f).0 ≡ text t
  unfolding get_setting init_setting
  uncontrolled n t d f e c =
      let v = config_or_read w (w.get_config_var n f.store) n d f.store in
      let g = record f { store = w.set_setting n v f.store } in
      ap (λ o. get_setting w n (update_if w o n g)) e
      ∙ ap (λ o. as_control w o (w.read_setting n nothing g.store)) e
      ∙ h.read-set n v f.store
      ∙ ap (λ o. config_or_read w o n d f.store) c

  -- Where `reconnect` and `encrypt` have no control on the page and both are given in the URL: whatever
  -- the text of `reconnect` is, `true` as well, it turns reconnecting off, and any text of `encrypt` that
  -- is not empty, `false` as well, turns encryption on.
  pub url_settings-misread :
      (t u : Text) (d : Value) (f : Form S)
      → f.control (codes "reconnect") ≡ none
      → f.control (codes "encrypt") ≡ none
      → w.get_config_var (codes "reconnect") f.store ≡ some t
      → w.get_config_var (codes "encrypt") f.store ≡ some u
      → (allows_reconnect w (init_setting w (codes "reconnect") (flag true) f).0 ≡ false)
        × (uses_encryption w (init_setting w (codes "encrypt") d f).0 ≡ not (is_empty u))
  unfolding allows_reconnect uses_encryption
  url_settings-misread t u d f no_reconnect no_encrypt given_reconnect given_encrypt = (
    ap (is_true w) (uncontrolled (codes "reconnect") t (flag true) f no_reconnect given_reconnect),
    ap is_truthy (uncontrolled (codes "encrypt") u d f no_encrypt given_encrypt),
  )
