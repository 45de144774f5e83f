-- ===== src/Ui/Settings/Forced.antt =====
-- forceSetting of app/ui.js.
use docker_baseimage_gui.Prelude.{Bool, true, some, ◌≡◌, ◌≢◌, ◌∙◌, ap}
use docker_baseimage_gui.Prelude.Text.{Text}
use docker_baseimage_gui.Ui.Settings.{
  nothing, flag, checkbox, WebUtil, IsWebUtil, Form, at, to_flag, is_truthy, show_value,
  get_setting, update_setting, disable_setting, force_setting, update_control, force_control,
  as_control,
}
use docker_baseimage_gui.Ui.Settings.Laws.{at-same, at-other}

module _ {S : Type 0} (w : WebUtil S) (h : IsWebUtil w) where
  -- What forcing the setting of a checkbox leaves.
  abbrev forced : Text → Bool → Form S → Form S
  forced n b f = record {
    store = w.set_setting n (flag b) f.store;
    control = at n (some (checkbox b)) f.control;
    disabled = at n true f.disabled;
    threw = f.threw;
  }

  force_setting-forced :
      (n : Text) (a b : Bool) (f : Form S)
      → f.control n ≡ some (checkbox a)
      → force_setting w n (flag b) f ≡ forced n b f
  unfolding force_setting update_setting disable_setting get_setting show_value
  force_setting-forced n a b f e =
      let t = record f { store = w.set_setting n (flag b) f.store } in
      let got : get_setting w n t ≡ flag b =
        ap (λ o. as_control w o (w.read_setting n nothing t.store)) e
        ∙ ap to_flag (h.read-set n (flag b) f.store) in
      ap (λ o. force_control w n o t) e
      ∙ ap (λ o. disable_setting w n (update_control w n o t)) e
      ∙ ap
          (λ v.
            disable_setting w n
              (record t { control = at n (some (checkbox (is_truthy v))) f.control }))
          got

  get_setting-forced : (n : Text) (b : Bool) (f : Form S) → get_setting w n (forced n b f) ≡ flag b
  unfolding get_setting
  get_setting-forced n b f =
      ap (λ o. as_control w o (w.read_setting n nothing (forced n b f).store))
        (at-same n _ f.control)
      ∙ ap to_flag (h.read-set n (flag b) f.store)

  get_setting-forced_other :
      (m n : Text) (b : Bool) (f : Form S)
      → m ≢ n
      → get_setting w m (forced n b f) ≡ get_setting w m f
  unfolding get_setting
  get_setting-forced_other m n b f other =
      ap (λ o. as_control w o (w.read_setting m nothing (forced n b f).store))
        (at-other m n _ f.control other)
      ∙ ap (as_control w (f.control m)) (h.read-set_other m n (flag b) f.store other)

  -- A checkbox whose setting is forced shows the value that is forced and is disabled, the setting has
  -- that value, and the other controls are as they were.
  pub force_setting-checkbox :
      (m n : Text) (a b : Bool) (f : Form S)
      → m ≢ n
      → f.control n ≡ some (checkbox a)
      → let t = force_setting w n (flag b) f in
        (get_setting w n t ≡ flag b)
        × (t.control n ≡ some (checkbox b))
        × (t.disabled n ≡ true)
        × (t.control m ≡ f.control m)
        × (t.disabled m ≡ f.disabled m)
        × (get_setting w m t ≡ get_setting w m f)
  force_setting-checkbox m n a b f other e =
      let same = force_setting-forced n a b f e in
      (
        ap (get_setting w n) same ∙ get_setting-forced n b f,
        ap (λ (t : Form S). t.control n) same ∙ at-same n _ f.control,
        ap (λ (t : Form S). t.disabled n) same ∙ at-same n true f.disabled,
        ap (λ (t : Form S). t.control m) same ∙ at-other m n _ f.control other,
        ap (λ (t : Form S). t.disabled m) same ∙ at-other m n true f.disabled other,
        ap (get_setting w m) same ∙ get_setting-forced_other m n b f other,
      )
