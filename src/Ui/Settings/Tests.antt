-- ===== src/Ui/Settings/Tests.antt =====
-- Concrete runs of the settings of app/ui.js.
use docker_baseimage_gui.Prelude.{true, false, not, none, some, [], ◌∷◌, ◌≡◌, ◌≢◌, refl, ap, arith}
use docker_baseimage_gui.Prelude.Text.{codes, text_eq}
use docker_baseimage_gui.Ui.Settings.{
  nothing, text, flag, Control, checkbox, select, input, Form, at, is_empty, get_setting,
  update_setting, init_setting, save_setting, shown, allows_reconnect, uses_encryption,
}
use docker_baseimage_gui.Ui.Settings.Memory.{Memory, memory, memory-IsWebUtil}
use docker_baseimage_gui.Ui.Settings.Handlers.{
  apply_resize_mode, update_view_clip, parse_int, leading, Panel, change, change-sees_new,
}
use docker_baseimage_gui.Ui.Settings.Laws.{save_setting-get_setting}
use docker_baseimage_gui.Ui.Settings.Initial.{url_settings-misread}

abbrev store : Memory
store = record {
  url =
      at (codes "reconnect") (some (codes "true"))
        (at (codes "encrypt") (some (codes "false")) (λ n. none));
  settings = λ n. nothing;
}

abbrev form : Form Memory
form = record {
  store = store;
  control =
      at (codes "resize") (some (select (codes "off" ∷ codes "scale" ∷ codes "remote" ∷ []) 1))
        (at (codes "view_clip") (some (checkbox true)) (λ n. none));
  disabled = λ n. false;
  threw = false;
}

save_setting-get_setting_example :
    let t = (save_setting memory (codes "resize") form).0 in
    (get_setting memory (codes "resize") t ≡ text (codes "scale"))
    × ((d : Control) × ((update_setting memory (codes "resize") t).control (codes "resize")
          ≡ some d)
        × (shown d ≡ some (text (codes "scale")))
        × (get_setting memory (codes "resize") (update_setting memory (codes "resize") t)
            ≡ text (codes "scale")))
unfolding shown text_eq
save_setting-get_setting_example =
    save_setting-get_setting memory memory-IsWebUtil (codes "resize")
      (select (codes "off" ∷ codes "scale" ∷ codes "remote" ∷ []) 1) (text (codes "scale")) form
      refl refl

resize_other : codes "resize" ≢ codes "view_clip"
unfolding text_eq
resize_other e = ground (arith, ap (λ t. text_eq t (codes "resize")) e)

url_settings-misread_example :
    (allows_reconnect memory (init_setting memory (codes "reconnect") (flag true) form).0 ≡ false)
    × (uses_encryption memory (init_setting memory (codes "encrypt") (flag false) form).0
        ≡ not (is_empty (codes "false")))
unfolding text_eq
url_settings-misread_example =
    url_settings-misread memory memory-IsWebUtil (codes "true") (codes "false") (flag false) form
      refl refl refl refl

abbrev panel : Panel Memory
panel = record {
  form = record form {
    control = at (codes "quality") (some (input (codes "9"))) (
        at (codes "compression") (some (input (codes "0"))) (
          at (codes "logging") (some (select (codes "warn" ∷ codes "debug" ∷ []) 1)) form.control));
  };
  rfb = true;
  quality_level = some 6;
  compression_level = some 2;
  logging = text (codes "warn");
  called = [];
}

change-sees_new_example :
    ((change memory (codes "quality") panel).quality_level ≡ parse_int (codes "9"))
    × ((change memory (codes "compression") panel).compression_level ≡ parse_int (codes "0"))
    × ((change memory (codes "logging") panel).logging ≡ text (codes "debug"))
    × ((change memory (codes "resize") panel).called
        ≡ (update_view_clip, text (codes "scale")) ∷ (apply_resize_mode, text (codes "scale")) ∷ [])
unfolding shown text_eq
change-sees_new_example =
    change-sees_new memory memory-IsWebUtil (input (codes "9")) (input (codes "0"))
      (select (codes "warn" ∷ codes "debug" ∷ []) 1)
      (select (codes "off" ∷ codes "scale" ∷ codes "remote" ∷ []) 1) (text (codes "9"))
      (text (codes "0")) (text (codes "debug")) (text (codes "scale")) panel refl refl refl refl
      refl refl refl refl refl

nine : parse_int (codes "9px") ≡ some 9
unfolding parse_int leading
nine = refl
