-- ===== src/Ui/Settings/Memory.antt =====
-- A storage in memory that keeps to what the settings of app/ui.js rely on of WebUtil.
use docker_baseimage_gui.Prelude.{Option, ◌≡◌, refl, sym, ap, ◌∙◌}
use docker_baseimage_gui.Prelude.Text.{Text}
use docker_baseimage_gui.Ui.Settings.{
  Value, nothing, text, flag, number, or_default, WebUtil, IsWebUtil, at,
}
use docker_baseimage_gui.Ui.Settings.Laws.{at-same, at-other}

pub record Memory : Type 0 where
  pub url : Text → Option Text
  pub settings : Text → Value

abbrev pub memory : WebUtil Memory
memory = record {
  get_config_var = λ n s. s.url n;
  read_setting = λ n d s. or_default d (s.settings n);
  set_setting = λ n v s. record { url = s.url; settings = at n v s.settings };
  write_setting = λ n v s. record { url = s.url; settings = at n v s.settings };
}

or_nothing : (v : Value) → or_default nothing v ≡ v
or_nothing nothing = refl
or_nothing (text t) = refl
or_nothing (flag b) = refl
or_nothing (number n) = refl

pub memory-IsWebUtil : IsWebUtil memory
memory-IsWebUtil = record {
  read-default = λ n d s. ap (or_default d) (sym (or_nothing (s.settings n)));
  read-set = λ n v s. or_nothing (at n v s.settings n) ∙ at-same n v s.settings;
  read-set_other = λ m n v s other. ap (or_default nothing) (at-other m n v s.settings other);
  config-set = λ m n v s. refl;
  read-write = λ n v s. or_nothing (at n v s.settings n) ∙ at-same n v s.settings;
}
