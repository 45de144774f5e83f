-- ===== src/Ui/Settings.antt =====
-- The settings: initSetting to enableSetting of app/ui.js, with the controls on the page. The storage is
-- noVNC's module WebUtil, a parameter.
pub mod Laws
pub mod Initial
pub mod Forced
pub mod Memory
pub mod Handlers
mod Tests
use docker_baseimage_gui.Prelude.{
  ℕ, zero, suc, ◌+◌, ◌/◌, ◌%◌, Bool, true, false, not, ◌&&◌, ◌||◌, Option, none, some, List, [],
  ◌∷◌, ◌++◌, map, ◌==◌, ltb, leb, if◌then◌else◌, ◌≡◌, ◌≢◌, get_elem?,
}
use docker_baseimage_gui.Prelude.Text.{Text, codes, text_eq}

-- The values of settings; `nothing` is null or undefined.
pub data Value : Type 0 where
  nothing : Value
  text : Text → Value
  flag : Bool → Value
  number : ℕ → Value

-- A control on the page: a checkbox, a selection of options, another input.
pub data Control : Type 0 where
  checkbox : Bool → Control
  select : List Text → ℕ → Control
  input : Text → Control

abbrev pub or_default : Value → Value → Value
or_default d nothing = d
or_default d v = v

-- What the code uses of WebUtil: getConfigVar, readSetting with its default, setSetting, writeSetting.
pub record WebUtil (S : Type 0) : Type 0 where
  pub get_config_var : Text → S → Option Text
  pub read_setting : Text → Value → S → Value
  pub set_setting : Text → Value → S → S
  pub write_setting : Text → Value → S → S

-- What it relies on: a setting that was set or written is read again, the others and the URL stay.
pub record IsWebUtil {S : Type 0} (w : WebUtil S) : Type 0 where
  pub read-default :
      (n : Text) (d : Value) (s : S)
      → w.read_setting n d s ≡ or_default d (w.read_setting n nothing s)
  pub read-set : (n : Text) (v : Value) (s : S) → w.read_setting n nothing (w.set_setting n v s) ≡ v
  pub read-set_other :
      (m n : Text) (v : Value) (s : S)
      → m ≢ n
      → w.read_setting m nothing (w.set_setting n v s) ≡ w.read_setting m nothing s
  pub config-set :
      (m n : Text) (v : Value) (s : S)
      → w.get_config_var m (w.set_setting n v s) ≡ w.get_config_var m s
  pub read-write :
      (n : Text) (v : Value) (s : S) → w.read_setting n nothing (w.write_setting n v s) ≡ v

-- The storage, the controls by the names of their settings, and which of them are disabled.
pub record Form (S : Type 0) : Type 0 where
  pub store : S
  pub control : Text → Option Control
  pub disabled : Text → Bool
  pub threw : Bool

abbrev pub at {ℓ} : {A : Type ℓ} → Text → A → (Text → A) → Text → A
at n v f m = if text_eq m n then v else f m

-- `toLowerCase()` of a code unit: of the others none becomes a letter of the words below.
abbrev pub lower : ℕ → ℕ
lower c = if leb b'A' c && leb c b'Z' then c + 32 else c

-- The keys of the object literal of getSetting, with the two of Object.prototype in lower case, which
-- `in` finds as well.
unfoldable pub is_no : Text → Bool
unfolding text_eq
is_no t =
    let word = map lower t in
    text_eq word (codes "0")
    || text_eq word (codes "no")
    || text_eq word (codes "false")
    || text_eq word (codes "constructor")
    || text_eq word (codes "__proto__")

abbrev pub to_flag : Value → Value
to_flag nothing = nothing
to_flag (text t) = flag (not (is_no t))
to_flag (flag b) = flag b
to_flag (number n) = flag (not (n == 0))

abbrev pub is_empty : Text → Bool
is_empty [] = true
is_empty (c ∷ s) = false

-- A value as a condition.
abbrev pub is_truthy : Value → Bool
is_truthy nothing = false
is_truthy (text t) = not (is_empty t)
is_truthy (flag b) = b
is_truthy (number n) = not (n == 0)

-- The digits of a number, which are at most as many as `fuel`.
unfoldable pub decimal : ℕ → ℕ → Text
decimal zero n = []
decimal (suc fuel) n =
    let rest = decimal fuel (n / 10) in
    if ltb n 10 then (b'0' + n) ∷ [] else rest ++ ((b'0' + n % 10) ∷ [])

-- A value as the text of an input; null as the empty one.
abbrev pub to_text : Value → Text
to_text nothing = []
to_text (text t) = t
to_text (flag true) = codes "true"
to_text (flag false) = codes "false"
to_text (number n) = decimal (suc n) n

-- The loop of updateSetting: the first option that is strictly equal to the value.
abbrev pub is_value : Text → Value → Bool
is_value o (text t) = text_eq o t
is_value o v = false

unfoldable pub index_of : ℕ → List Text → Value → Option ℕ
index_of i [] v = none
index_of i (o ∷ os) v = let rest = index_of (suc i) os v in if is_value o v then some i else rest

abbrev pub select_found : Option ℕ → List Text → ℕ → Control
select_found none options i = select options i
select_found (some j) options i = select options j

unfoldable pub show_value : Value → Control → Control
unfolding index_of
show_value v (checkbox b) = checkbox (is_truthy v)
show_value v (select options i) = select_found (index_of 0 options v) options i
show_value v (input t) = input (to_text v)

-- The value that a control shows; `none` where reading it throws.
abbrev pub option_value : Option Text → Option Value
option_value none = none
option_value (some o) = some (text o)

unfoldable pub shown : Control → Option Value
shown (checkbox b) = some (flag b)
shown (select options i) = option_value (get_elem? options i)
shown (input t) = some (text t)

module _ {S : Type 0} (w : WebUtil S) where
  abbrev pub as_control : Option Control → Value → Value
  as_control (some (checkbox b)) v = to_flag v
  as_control c v = v

  unfoldable pub get_setting : Text → Form S → Value
  get_setting n f = as_control (f.control n) (w.read_setting n nothing f.store)

  abbrev pub update_control : Text → Option Control → Form S → Form S
  update_control n none f = record f { threw = true }
  update_control n (some c) f = record f {
    control = at n (some (show_value (get_setting n f) c)) f.control;
  }

  unfoldable pub update_setting : Text → Form S → Form S
  unfolding get_setting show_value
  update_setting n f = update_control n (f.control n) f

  unfoldable pub disable_setting : Text → Form S → Form S
  disable_setting n f = record f { disabled = at n true f.disabled }

  unfoldable pub enable_setting : Text → Form S → Form S
  enable_setting n f = record f { disabled = at n false f.disabled }

  -- With the value that it returns.
  abbrev pub config_or_read : Option Text → Text → Value → S → Value
  config_or_read (some t) n d s = text t
  config_or_read none n d s = w.read_setting n d s

  abbrev pub update_if : Option Control → Text → Form S → Form S
  update_if none n f = f
  update_if (some c) n f = update_setting n f

  unfoldable pub init_setting : Text → Value → Form S → Form S × Value
  unfolding update_setting
  init_setting n d f =
      let v = config_or_read (w.get_config_var n f.store) n d f.store in
      let t = record f { store = w.set_setting n v f.store } in (update_if (f.control n) n t, v)

  -- Without the control, updateSetting throws before disableSetting.
  abbrev pub force_control : Text → Option Control → Form S → Form S
  force_control n none f = update_setting n f
  force_control n (some c) f = disable_setting n (update_setting n f)

  unfoldable pub force_setting : Text → Value → Form S → Form S
  unfolding update_setting disable_setting
  force_setting n v f =
      force_control n (f.control n) (record f { store = w.set_setting n v f.store })

  abbrev pub write_shown : Text → Option Value → Form S → Form S × Value
  write_shown n none f = (record f { threw = true }, nothing)
  write_shown n (some v) f = (record f { store = w.write_setting n v f.store }, v)

  abbrev pub save_control : Text → Option Control → Form S → Form S × Value
  save_control n none f = (record f { threw = true }, nothing)
  save_control n (some c) f = write_shown n (shown c) f

  unfoldable pub save_setting : Text → Form S → Form S × Value
  unfolding shown
  save_setting n f = save_control n (f.control n) f

  -- The two settings that connect and disconnectFinished test.
  unfoldable pub uses_encryption : Form S → Bool
  unfolding get_setting
  uses_encryption f = is_truthy (get_setting (codes "encrypt") f)

  abbrev pub is_true : Value → Bool
  is_true (flag b) = b
  is_true v = false

  unfoldable pub allows_reconnect : Form S → Bool
  unfolding get_setting
  allows_reconnect f = is_true (get_setting (codes "reconnect") f)
