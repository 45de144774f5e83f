-- ===== src/Ui/Keyboard.antt =====
-- The input of the virtual keyboard: keyInput and keyboardinputReset of app/ui.js.
pub mod Typing
pub mod Input
pub mod Focus
use docker_baseimage_gui.Prelude.{
  ℕ, zero, suc, ◌+◌, ◌-◌, ◌*◌, ◌≤◌, ◌<◌, min, max, Bool, true, false, Option, none, some, List, [],
  ◌∷◌, ◌++◌, ◌==◌, ltb, if◌then◌else◌, ◌≡◌, refl, arith, length, get_elem?, take, drop,
}
use docker_baseimage_gui.Prelude.Text.{Text}

-- A key event that is sent: the backspace, or the key of a code unit (`none` for the NaN that
-- charCodeAt gives past the end).
pub data Key : Type 0 where
  backspace : Key
  press : Option ℕ → Key

-- UI.lastKeyboardinput (an empty text also stands for null), the value of the input element, and
-- the keys sent to the server, in order.
pub record Keyboard : Type 0 where
  pub last_keyboardinput : Text
  pub element_value : Text
  pub keys : List Key

abbrev pub default_keyboardinput_len : ℕ
default_keyboardinput_len = 100

unfoldable pub underscores : ℕ → Text
underscores zero = []
underscores (suc n) = b'_' ∷ underscores n

-- `new Array(n).join("_")` is n - 1 underscores.
unfoldable pub keyboardinput_reset : Keyboard → Keyboard
keyboardinput_reset s =
    let value = underscores (default_keyboardinput_len - 1) in
    record s { element_value = value; last_keyboardinput = value }

abbrev pub unit_eq : Option ℕ → Option ℕ → Bool
unit_eq none none = true
unit_eq none (some d) = false
unit_eq (some c) none = false
unit_eq (some c) (some d) = c == d

-- The loop that compares the texts, with the rounds that are left: the first position at which
-- `charAt` differs.
unfoldable pub first_difference : ℕ → ℕ → Text → Text → Option ℕ
first_difference zero i new old = none
first_difference (suc rounds) i new old =
    let rest = first_difference rounds (i + 1) new old in
    if unit_eq (get_elem? new i) (get_elem? old i) then rest else some i

-- The numbers of inputs and backspaces, by the position of the first difference. A negative number
-- of inputs sends nothing, as 0 does.
abbrev pub counts : ℕ → ℕ → Option ℕ → ℕ × ℕ
counts new_len old_len none = (new_len - old_len, old_len - new_len)
counts new_len old_len (some i) = (new_len - i, old_len - i)

unfoldable pub count_keys : ℕ → Text → Text → ℕ × ℕ
count_keys new_len new old =
    counts new_len (length old) (first_difference (min (length old) new_len) 0 new old)

unfoldable pub backspaces : ℕ → List Key
backspaces zero = []
backspaces (suc n) = backspace ∷ backspaces n

-- The keys of the code units from position `i` on.
unfoldable pub presses : ℕ → ℕ → Text → List Key
presses zero i new = []
presses (suc n) i new = press (get_elem? new i) ∷ presses n (i + 1) new

abbrev pub keys_of_counts : ℕ → Text → ℕ × ℕ → List Key
keys_of_counts new_len new (inputs, erased) =
    backspaces erased ++ presses inputs (new_len - inputs) new

unfoldable pub keys_for : ℕ → Text → Text → List Key
unfolding count_keys
keys_for new_len new old = keys_of_counts new_len new (count_keys new_len new old)

abbrev pub is_empty : Text → Bool
is_empty [] = true
is_empty (c ∷ s) = false

-- keyInput, while there is a connection. The number is `event.target.selectionStart`.
unfoldable pub key_input : Text → ℕ → Keyboard → Keyboard
unfolding keyboardinput_reset
key_input new selection_start s₀ =
    let typed = record s₀ { element_value = new } in
    let s = if is_empty s₀.last_keyboardinput then keyboardinput_reset typed else typed in
    let new_len = max selection_start (length new) in
    let t = record s { keys = s.keys ++ keys_for new_len new s.last_keyboardinput } in
    if ltb (2 * default_keyboardinput_len) new_len
    then keyboardinput_reset t
    else if ltb new_len 1
    then keyboardinput_reset t
    else record t { last_keyboardinput = new }
