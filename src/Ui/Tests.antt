-- ===== src/Ui/Tests.antt =====
-- Concrete runs of the user interface of app/ui.js.
use docker_baseimage_gui.Prelude.{ℕ, List, ◌++◌, ◌≡◌, refl, arith, []}
use docker_baseimage_gui.Prelude.Text.{codes}
use docker_baseimage_gui.Ui.Status.{initial, HasOneClass, Named}
use docker_baseimage_gui.Ui.Keyboard.{Key, Keyboard, key_input}
use docker_baseimage_gui.Ui.Keyboard.Typing.{type_keys}
use docker_baseimage_gui.Ui.Keyboard.Input.{HasReserve, key_input-types}

-- The status at first.
initial-HasOneClass : HasOneClass initial
initial-HasOneClass = record {
  error_alone = λ e. ground arith;
  warn_alone = λ e. ground arith;
  some_class = λ e. ground arith;
}

initial-Named : (j : ℕ) → Named j initial
initial-Named j = ground arith

abbrev ready_keyboard : Keyboard
ready_keyboard = record { last_keyboardinput = codes "cat"; element_value = codes "cat"; keys = [] }

ready_keyboard-HasReserve : HasReserve ready_keyboard
unfolding HasReserve
ready_keyboard-HasReserve = (refl, omega arith)

key_input-types_example :
    let t = key_input (codes "cart") 4 ready_keyboard in
    ((ks : List Key) × ((t.keys ≡ [] ++ ks) × (type_keys ks (codes "cat") ≡ codes "cart")))
    × HasReserve t
key_input-types_example =
    key_input-types (codes "cart") 4 ready_keyboard ready_keyboard-HasReserve (omega arith)
