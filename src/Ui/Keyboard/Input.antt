-- ===== src/Ui/Keyboard/Input.antt =====
-- What keyInput of app/ui.js promises: the server gets the text, and the reserve stays bounded.
use docker_baseimage_gui.Prelude.{
  ℕ, ◌-◌, ◌*◌, ◌≤◌, max, Bool, true, false, List, ◌++◌, ◌≡◌, refl, ap, arith, length, if◌then◌else◌,
  [], ◌∷◌, ltb, ◌∙◌,
}
use docker_baseimage_gui.Prelude.Text.{Text}
use docker_baseimage_gui.Ui.Keyboard.{
  Key, Keyboard, default_keyboardinput_len, underscores, keyboardinput_reset, keys_for, is_empty,
  key_input,
}
use docker_baseimage_gui.Ui.Keyboard.Typing.{type_keys, keys_for-types}

-- What the loop compares the new value with: an empty memory is first filled by a reset.
abbrev pub remembered : Keyboard → Text
remembered s =
    if is_empty s.last_keyboardinput
    then underscores (default_keyboardinput_len - 1)
    else s.last_keyboardinput

key_input-keys :
    (new : Text) (sel : ℕ) (s : Keyboard)
    → (key_input new sel s).keys ≡ s.keys ++ keys_for (max sel (length new)) new (remembered s)
unfolding key_input keyboardinput_reset
key_input-keys new sel s = ground arith

-- The reserve that is left to erase: what is remembered is what the input element holds, and is
-- neither empty nor longer than twice the default length.
unfoldable pub HasReserve : Keyboard → Type 0
HasReserve s =
    (s.last_keyboardinput ≡ s.element_value)
    × ((1 ≤ length s.last_keyboardinput)
        × (length s.last_keyboardinput ≤ 2 * default_keyboardinput_len))

underscores_len : length (underscores (default_keyboardinput_len - 1)) ≡ 99
unfolding underscores
underscores_len = refl

keyboardinput_reset-HasReserve : (s : Keyboard) → HasReserve (keyboardinput_reset s)
unfolding keyboardinput_reset HasReserve
keyboardinput_reset-HasReserve s = (refl, ground (arith, underscores_len))

if-HasReserve :
    (long short : Bool) (s t : Keyboard)
    → (long ≡ false → short ≡ false → HasReserve t)
    → HasReserve
        (if long then keyboardinput_reset s else if short then keyboardinput_reset s else t)
if-HasReserve true short s t h = keyboardinput_reset-HasReserve s
if-HasReserve false true s t h = keyboardinput_reset-HasReserve s
if-HasReserve false false s t h = h refl refl

HasReserve-is_empty : (s : Keyboard) → HasReserve s → is_empty s.last_keyboardinput ≡ false
unfolding HasReserve
HasReserve-is_empty s (e, (low, high)) = lem s.last_keyboardinput low
  where
    lem : (t : Text) → 1 ≤ length t → is_empty t ≡ false
    lem [] h = absurd (omega arith)
    lem (c ∷ t) h = refl

key_input-HasReserve :
    (new : Text) (sel : ℕ) (s : Keyboard)
    → HasReserve s
    → sel ≤ length new
    → HasReserve (key_input new sel s)
unfolding key_input HasReserve
key_input-HasReserve new sel s r h =
    let new_len = max sel (length new) in
    let t = record s {
      element_value = new;
      keys = s.keys ++ keys_for new_len new s.last_keyboardinput;
    } in
    rw (HasReserve-is_empty s r) (
      if-HasReserve (ltb (2 * default_keyboardinput_len) new_len) (ltb new_len 1) t
        (record t { last_keyboardinput = new }) (λ p q. (refl, ground arith)))

-- If the element and the memory agree and hold between 1 and 200 code units, then an input event
-- whose caret is not past the end of the new value sends, after what was sent before, keys that
-- turn the remembered text into that value, and the element and the memory again agree and hold
-- between 1 and 200 code units.
pub key_input-types :
    (new : Text) (sel : ℕ) (s : Keyboard)
    → HasReserve s
    → sel ≤ length new
    → let t = key_input new sel s in
      ((ks : List Key) × ((t.keys ≡ s.keys ++ ks) × (type_keys ks s.last_keyboardinput ≡ new)))
      × HasReserve t
key_input-types new sel s r h = (
  (
    keys_for (length new) new s.last_keyboardinput,
    (
      key_input-keys new sel s
          ∙ ap (λ n. s.keys ++ keys_for n new (remembered s)) (omega arith)
          ∙ ap (λ t. s.keys ++ keys_for (length new) new t) (simp (HasReserve-is_empty s r) refl),
      keys_for-types new s.last_keyboardinput,
    ),
  ),
  key_input-HasReserve new sel s r h,
)
