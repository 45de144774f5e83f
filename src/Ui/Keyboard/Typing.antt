-- ===== src/Ui/Keyboard/Typing.antt =====
-- What the server's text becomes by the keys that keyInput of app/ui.js sends.
use docker_baseimage_gui.Prelude.{
  ℕ, zero, suc, ◌+◌, ◌-◌, ◌≤◌, ◌<◌, min, true, Option, none, some, List, [], ◌∷◌, ◌++◌, ◌≡◌, refl,
  ap, sym, ◌∙◌, arith, length, get_elem?, take, drop, append_assoc, append-nil, length-take,
  take_all, Bool-cases, inl, inr, drop_all, take-append-drop,
}
use docker_baseimage_gui.Prelude.Text.{Text}
use docker_baseimage_gui.Ui.Keyboard.{
  Key, backspace, press, unit_eq, first_difference, count_keys, counts, keys_of_counts, backspaces,
  presses, keys_for,
}

-- A text field with the caret at its end: a backspace drops the last code unit, a key appends its
-- own; the key of no code unit has no effect.
abbrev pub type_key : Key → Text → Text
type_key backspace s = take (length s - 1) s
type_key (press none) s = s
type_key (press (some c)) s = s ++ (c ∷ [])

abbrev pub type_keys : List Key → Text → Text
type_keys [] s = s
type_keys (k ∷ ks) s = type_keys ks (type_key k s)

type_keys-append :
    (ks ls : List Key) (s : Text) → type_keys (ks ++ ls) s ≡ type_keys ls (type_keys ks s)
type_keys-append [] ls s = refl
type_keys-append (k ∷ ks) ls s = type_keys-append ks ls (type_key k s)

suc_add : (i : ℕ) → suc i ≡ i + 1
suc_add i = omega arith

take_at : {m n : ℕ} (s : Text) → m ≡ n → take m s ≡ take n s
take_at s e = ap (λ k. take k s) e

take-take : (m n : ℕ) (s : Text) → take m (take n s) ≡ take (min m n) s
take-take zero n s = take_at {m = 0} s (omega arith)
take-take (suc m) zero s = take_at {m = 0} s (omega arith)
take-take (suc m) (suc n) [] = take_at {m = suc (min m n)} [] (omega arith)
take-take (suc m) (suc n) (c ∷ s) =
    ap (◌∷◌ c) (take-take m n s) ∙ take_at {m = suc (min m n)} (c ∷ s) (omega arith)

type_keys-backspaces : (n : ℕ) (s : Text) → type_keys (backspaces n) s ≡ take (length s - n) s
unfolding backspaces
type_keys-backspaces zero s = sym (take_all (length s - 0) s (omega arith))
type_keys-backspaces (suc n) s =
    type_keys-backspaces n (take (length s - 1) s)
    ∙ take-take (length (take (length s - 1) s) - n) (length s - 1) s
    ∙ take_at s (omega (arith, length-take (length s - 1) s))

get_elem?-some :
    (i : ℕ) (s : Text)
    → i < length s
    → (c : ℕ) × ((get_elem? s i ≡ some c) × (drop i s ≡ c ∷ drop (suc i) s))
get_elem?-some i [] h = absurd (omega arith)
get_elem?-some zero (c ∷ s) h = (c, (refl, refl))
get_elem?-some (suc i) (c ∷ s) h = get_elem?-some i s (omega arith)

type_keys-presses :
    (n i : ℕ) (s t : Text) → i + n ≡ length s → type_keys (presses n i s) t ≡ t ++ drop i s
unfolding presses
type_keys-presses zero i s t e = rw (drop_all i s (omega arith), append-nil t)
type_keys-presses (suc n) i s t e =
    let (c, (at, rest)) = get_elem?-some i s (omega arith) in
    ap (λ o. type_keys (presses n (i + 1) s) (type_key (press o) t)) at
    ∙ type_keys-presses n (i + 1) s (t ++ (c ∷ [])) (omega arith)
    ∙ append_assoc t (c ∷ []) (drop (i + 1) s)
    ∙ ap (λ r. t ++ r) (sym (rest ∙ ap (λ k. c ∷ drop k s) (suc_add i)))

unit_eq_sound : (o p : Option ℕ) → unit_eq o p ≡ true → o ≡ p
unit_eq_sound none none h = refl
unit_eq_sound none (some d) h = ground arith
unit_eq_sound (some c) none h = ground arith
unit_eq_sound (some c) (some d) h = ground arith

take-suc :
    (i : ℕ) (s t : Text)
    → get_elem? s i ≡ get_elem? t i
    → take i s ≡ take i t
    → take (suc i) s ≡ take (suc i) t
take-suc i [] [] e h = refl
take-suc zero [] (d ∷ t) e h = absurd cc
take-suc (suc i) [] (d ∷ t) e h = cc
take-suc zero (c ∷ s) [] e h = absurd cc
take-suc (suc i) (c ∷ s) [] e h = absurd cc
take-suc zero (c ∷ s) (d ∷ t) e h = cc
take-suc (suc i) (c ∷ s) (d ∷ t) e h = let p : c ≡ d = cc in let q = take-suc i s t e cc in cc

-- The texts agree up to the position that the loop finds, or up to where it ends.
abbrev found : ℕ → Option ℕ → ℕ
found last none = last
found last (some i) = i

first_difference-agrees :
    (rounds i last : ℕ) (new old : Text)
    → i + rounds ≡ last
    → take i new ≡ take i old
    → let j = found last (first_difference rounds i new old) in
      (j ≤ last) × (take j new ≡ take j old)
unfolding first_difference
first_difference-agrees zero i last new old e h =
    (omega arith, take_at new (omega arith) ∙ h ∙ take_at old (omega arith))
first_difference-agrees (suc rounds) i last new old e h =
    elim (Bool-cases (unit_eq (get_elem? new i) (get_elem? old i))) [
      | inr u ↦ rw u (omega arith, h)
      | inl u ↦
          let same = take-suc i new old (unit_eq_sound (get_elem? new i) (get_elem? old i) u) h in
          rw u (
            first_difference-agrees rounds (i + 1) last new old (omega arith)
              (take_at new (sym (suc_add i)) ∙ same ∙ take_at old (suc_add i)))
    ]

-- What is erased and typed, by the position up to which the texts agree.
counts-found :
    (new_len old_len : ℕ) (o : Option ℕ)
    → let j = found (min old_len new_len) o in counts new_len old_len o ≡ (new_len - j, old_len - j)
counts-found new_len old_len (some i) = refl
counts-found new_len old_len none =
    let inputs : new_len - old_len ≡ new_len - min old_len new_len = omega arith in
    let erased : old_len - new_len ≡ old_len - min old_len new_len = omega arith in cc

keys_for-found :
    (new old : Text)
    → let j =
        found
          (min (length old) (length new))
          (first_difference (min (length old) (length new)) 0 new old) in
      keys_for (length new) new old
      ≡ keys_of_counts (length new) new (length new - j, length old - j)
unfolding keys_for count_keys
keys_for-found new old = ap (keys_of_counts (length new) new) (
    counts-found (length new) (length old)
      (first_difference (min (length old) (length new)) 0 new old))

-- The keys that a change of the input element sends turn the text that the server has into the new
-- one, whatever the two texts are, if the caret is not past the end of the new one.
pub keys_for-types : (new old : Text) → type_keys (keys_for (length new) new old) old ≡ new
keys_for-types new old =
    let j =
      found (min (length old) (length new))
        (first_difference (min (length old) (length new)) 0 new old) in
    let (bound, agree) =
      first_difference-agrees (min (length old) (length new)) 0 (min (length old) (length new)) new
        old (omega arith) refl in
    let erase = backspaces (length old - j) in
    let rest = length new - (length new - j) in
    ap (λ ks. type_keys ks old) (keys_for-found new old)
    ∙ type_keys-append erase (presses (length new - j) rest new) old
    ∙ type_keys-presses (length new - j) rest new (type_keys erase old) (omega (arith, bound))
    ∙ ap (λ t. t ++ drop rest new)
        (type_keys-backspaces (length old - j) old ∙ take_at old (omega (arith, bound)) ∙ sym agree)
    ∙ ap (λ k. take j new ++ drop k new) (omega (arith, bound))
    ∙ take-append-drop j new
