-- ===== src/Ui/Listeners/Removal.antt =====
-- What removing one of the listeners of app/ui.js leaves.
use docker_baseimage_gui.Prelude.{
  Bool, true, false, ◌||◌, ◌&&◌, sym, ap, ◌∙◌, List, [], ◌∷◌, ◌++◌, if◌then◌else◌, ◌≡◌, refl, arith,
}
use docker_baseimage_gui.Prelude.Text.{Text, text_eq, text_eq_sound, text_eq_refl}
use docker_baseimage_gui.Ui.Listeners.{
  Handler, Listener, listens, name_of, same_name, same_listener, is_registered,
  remove_event_listener, called_on,
}

abbrev pub called : Listener → List Listener → List Handler
called l ls = called_on l.target l.kind l.capture ls

pub is_registered-append :
    (l : Listener) (ls ms : List Listener)
    → is_registered l (ls ++ ms) ≡ (is_registered l ls || is_registered l ms)
is_registered-append l [] ms = refl
is_registered-append l (m ∷ ls) ms = ground (arith, is_registered-append l ls ms)

-- One listener of a list is looked at.
registered-kept :
    (l m : Listener) (ls : List Listener) (b : Bool)
    → same_listener l m ≡ b
    → is_registered l (if b then ls else m ∷ ls) ≡ is_registered l ls
registered-kept l m ls true e = refl
registered-kept l m ls false e = ap (λ b. b || is_registered l ls) e

pub is_registered-remove :
    (l : Listener) (ls : List Listener) → is_registered l (remove_event_listener l ls) ≡ false
unfolding remove_event_listener
is_registered-remove l [] = refl
is_registered-remove l (m ∷ ls) =
    registered-kept l m (remove_event_listener l ls) (same_listener l m) refl
    ∙ is_registered-remove l ls

-- All that is called in the place of a listener is its handler.
unfoldable pub Alone : Handler → List Handler → Type 0
Alone h [] = h ≡ h
Alone h (j ∷ js) = (j ≡ h) × Alone h js

called-kept :
    (l m : Listener) (ls : List Listener) (n c : Bool)
    → (c ≡ true → n ≡ true)
    → listens l.target l.kind l.capture m ≡ c
    → called l (if n && c then ls else m ∷ ls) ≡ called l ls
unfolding called_on
called-kept l m ls true true h e = refl
called-kept l m ls false true h e = ground arith
called-kept l m ls true false h e = ap (λ b. if b then m.handler ∷ called l ls else called l ls) e
called-kept l m ls false false h e = ap (λ b. if b then m.handler ∷ called l ls else called l ls) e

handlers-Alone :
    (h j : Handler) (js : List Handler) (c : Bool)
    → Alone h (if c then j ∷ js else js)
    → (c ≡ true → j ≡ h) × Alone h js
unfolding Alone
handlers-Alone h j js true a = (λ e. a.0, a.1)
handlers-Alone h j js false a = (λ e. ground arith, a)

pub called-remove :
    (l : Listener) (ls : List Listener)
    → same_name (name_of l.handler) (name_of l.handler) ≡ true
    → Alone l.handler (called l ls)
    → called l (remove_event_listener l ls) ≡ []
unfolding remove_event_listener called_on
called-remove l [] n a = refl
called-remove l (m ∷ ls) n a =
    let c = listens l.target l.kind l.capture m in
    let b = handlers-Alone l.handler m.handler (called l ls) c a in
    called-kept l m (remove_event_listener l ls) (same_name (name_of l.handler) (name_of m.handler))
      c (λ e. ap (λ h. same_name (name_of l.handler) (name_of h)) (b.0 e) ∙ n) refl
    ∙ called-remove l ls n b.1

-- Two listeners that stand at different places: to remove the one leaves the other.
other-called :
    (m n : Listener) (ls ms : List Listener) (b : Bool)
    → (b ≡ true → listens m.target m.kind m.capture n ≡ false)
    → called m ls ≡ called m ms
    → called m (if b then ls else n ∷ ls) ≡ called m (n ∷ ms)
unfolding called_on
other-called m n ls ms true h e =
    e ∙ sym (ap (λ b. if b then n.handler ∷ called m ms else called m ms) (h refl))
other-called m n ls ms false h e =
    ap (λ r. if listens m.target m.kind m.capture n then n.handler ∷ r else r) e

and_false : (x y : Bool) → y ≡ false → (x && y) ≡ false
and_false true y e = e
and_false false y e = refl

other-registered :
    (m n : Listener) (ls ms : List Listener) (b : Bool)
    → (b ≡ true → same_listener m n ≡ false)
    → is_registered m ls ≡ is_registered m ms
    → is_registered m (if b then ls else n ∷ ls) ≡ is_registered m (n ∷ ms)
other-registered m n ls ms true h e = e ∙ sym (ap (λ b. b || is_registered m ms) (h refl))
other-registered m n ls ms false h e = ap (λ r. same_listener m n || r) e

module _ (l m : Listener)
    (apart : (n : Listener)
      → same_listener l n ≡ true
      → listens m.target m.kind m.capture n ≡ false) where
  pub called-remove_other :
      (ls : List Listener) → called m (remove_event_listener l ls) ≡ called m ls
  unfolding remove_event_listener
  called-remove_other [] = refl
  called-remove_other (n ∷ ls) =
      other-called m n _ ls (same_listener l n) (apart n) (called-remove_other ls)

  pub is_registered-remove_other :
      (ls : List Listener) → is_registered m (remove_event_listener l ls) ≡ is_registered m ls
  unfolding remove_event_listener
  is_registered-remove_other [] = refl
  is_registered-remove_other (n ∷ ls) =
      other-registered m n _ ls (same_listener l n) (λ e. and_false _ _ (apart n e))
        (is_registered-remove_other ls)

pub text_apart : (s t k : Text) → text_eq s t ≡ false → text_eq s k ≡ true → text_eq t k ≡ false
text_apart s t k a e = ground (arith, text_eq_sound s k, text_eq_sound t k, text_eq_refl s)
