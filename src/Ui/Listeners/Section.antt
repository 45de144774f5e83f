-- ===== src/Ui/Listeners/Section.antt =====
-- The listeners of the clipboard section of app/ui.js, which updateClipboard adds and removes again and
-- again.
use docker_baseimage_gui.Prelude.{
  Bool, true, false, ◌||◌, Bool-cases, inl, inr, append-nil, ◌∙◌, List, [], ◌∷◌, if◌then◌else◌, ◌≡◌,
  refl, arith,
}
use docker_baseimage_gui.Prelude.Text.{codes, text_eq}
use docker_baseimage_gui.Page.{Features}
use docker_baseimage_gui.Ui.Clipboard.{Clipboard}
use docker_baseimage_gui.Ui.Clipboard
use docker_baseimage_gui.Ui.Listeners.{
  element, clipboard_send, clipboard_clear, Listener, listens, name_of, same_name, same_listener,
  is_registered, add_event_listener, remove_event_listener, called_on, on,
}
use docker_baseimage_gui.Ui.Listeners.Registered.{
  add_clipboard_handlers, remove_clipboard_handlers, start_listeners,
}
use docker_baseimage_gui.Ui.Listeners.Silence.{called_on-append}
use docker_baseimage_gui.Ui.Listeners.Removal.{
  called, is_registered-append, is_registered-remove, Alone, called-remove, called-remove_other,
  is_registered-remove_other, text_apart,
}

abbrev send_listener : Listener
send_listener = on "noVNC_clipboard_text" "change" clipboard_send

abbrev clear_listener : Listener
clear_listener = on "noVNC_clipboard_clear_button" "click" clipboard_clear

-- A listener is registered, and is all that is called at its place, or nothing is called there.
record IsOnly (l : Listener) (b : Bool) (ls : List Listener) : Type 0 where
  registered : is_registered l ls ≡ b
  alone : called l ls ≡ (if b then l.handler ∷ [] else [])

send_apart :
    (n : Listener)
    → same_listener send_listener n ≡ true
    → listens clear_listener.target clear_listener.kind false n ≡ false
unfolding text_eq
send_apart n e = ground (arith, text_apart (codes "change") (codes "click") n.kind refl)

clear_apart :
    (n : Listener)
    → same_listener clear_listener n ≡ true
    → listens send_listener.target send_listener.kind false n ≡ false
unfolding text_eq
clear_apart n e = ground (arith, text_apart (codes "click") (codes "change") n.kind refl)

-- Both are registered, or neither is.
record SectionInv (b : Bool) (ls : List Listener) : Type 0 where
  send : IsOnly send_listener b ls
  clear : IsOnly clear_listener b ls

start-SectionInv :
    (k : Features) (can_fullscreen : Bool) → SectionInv true (start_listeners k can_fullscreen)
unfolding start_listeners called_on
start-SectionInv k can_fullscreen = record {
  send = record { registered = ground arith; alone = ground arith };
  clear = record { registered = ground arith; alone = ground arith };
}

add-IsOnly :
    (l : Listener) (b : Bool) (ls : List Listener)
    → same_listener l l ≡ true
    → listens l.target l.kind l.capture l ≡ true
    → IsOnly l b ls
    → IsOnly l true (add_event_listener l ls)
unfolding add_event_listener called_on
add-IsOnly l true ls e f v = record {
  registered = rw v.registered v.registered;
  alone = rw v.registered v.alone;
}
add-IsOnly l false ls e f v = record {
  registered = rw (v.registered, is_registered-append l ls (l ∷ []), v.registered, e) refl;
  alone =
      rw (v.registered, called_on-append l.target l.kind l.capture ls (l ∷ []), v.alone, f) refl;
}

or_false : (b : Bool) → (b || false) ≡ b
or_false true = refl
or_false false = refl

-- Another listener is added.
add-other :
    (l m : Listener) (b : Bool) (ls : List Listener)
    → same_listener m l ≡ false
    → listens m.target m.kind m.capture l ≡ false
    → IsOnly m b ls
    → IsOnly m b (add_event_listener l ls)
unfolding add_event_listener called_on
add-other l m b ls e f v = elim (Bool-cases (is_registered l ls)) [
  | inl r ↦ rw r v
  | inr r ↦ record {
    registered =
        rw (r, is_registered-append m ls (l ∷ []), e)
          (or_false (is_registered m ls) ∙ v.registered);
    alone =
        rw (r, called_on-append m.target m.kind m.capture ls (l ∷ []), f)
          (append-nil (called m ls) ∙ v.alone);
  }
]

IsOnly-Alone :
    (l : Listener) (b : Bool) (ls : List Listener) → IsOnly l b ls → Alone l.handler (called l ls)
unfolding Alone
IsOnly-Alone l true ls v = rw v.alone (refl, refl)
IsOnly-Alone l false ls v = rw v.alone refl

remove-IsOnly :
    (l : Listener) (b : Bool) (ls : List Listener)
    → same_name (name_of l.handler) (name_of l.handler) ≡ true
    → IsOnly l b ls
    → IsOnly l false (remove_event_listener l ls)
remove-IsOnly l b ls n v = record {
  registered = is_registered-remove l ls;
  alone = called-remove l ls n (IsOnly-Alone l b ls v);
}

add-SectionInv :
    (b : Bool) (ls : List Listener) → SectionInv b ls → SectionInv true (add_clipboard_handlers ls)
unfolding add_clipboard_handlers text_eq
add-SectionInv b ls v = record {
  send =
      add-other clear_listener send_listener true _ refl refl
        (add-IsOnly send_listener b ls refl refl v.send);
  clear =
      add-IsOnly clear_listener b _ refl refl
        (add-other send_listener clear_listener b ls refl refl v.clear);
}

remove-SectionInv :
    (b : Bool) (ls : List Listener)
    → SectionInv b ls
    → SectionInv false (remove_clipboard_handlers ls)
unfolding remove_clipboard_handlers
remove-SectionInv b ls v =
    let rest = remove_event_listener send_listener ls in
    let s = remove-IsOnly send_listener b ls refl v.send in
    record {
      send = record {
        registered =
            is_registered-remove_other clear_listener send_listener clear_apart rest ∙ s.registered;
        alone = called-remove_other clear_listener send_listener clear_apart rest ∙ s.alone;
      };
      clear = remove-IsOnly clear_listener b rest refl (record {
        registered =
            is_registered-remove_other send_listener clear_listener send_apart ls
            ∙ v.clear.registered;
        alone = called-remove_other send_listener clear_listener send_apart ls ∙ v.clear.alone;
      });
    }

-- What updateClipboard does of the two: it adds the listeners or removes them.
pub data Call : Type 0 where
  adds removes : Call

unfoldable pub registered_after : List Call → List Listener → List Listener
unfolding add_clipboard_handlers remove_clipboard_handlers
registered_after [] ls = ls
registered_after (adds ∷ cs) ls = registered_after cs (add_clipboard_handlers ls)
registered_after (removes ∷ cs) ls = registered_after cs (remove_clipboard_handlers ls)

unfoldable pub followed : List Call → Clipboard → Clipboard
followed [] s = s
followed (adds ∷ cs) s = followed cs (Clipboard.add_clipboard_handlers s)
followed (removes ∷ cs) s = followed cs (Clipboard.remove_clipboard_handlers s)

registered_after-SectionInv :
    (cs : List Call) (ls : List Listener) (s : Clipboard)
    → SectionInv s.has_handlers ls
    → SectionInv (followed cs s).has_handlers (registered_after cs ls)
unfolding followed registered_after
registered_after-SectionInv [] ls s v = v
registered_after-SectionInv (adds ∷ cs) ls s v =
    registered_after-SectionInv cs _ (Clipboard.add_clipboard_handlers s)
      (add-SectionInv s.has_handlers ls v)
registered_after-SectionInv (removes ∷ cs) ls s v =
    registered_after-SectionInv cs _ (Clipboard.remove_clipboard_handlers s)
      (remove-SectionInv s.has_handlers ls v)

-- Whatever services there are, however often and in whatever order updateClipboard adds and removes the
-- listeners of the clipboard after start: a change of the text calls clipboardSend once, and a click on
-- the button clipboardClear once, while the model of the clipboard has its handlers, and neither is
-- called otherwise.
pub registered_after-has_handlers :
    (k : Features) (can_fullscreen host_clipboard_sync setting : Bool) (cs : List Call)
    → let ls = registered_after cs (start_listeners k can_fullscreen) in
      let b = (followed cs (Clipboard.loaded host_clipboard_sync setting)).has_handlers in
      (called_on (element (codes "noVNC_clipboard_text")) (codes "change") false ls
        ≡ (if b then clipboard_send ∷ [] else []))
      × (called_on (element (codes "noVNC_clipboard_clear_button")) (codes "click") false ls
          ≡ (if b then clipboard_clear ∷ [] else []))
unfolding Clipboard.loaded
registered_after-has_handlers k can_fullscreen host_clipboard_sync setting cs =
    let v =
      registered_after-SectionInv cs _ (Clipboard.loaded host_clipboard_sync setting)
        (start-SectionInv k can_fullscreen) in
    (v.send.alone, v.clear.alone)
