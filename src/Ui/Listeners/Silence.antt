-- ===== src/Ui/Listeners/Silence.antt =====
-- The listeners of app/ui.js that depend on the features are not called for the events on the control bar.
use docker_baseimage_gui.Prelude.{
  Bool, true, false, List, [], ◌∷◌, ◌++◌, map, if◌then◌else◌, ◌≡◌, refl, arith,
}
use docker_baseimage_gui.Prelude.Text.{Text}
use docker_baseimage_gui.Page.{Features}
use docker_baseimage_gui.Ui.Listeners.{Target, Handler, Listener, called_on, legs, route}
use docker_baseimage_gui.Ui.Listeners.Registered.{
  add_audio_handlers, add_file_manager_handlers, add_terminal_handlers, add_fullscreen_handlers,
  feature_listeners,
}
use docker_baseimage_gui.Ui.Listeners.Bar.{
  Gesture, mousedown, on_handle, on_bar, mouseup, mousemove, touchstart, touchend, touchmove,
  mouseleave_of_bar, keydown_on_bar, input_on_bar, resize_of_window, kind_of, path_of, bubbles,
}

pub called_on-append :
    (t : Target) (kind : Text) (capture : Bool) (ls ms : List Listener)
    → called_on t kind capture (ls ++ ms)
      ≡ called_on t kind capture ls ++ called_on t kind capture ms
unfolding called_on
called_on-append t kind capture [] ms = refl
called_on-append t kind capture (l ∷ ls) ms = ground (arith, called_on-append t kind capture ls ms)

-- Nothing is called, target by target.
abbrev pub silent : List (Target × Bool) → List (List Handler)
silent [] = []
silent (t ∷ ts) = [] ∷ silent ts

append-empty : {A : Type 0} (xs ys : List A) → xs ++ ys ≡ [] → (xs ≡ []) × (ys ≡ [])
append-empty [] ys h = (refl, h)
append-empty (x ∷ xs) ys h = ground arith

-- No listener of a list is called.
IsSilent : Text → List (Target × Bool) → List Listener → Type 0
IsSilent kind ts ls = map (λ t. called_on t.0 kind t.1 ls) ts ≡ silent ts

IsSilent-parts :
    (kind : Text) (ls ms : List Listener) (ts : List (Target × Bool))
    → IsSilent kind ts (ls ++ ms)
    → IsSilent kind ts ls × IsSilent kind ts ms
unfolding IsSilent
IsSilent-parts kind ls ms [] h = (refl, refl)
IsSilent-parts kind ls ms (t ∷ ts) h = ground (
  arith,
  called_on-append t.0 kind t.1 ls ms,
  append-empty (called_on t.0 kind t.1 ls) (called_on t.0 kind t.1 ms),
  IsSilent-parts kind ls ms ts,
)

IsSilent-append :
    (kind : Text) (ls ms : List Listener) (ts : List (Target × Bool))
    → IsSilent kind ts ls
    → IsSilent kind ts ms
    → IsSilent kind ts (ls ++ ms)
unfolding IsSilent
IsSilent-append kind ls ms [] h i = refl
IsSilent-append kind ls ms (t ∷ ts) h i =
    ground (arith, called_on-append t.0 kind t.1 ls ms, IsSilent-append kind ls ms ts)

IsSilent-nil : (kind : Text) (ts : List (Target × Bool)) → IsSilent kind ts []
unfolding IsSilent called_on
IsSilent-nil kind [] = refl
IsSilent-nil kind (t ∷ ts) = ground (arith, IsSilent-nil kind ts)

IsSilent-if :
    (kind : Text) (b : Bool) (ls : List Listener) (ts : List (Target × Bool))
    → IsSilent kind ts ls
    → IsSilent kind ts (if b then ls else [])
IsSilent-if kind true ls ts h = h
IsSilent-if kind false ls ts h = IsSilent-nil kind ts

-- The listeners of the features, where there are all.
abbrev audio_list : List Listener
audio_list = add_audio_handlers []

abbrev file_manager_list : List Listener
file_manager_list = add_file_manager_handlers []

abbrev terminal_list : List Listener
terminal_list = add_terminal_handlers []

abbrev fullscreen_list : List Listener
fullscreen_list = add_fullscreen_handlers []

feature_listeners-append :
    (k : Features) (can_fullscreen : Bool)
    → feature_listeners k can_fullscreen
      ≡ (if k.has_audio then audio_list else [])
        ++ ((if k.has_file_manager then file_manager_list else [])
            ++ ((if k.has_terminal then terminal_list else [])
                ++ (if can_fullscreen then fullscreen_list else [])))
unfolding feature_listeners
feature_listeners-append k can_fullscreen = ground arith

-- Where they are silent together, those that there are are silent.
feature_listeners-IsSilent :
    (k : Features) (can_fullscreen : Bool) (kind : Text) (ts : List (Target × Bool))
    → IsSilent kind ts (audio_list ++ (file_manager_list ++ (terminal_list ++ fullscreen_list)))
    → IsSilent kind ts (feature_listeners k can_fullscreen)
feature_listeners-IsSilent k can_fullscreen kind ts h =
    let a = IsSilent-parts kind audio_list _ ts h in
    let f = IsSilent-parts kind file_manager_list _ ts a.1 in
    let t = IsSilent-parts kind terminal_list fullscreen_list ts f.1 in
    rw (feature_listeners-append k can_fullscreen) (
      IsSilent-append kind _ _ ts (IsSilent-if kind k.has_audio audio_list ts a.0) (
        IsSilent-append kind _ _ ts (IsSilent-if kind k.has_file_manager file_manager_list ts f.0) (
          IsSilent-append kind _ _ ts (IsSilent-if kind k.has_terminal terminal_list ts t.0)
            (IsSilent-if kind can_fullscreen fullscreen_list ts t.1))))

abbrev is_of_window : Gesture → Bool
is_of_window resize_of_window = true
is_of_window g = false

features-IsSilent :
    (g : Gesture)
    → is_of_window g ≡ false
    → IsSilent
        (kind_of g)
        (legs (path_of g) (bubbles g))
        (audio_list ++ (file_manager_list ++ (terminal_list ++ fullscreen_list)))
unfolding IsSilent called_on add_audio_handlers add_file_manager_handlers add_terminal_handlers
    add_fullscreen_handlers
features-IsSilent (on_handle mousedown) n = refl
features-IsSilent (on_handle mouseup) n = refl
features-IsSilent (on_handle mousemove) n = refl
features-IsSilent (on_handle touchstart) n = refl
features-IsSilent (on_handle touchend) n = refl
features-IsSilent (on_handle touchmove) n = refl
features-IsSilent (on_bar mousedown) n = refl
features-IsSilent (on_bar mouseup) n = refl
features-IsSilent (on_bar mousemove) n = refl
features-IsSilent (on_bar touchstart) n = refl
features-IsSilent (on_bar touchend) n = refl
features-IsSilent (on_bar touchmove) n = refl
features-IsSilent mouseleave_of_bar n = refl
features-IsSilent keydown_on_bar n = refl
features-IsSilent input_on_bar n = refl
features-IsSilent resize_of_window n = ground arith

pub feature_listeners-silent :
    (k : Features) (can_fullscreen : Bool) (g : Gesture)
    → is_of_window g ≡ false
    → route (path_of g) (kind_of g) (bubbles g) (feature_listeners k can_fullscreen)
      ≡ silent (legs (path_of g) (bubbles g))
unfolding route IsSilent
feature_listeners-silent k can_fullscreen g n =
    feature_listeners-IsSilent k can_fullscreen (kind_of g) (legs (path_of g) (bubbles g))
      (features-IsSilent g n)
