-- ===== src/FileManager/Protocol/Actions.antt =====
-- The dialog of app/fileManager.js, seen from the protocol of uploads.
use docker_baseimage_gui.Prelude.{
  Bool, true, false, not, ◌&&◌, Option, none, some, ◌≡◌, refl, sym, subst, arith, if◌then◌else◌,
  inl, inr, Bool-cases,
}
use docker_baseimage_gui.Prelude.Text.{Text}
use docker_baseimage_gui.FileManager.Html.{unescape_html}
use docker_baseimage_gui.FileManager.Path.{is_empty, parent_path}
use docker_baseimage_gui.FileManager.State.{
  Request, list_dir, download, Action, rename_action, delete_action, create_action, State, send,
  ◌⨾◌,
}
use docker_baseimage_gui.FileManager.Upload.{download_file}
use docker_baseimage_gui.FileManager.Dialog.{
  navigate, go_up, FileAction, navigate_entry, download_entry, rename_entry, delete_entry, act_on,
  handle_confirm_action,
}
use docker_baseimage_gui.FileManager.Protocol.{is_aside}
use docker_baseimage_gui.FileManager.Protocol.Operations.{Typed, same-Typed, IsAlive, send-Typed}

-- A state that is well typed unless the handler threw.
abbrev pub Keeps : State → Type 0
Keeps t = t.threw ≡ false → Typed t

pub if-Keeps :
    (b : Bool) (x y : State)
    → (b ≡ true → Keeps x)
    → (b ≡ false → Keeps y)
    → Keeps (if b then x else y)
if-Keeps true x y k l = k refl
if-Keeps false x y k l = l refl

pub then-Keeps :
    (f g : State → State) (s : State)
    → Keeps (f s)
    → (Typed (f s) → Keeps (g (f s)))
    → Keeps ((f ⨾ g) s)
then-Keeps f g s k l calm = elim (Bool-cases (f s).threw) [
  | inl e ↦ ground arith
  | inr e ↦
      let later : (f ⨾ g) s ≡ g (f s) = ground (arith, e) in
      subst Typed (sym later) (l (k e) (subst (λ (t : State). t.threw ≡ false) later calm))
]

module _ (s : State) (v : Typed s) (alive : IsAlive s) where
  -- What changes neither the upload nor what was sent.
  pub same-Keeps : (t : State) → t.active_upload ≡ s.active_upload → t.sent ≡ s.sent → Keeps t
  same-Keeps t e f calm = same-Typed s t e f v

  pub send-Keeps : (r : Request) → is_aside r ≡ true → Keeps (send r s)
  send-Keeps r other calm = send-Typed s v r other alive calm

  pub go_up-Keeps : Keeps (go_up s)
  unfolding go_up navigate
  go_up-Keeps = on_path (parent_path s.current_path)
    where
      on_path : (o : Option Text) → Keeps (elim o [ none ↦ s | some path ↦ send (list_dir path) s ])
      on_path none calm = v
      on_path (some path) calm = send-Typed s v (list_dir path) refl alive calm

  pub act_on-Keeps :
      (a : FileAction) (name path : Text) (attrs : Text × Text) → Keeps (act_on a name path attrs s)
  unfolding act_on navigate download_file
  act_on-Keeps navigate_entry name path attrs = send-Keeps (list_dir path) refl
  act_on-Keeps download_entry name path attrs = on_download s.active_download
    where
      on_download :
          (o : Option Text)
          → Keeps (elim o [
            | some n ↦ s
            | none ↦ send (download path) (record s { active_download = some name })
          ])
      on_download none calm =
          send-Typed (record s { active_download = some name }) (same-Typed s _ refl refl v)
            (download path) refl alive calm
      on_download (some n) calm = v
  act_on-Keeps rename_entry name path attrs = same-Keeps _ refl refl
  act_on-Keeps delete_entry name path attrs = same-Keeps _ refl refl

  pub confirm-Keeps :
      (a : Action) (input : Text) (o : Option (Text × Text))
      → Keeps (handle_confirm_action a input o s)
  unfolding handle_confirm_action
  confirm-Keeps create_action input o =
      if-Keeps (is_empty input) s _ (λ e calm. v) (λ e. send-Keeps _ refl)
  confirm-Keeps rename_action input none = λ calm. v
  confirm-Keeps rename_action input (some attrs) =
      if-Keeps (not (is_empty (unescape_html attrs.1)) && not (is_empty input)) _ s
        (λ e. send-Keeps _ refl) (λ e calm. v)
  confirm-Keeps delete_action input none = λ calm. v
  confirm-Keeps delete_action input (some attrs) =
      if-Keeps (not (is_empty (unescape_html attrs.1))) _ s (λ e. send-Keeps _ refl) (λ e calm. v)
