-- ===== src/FileManager/Protocol/Typing.antt =====
-- Every event of app/fileManager.js keeps to the protocol of uploads.
use docker_baseimage_gui.Prelude.{
  ℕ, Bool, true, false, Option, none, some, List, [], ◌∷◌, ◌≡◌, refl, subst, ap, ◌∙◌, arith,
  get_elem?, take,
}
use docker_baseimage_gui.Browser.{
  Callback, opened, closed, may_open, may_close, may_receive, set_ready, clear_timeout,
}
use docker_baseimage_gui.FileManager.State.{
  File, Upload, State, unloaded, show_error, clear_error, discard_popover,
}
use docker_baseimage_gui.FileManager.Upload.{refresh}
use docker_baseimage_gui.FileManager.Connection.{disconnect, render_file_list, on_open, on_close}
use docker_baseimage_gui.FileManager.Dialog.{
  error_text, Context, upload_block_context, Answer, failure, listing, success,
  success_without_context, unknown, handle_message,
}
use docker_baseimage_gui.FileManager.Step.{
  Event, fire, handle, step, run, timer_fired, socket_opened, socket_closed, message_received,
  open_called, close_called, files_chosen, action_clicked, popover_submitted, popover_cancelled,
  upload_clicked, new_folder_clicked, go_up_clicked, cancel_clicked, refresh_clicked, block_read,
  read_failed,
}
use docker_baseimage_gui.FileManager.Invariant.{step-DialogInv, unloaded-DialogInv}
use docker_baseimage_gui.FileManager.Consistency.{DialogInv}
use docker_baseimage_gui.FileManager.Protocol.{Talk, silent, Talk-Begins, bytes_sent}
use docker_baseimage_gui.FileManager.Protocol.Operations.{
  position, stage_of, stage_found, Typed, same-Typed, IsAlive, block_read-Typed,
}
use docker_baseimage_gui.FileManager.Protocol.Endings.{cancelled-Typed}
use docker_baseimage_gui.FileManager.Protocol.Beginning.{has_sent_block}
use docker_baseimage_gui.FileManager.Protocol.Choice.{upload_files-Typed}
use docker_baseimage_gui.FileManager.Protocol.Actions.{
  Keeps, if-Keeps, same-Keeps, send-Keeps, go_up-Keeps,
}
use docker_baseimage_gui.FileManager.Protocol.Handlers.{
  clicked-Keeps, submitted-Keeps, opened-Keeps, connected-Keeps, closed-Keeps, failed-Keeps,
  refused-Keeps, succeeded-Keeps, fired-Keeps,
}

-- The server acknowledges a block once, after it was sent.
abbrev pub in_turn_context : Context → Option Upload → Bool
in_turn_context upload_block_context o = has_sent_block o
in_turn_context c o = true

abbrev pub in_turn_answer : Option Answer → Option Upload → Bool
in_turn_answer (some (success c uuid)) o = in_turn_context c o
in_turn_answer a o = true

abbrev pub in_turn : Event → Option Upload → Bool
in_turn (message_received i a) o = in_turn_answer a o
in_turn e o = true

module _ (s : State) (v : Typed s) (alive : IsAlive s) (before : s.threw ≡ false) where
  answered-Keeps :
      (a : Option Answer) → in_turn_answer a s.active_upload ≡ true → Keeps (handle_message a s)
  unfolding handle_message
  answered-Keeps none turn = λ calm. v
  answered-Keeps (some (failure error context)) turn =
      let t = show_error (error_text error context) s in
      refused-Keeps t (unfold show_error in same-Typed s t refl refl v) (unfold show_error in alive)
        (unfold show_error in before) context
  answered-Keeps (some (listing path files)) turn =
      same-Keeps s v alive _ (unfold render_file_list in refl) (unfold render_file_list in refl)
  answered-Keeps (some (success context uuid)) turn =
      let t = clear_error s in
      succeeded-Keeps t (same-Typed s t refl refl v) alive before context uuid
        (λ e. subst (λ c. in_turn_context c s.active_upload ≡ true) e turn)
  answered-Keeps (some success_without_context) turn = same-Keeps s v alive _ refl refl
  answered-Keeps (some unknown) turn = λ calm. v

  handle-Keeps : (e : Event) → in_turn e s.active_upload ≡ true → Keeps (handle e s)
  unfolding handle
  handle-Keeps open_called turn = opened-Keeps s v alive
  handle-Keeps close_called turn = closed-Keeps s v alive before
  handle-Keeps upload_clicked turn = same-Keeps s v alive _ refl refl
  handle-Keeps new_folder_clicked turn = same-Keeps s v alive _ refl refl
  handle-Keeps go_up_clicked turn =
      go_up-Keeps (discard_popover s) (same-Typed s _ refl refl v) alive
  handle-Keeps cancel_clicked turn = cancelled-Typed s v alive
  handle-Keeps refresh_clicked turn =
      unfold refresh in send-Keeps (discard_popover s) (same-Typed s _ refl refl v) alive _ refl
  handle-Keeps (files_chosen files) turn = upload_files-Typed files s v alive
  handle-Keeps (action_clicked action attrs) turn =
      clicked-Keeps (discard_popover s) (same-Typed s _ refl refl v) alive action attrs
  handle-Keeps (popover_submitted input) turn = submitted-Keeps s v alive input
  handle-Keeps popover_cancelled turn = same-Keeps s v alive _ refl refl
  handle-Keeps (socket_opened i) turn =
      let t = record s { browser = set_ready i opened s.browser } in
      if-Keeps (may_open (s.ready i)) (on_open t) s
        (λ e. connected-Keeps t (same-Typed s t refl refl v) (λ j held. ground (arith, alive j)))
        (λ e calm. v)
  handle-Keeps (socket_closed i) turn =
      let t = record s { browser = set_ready i closed s.browser } in
      if-Keeps (may_close (s.ready i)) (on_close t) s
        (λ e.
          unfold on_close in
          unfold disconnect in same-Keeps s v alive _ (ground arith) (ground arith))
        (λ e calm. v)
  handle-Keeps (message_received i a) turn =
      if-Keeps (may_receive (s.ready i)) (handle_message a s) s (λ e. answered-Keeps a turn)
        (λ e calm. v)
  handle-Keeps block_read turn = block_read-Typed s v alive
  handle-Keeps read_failed turn = failed-Keeps s v alive
  handle-Keeps (timer_fired j) turn = on_callback (s.pending j)
    where
      on_callback :
          (o : Option Callback)
          → Keeps (elim o [
            | none ↦ s
            | some callback ↦ fire callback (record s { browser = clear_timeout j s.browser })
          ])
      on_callback none = λ calm. v
      on_callback (some callback) =
          let t = record s { browser = clear_timeout j s.browser } in
          fired-Keeps t (same-Typed s t refl refl v) alive callback

-- A run in which every acknowledgement comes in turn and no handler throws.
abbrev pub Orderly : List Event → State → Type 0
Orderly [] s = Unit
Orderly (e ∷ es) s =
    (in_turn e s.active_upload ≡ true) × ((step e s).threw ≡ false) × Orderly es (step e s)

step-Typed :
    (e : Event) (s : State)
    → Typed s
    → ((i j : ℕ) → DialogInv i j s)
    → in_turn e s.active_upload ≡ true
    → (step e s).threw ≡ false
    → Typed (step e s)
unfolding step
step-Typed e s v inv turn calm =
    let t = record s { threw = false } in
    handle-Keeps t (same-Typed s t refl refl v) (λ i. (inv i 0).alive) refl e turn calm

run-Typed :
    (es : List Event) (s : State)
    → Typed s
    → ((i j : ℕ) → DialogInv i j s)
    → Orderly es s
    → Typed (run es s)
unfolding run
run-Typed [] s v inv h = v
run-Typed (e ∷ es) s v inv (turn, calm, rest) =
    run-Typed es (step e s) (step-Typed e s v inv turn calm) (step-DialogInv e s inv) rest

unloaded-Typed : Typed unloaded
unloaded-Typed = record { talk = silent; sound = tt }

begins-bytes_sent :
    (s : State) (u : Upload) (file : File)
    → Talk (stage_of s.active_upload) s.sent
    → s.active_upload ≡ some u
    → get_elem? u.files u.files_processed ≡ some file
    → bytes_sent s.sent ≡ take (position u.file_reader) file.content
begins-bytes_sent s u file talk active found =
    Talk-Begins (subst (λ g. Talk g s.sent) (ap stage_of active ∙ stage_found u file found) talk)
      file found

-- Whatever the user, the server and the network do after the page is loaded, as long as no handler
-- throws and the server acknowledges each block once, after it was sent: what was sent is a conversation
-- of the protocol of uploads, which has come to where the upload of the module is; and of a file that
-- goes on, the bytes that were sent since its request are those that it holds before the position of its
-- reader.
pub run-unloaded-Talk :
    (es : List Event)
    → Orderly es unloaded
    → let t = run es unloaded in
      Talk (stage_of t.active_upload) t.sent
      × ((u : Upload) (file : File)
          → t.active_upload ≡ some u
          → get_elem? u.files u.files_processed ≡ some file
          → bytes_sent t.sent ≡ take (position u.file_reader) file.content)
run-unloaded-Talk es h =
    let v = run-Typed es unloaded unloaded-Typed unloaded-DialogInv h in
    (v.talk, λ u file active found. begins-bytes_sent (run es unloaded) u file v.talk active found)
