-- ===== src/FileManager/State.antt =====
-- The variables of the module FileManager of app/fileManager.js, the state of its dialog, and the
-- messages that it exchanges with the server.
use docker_baseimage_gui.Prelude.{
  ℕ, Bool, true, false, Option, none, some, List, [], ◌∷◌, if◌then◌else◌,
}
use docker_baseimage_gui.Prelude.Text.{Text}
use docker_baseimage_gui.Browser.{Ready, connecting, opened, Browser, fresh}
use docker_baseimage_gui.FileManager.Html.{escape_html}

-- A `File` that the user chose: its name and its bytes.
pub record File : Type 0 where
  pub name : Text
  pub content : List ℕ

-- An object of class FileReaderModule: `filePos`, and the blob that is being read, if any. Its file
-- is the one that the upload has come to.
pub record Reader : Type 0 where
  pub file_pos : ℕ
  pub reading : Option (List ℕ)

-- The object `activeUpload`.
pub record Upload : Type 0 where
  pub dest_dir : Text
  pub files : List File
  pub total_files : ℕ
  pub files_processed : ℕ
  pub file_reader : Option Reader
  pub cur : ℕ
  pub tot : ℕ

-- What is sent to the server, by the field `type`.
pub data Request : Type 0 where
  list_dir delete create_folder cancel_upload download : Text → Request
  rename : Text → Text → Request
  upload : Text → ℕ → Request
  upload_block : Text → List ℕ → Request

-- An entry of a listing that the server sends.
pub record Entry : Type 0 where
  pub name : Text
  pub path : Text
  pub is_dir : Bool

-- The attributes that renderFileList writes for an entry.
pub record Row : Type 0 where
  pub is_dir_attr : Bool
  pub name_attr : Text
  pub path_attr : Text

pub data Action : Type 0 where
  rename_action delete_action create_action : Action

-- A popover: the action of its form, and the two attributes of the entry that it stands at.
pub record Popover : Type 0 where
  pub action : Action
  pub entry : Option (Text × Text)

pub data ModuleEvent : Type 0 where
  close enabled disabled : ModuleEvent

pub record State : Type 0 where
  pub browser : Browser
  pub open browser use *
  pub web_socket : Option ℕ
  pub web_socket_connected : Bool
  pub connect_timer : Option ℕ
  pub manager_opened : Bool
  pub current_path : Text
  pub active_upload : Option Upload
  pub active_download : Option Text
  pub active_popover : Option Popover
  pub upload_ui_reset_timer : Option ℕ
  -- The dialog: the rows, the alert as HTML, the buttons and the progress bar.
  pub rows : List Row
  pub go_up_disabled : Bool
  pub alert : Option Text
  pub upload_disabled : Bool
  pub progress_shown : Bool
  pub progress_value : ℕ
  -- The messages sent with their sockets, and the downloads begun (the identifier given by the
  -- server and the name), newest first.
  pub sent : List (ℕ × Request)
  pub downloads : List (Text × Text)
  -- The callbacks invoked, newest first.
  pub callbacks : List ModuleEvent
  -- The last handler ended by an exception.
  pub threw : Bool

-- The module's variables and its dialog once the page is loaded.
abbrev pub unloaded : State
unloaded = record {
  browser = fresh;
  web_socket = none;
  web_socket_connected = false;
  connect_timer = none;
  manager_opened = false;
  current_path = b'/' ∷ [];
  active_upload = none;
  active_download = none;
  active_popover = none;
  upload_ui_reset_timer = none;
  rows = [];
  go_up_disabled = false;
  alert = none;
  upload_disabled = false;
  progress_shown = false;
  progress_value = 0;
  sent = [];
  downloads = [];
  callbacks = [];
  threw = false;
}

-- Statement after statement: what follows a statement that throws is skipped.
infixl 5 ◌⨾◌
abbrev pub ◌⨾◌ : (State → State) → (State → State) → State → State
◌⨾◌ f g s = let t = f s in if t.threw then t else g t

abbrev pub throw : State → State
throw s = record s { threw = true }

-- `webSocket.send`: a throw on null and on a socket that is still connecting; on one that is closing
-- or closed the message is dropped.
abbrev pub send_on : Ready → ℕ → Request → State → State
send_on connecting i m s = throw s
send_on opened i m s = record s { sent = (i, m) ∷ s.sent }
send_on r i m s = s

unfoldable pub send : Request → State → State
send m s = elim s.web_socket [ none ↦ throw s | some i ↦ send_on (s.ready i) i m s ]

-- showError on a text, and clearError.
unfoldable pub show_error : Text → State → State
show_error message s = record s { alert = some (escape_html message) }

abbrev pub clear_error : State → State
clear_error s = record s { alert = none }

abbrev pub call_back : ModuleEvent → State → State
call_back e s = record s { callbacks = e ∷ s.callbacks }

-- Whether ftmgr_spinner is shown, by the callbacks that enableFileManager and disableFileManager of
-- app/ui.js are, the newest first; the page shows it.
abbrev pub spinner_shown : List ModuleEvent → Bool
spinner_shown [] = true
spinner_shown (close ∷ es) = spinner_shown es
spinner_shown (enabled ∷ es) = false
spinner_shown (disabled ∷ es) = true

abbrev pub discard_popover : State → State
discard_popover s = record s { active_popover = none }
