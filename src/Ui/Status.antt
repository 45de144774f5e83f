-- ===== src/Ui/Status.antt =====
-- The status bar: showStatus and hideStatus of app/ui.js.
use docker_baseimage_gui.Prelude.{
  ℕ, suc, ◌<◌, ◌≤◌, Bool, true, false, not, ◌&&◌, ◌||◌, Option, none, some, ◌==◌, if◌then◌else◌,
  ◌≡◌, ◌⊎◌, arith, [],
}
use docker_baseimage_gui.Prelude.Text.{Text}

-- The parameter `statusType`: 'error', 'warning' or 'warn', and everything else.
pub data StatusType : Type 0 where
  error warning normal : StatusType

-- The element noVNC_status with its classes, UI.statusTimeout, and the timers that hide the status.
pub record Status : Type 0 where
  pub shown : Bool
  pub has_error : Bool
  pub has_warn : Bool
  pub has_normal : Bool
  pub text : Text
  pub status_timeout : Option ℕ
  pub pending : ℕ → Bool
  pub timers : ℕ

abbrev pub initial : Status
initial = record {
  shown = false;
  has_error = false;
  has_warn = false;
  has_normal = false;
  text = [];
  status_timeout = none;
  pending = λ j. false;
  timers = 0;
}

abbrev pub clear_status_timeout : Status → Status
clear_status_timeout s = elim s.status_timeout [
  | none ↦ s
  | some j ↦ record s { pending = λ k. if k == j then false else s.pending k }
]

unfoldable pub set_class : StatusType → Status → Status
set_class error s = record s { has_warn = false; has_normal = false; has_error = true }
set_class warning s = record s { has_error = false; has_normal = false; has_warn = true }
set_class normal s = record s { has_error = false; has_warn = false; has_normal = true }

abbrev pub is_error : StatusType → Bool
is_error error = true
is_error t = false

abbrev pub is_normal : StatusType → Bool
is_normal normal = true
is_normal t = false

-- The two tests by which a status is dropped.
abbrev pub is_dropped : StatusType → Bool → Bool → Status → Bool
is_dropped type force ongoing_reconnect s =
    (not force && ongoing_reconnect)
    || (not force && (s.shown && (s.has_error || (s.has_warn && is_normal type))))

-- The flags are the parameter `force` and UI.ongoingReconnect. Errors get no timer.
unfoldable pub show_status : Text → StatusType → Bool → Bool → Status → Status
unfolding set_class
show_status text type force ongoing_reconnect s =
    let t = set_class type (clear_status_timeout s) in
    let u = record t { text = text; shown = true } in
    let v = record u {
      pending = λ k. if k == u.timers then true else u.pending k;
      status_timeout = some u.timers;
      timers = suc u.timers;
    } in
    if is_dropped type force ongoing_reconnect s then s else if is_error type then u else v

unfoldable pub hide_status : Status → Status
hide_status s = let t = clear_status_timeout s in record t { shown = false }

-- How severe the visible status is: 0 if there is none.
abbrev pub severity : Status → ℕ
severity s = if s.shown then (if s.has_error then 3 else if s.has_warn then 2 else 1) else 0

abbrev pub rank : StatusType → ℕ
rank error = 3
rank warning = 2
rank normal = 1

-- At most one of the three classes is set, and one if the status is visible.
pub record HasOneClass (s : Status) : Type 0 where
  pub error_alone : s.has_error ≡ true → (s.has_warn ≡ false) × (s.has_normal ≡ false)
  pub warn_alone : s.has_warn ≡ true → s.has_normal ≡ false
  pub some_class : s.shown ≡ true → (s.has_error || (s.has_warn || s.has_normal)) ≡ true

-- Showing a status of any kind keeps the status bar with at most one of its three classes, and with
-- one if it is visible.
pub show_status-HasOneClass :
    (text : Text) (type : StatusType) (force ongoing : Bool) (s : Status)
    → HasOneClass s
    → HasOneClass (show_status text type force ongoing s)
unfolding show_status
show_status-HasOneClass text type force ongoing s h = ground arith

-- A status that is not forced is shown exactly when no reconnection is going on and it is at least
-- as severe as the visible one, which is no error; otherwise nothing changes at all.
pub show_status-severity :
    (text : Text) (type : StatusType) (ongoing : Bool) (s : Status)
    → let t = show_status text type false ongoing s in
      (ongoing ≡ false
        → severity s ≤ rank type
        → severity s < 3
        → (severity t ≡ rank type) × (t.text ≡ text))
      × ((ongoing ≡ true) ⊎ ((severity s ≡ 3) ⊎ (rank type < severity s)) → t ≡ s)
unfolding show_status
show_status-severity text type ongoing s = ground arith

-- A timer that is pending is the one that the bar remembers.
abbrev pub Named : ℕ → Status → Type 0
Named j s = s.pending j ≡ true → s.status_timeout ≡ some j

pub show_status-Named :
    (text : Text) (type : StatusType) (force ongoing : Bool) (s : Status) (j : ℕ)
    → Named j s
    → Named j (show_status text type force ongoing s)
unfolding show_status
show_status-Named text type force ongoing s j h = ground arith

-- If every pending timer is the one that the status bar remembers, then after an error that is not
-- dropped the bar shows it and no timer is left that would hide it.
pub show_status-error_stays :
    (text : Text) (force ongoing : Bool) (s : Status)
    → ((j : ℕ) → Named j s)
    → is_dropped error force ongoing s ≡ false
    → let t = show_status text error force ongoing s in
      (severity t ≡ 3) × ((j : ℕ) → t.pending j ≡ false)
unfolding show_status
show_status-error_stays text force ongoing s h shown = (ground arith, λ j. ground (arith, h j))
