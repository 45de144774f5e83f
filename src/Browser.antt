-- ===== src/Browser.antt =====
-- The part of the browser that the services use: WebSocket objects, numbered in the order of their
-- construction, and the timers of setTimeout, numbered likewise.
use docker_baseimage_gui.Prelude.{
  ℕ, suc, Bool, true, false, Option, none, some, ◌==◌, if◌then◌else◌,
}

-- `unborn`: no such object was constructed yet. The others are the values of `readyState`.
pub data Ready : Type 0 where
  unborn connecting opened closing closed : Ready

-- The functions that the services pass to setTimeout.
pub data Callback : Type 0 where
  connect_web_socket reset_upload_ui : Callback

pub record Browser : Type 0 where
  pub ready : ℕ → Ready
  pub sockets : ℕ
  pub pending : ℕ → Option Callback
  pub timers : ℕ

abbrev pub update {ℓ} : {A : Type ℓ} → (ℕ → A) → ℕ → A → ℕ → A
update f k v j = if j == k then v else f j

abbrev pub fresh : Browser
fresh = record { ready = λ i. unborn; sockets = 0; pending = λ j. none; timers = 0 }

-- `new WebSocket(url)`: the number of the new object is `b.sockets`.
abbrev pub new_socket : Browser → Browser
new_socket b = record b { ready = update b.ready b.sockets connecting; sockets = suc b.sockets }

abbrev pub after_close : Ready → Ready
after_close connecting = closing
after_close opened = closing
after_close r = r

-- `close()`
abbrev pub close_socket : ℕ → Browser → Browser
close_socket i b = record b { ready = update b.ready i (after_close (b.ready i)) }

-- `setTimeout(callback, …)`: the number of the new timer is `b.timers`.
abbrev pub set_timeout : Callback → Browser → Browser
set_timeout callback b = record b {
  pending = update b.pending b.timers (some callback);
  timers = suc b.timers;
}

abbrev pub clear_timeout : ℕ → Browser → Browser
clear_timeout j b = record b { pending = update b.pending j none }

-- A socket that still carries messages or is about to.
abbrev pub is_live : Ready → Bool
is_live connecting = true
is_live opened = true
is_live r = false

-- When the browser may deliver the events `open`, `message` and `close` of a socket.
abbrev pub may_open : Ready → Bool
may_open connecting = true
may_open r = false

abbrev pub may_receive : Ready → Bool
may_receive opened = true
may_receive r = false

abbrev pub may_close : Ready → Bool
may_close unborn = false
may_close closed = false
may_close r = true

abbrev pub set_ready : ℕ → Ready → Browser → Browser
set_ready i r b = record b { ready = update b.ready i r }

abbrev pub is_pending : Option Callback → Bool
is_pending none = false
is_pending (some callback) = true
