-- ===== src/Ui.antt =====
-- The user interface: app/ui.js.
pub mod Status
pub mod Keyboard
pub mod Audio
pub mod Session
pub mod View
pub mod Fullscreen
pub mod Clipboard
pub mod Settings
pub mod Startup
pub mod ControlBar
pub mod Listeners
mod Tests
