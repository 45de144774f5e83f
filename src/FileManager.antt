-- ===== src/FileManager.antt =====
-- The file manager (app/fileManager.js).
pub mod Html
pub mod Path
pub mod State
pub mod Connection
pub mod Upload
pub mod Dialog
pub mod Step
pub mod Frame
pub mod Consistency
pub mod Invariant
pub mod Entries
pub mod Closing
pub mod Protocol
pub mod Late
mod Tests
