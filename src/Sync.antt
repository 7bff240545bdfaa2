-- ===== src/Sync.antt =====
-- src/sync: sync mode, which applies what an answer asks for without a user's confirmation.
pub mod Caps
pub mod ReadOnly
pub mod Paths
pub mod Tags
pub mod Lines
pub mod Editing
pub mod Process
pub mod Safety
pub mod Commands
pub mod Granted
