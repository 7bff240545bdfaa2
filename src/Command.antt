-- ===== src/Command.antt =====
-- src/exec and src/command: running commands of the shell, and reading what the user types.
pub mod Exec
pub mod Output
pub mod Input
pub mod Typed
pub mod Read
