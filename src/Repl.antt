-- ===== src/Repl.antt =====
-- src/repl: the interactive mode, which asks the user before it applies what an answer proposes.
pub mod Console
pub mod Confirm
pub mod Diff
pub mod Apply
pub mod Files
pub mod Response
pub mod Consent
pub mod Changes
pub mod Consented
pub mod ReadOnly
pub mod History
pub mod Prompt
pub mod Chat
pub mod Turn
pub mod Interrupt
pub mod Chats
pub mod Reload
pub mod Base64
pub mod Panel
pub mod Options
pub mod Notes
pub mod Switch
pub mod Context
pub mod Commands
pub mod Loop
pub mod Session
pub mod Fits
pub mod Picked
pub mod Rated
pub mod ChatFiles
pub mod Agents
pub mod Review
pub mod Hosts
pub mod Providers
