-- ===== src/Tests.antt =====
-- Runs of the models on concrete inputs.
mod Json
mod Annotation
mod Sync
mod Provider
mod Tui
mod Util
mod Session
mod Command
mod Repl
mod Config
mod Planner
mod Registry
mod Rounds
