-- ===== src/Tui.antt =====
-- src/tui: tables and the rendering of an answer while it arrives.
pub mod Table
pub mod Lines
pub mod Stream
pub mod Feed
pub mod Hidden
pub mod Streaming
pub mod Cells
pub mod Visible
pub mod Aligned
