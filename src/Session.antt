-- ===== src/Session.antt =====
-- src/session: conversations kept in files.
pub mod Store
pub mod Reload
