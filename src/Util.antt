-- ===== src/Util.antt =====
-- src/util/util.cpp: encoding for URLs and the shell, colours, escape sequences and host names.
pub mod Encode
pub mod Resolve
pub mod Colors
pub mod Url
pub mod Ansi
pub mod Shell
