-- ===== src/Json.antt =====
-- src/json/json.cpp: reading values out of a JSON text by key, and escaping strings for one.
pub mod Scan
pub mod Escape
pub mod Strings
pub mod Numbers
pub mod Braces
mod Hex
pub mod Reading
pub mod RoundTrip
pub mod Objects
