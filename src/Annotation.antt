-- ===== src/Annotation.antt =====
-- src/annotation/annotation.cpp: the tool annotations that a model's answer holds.
pub mod Block
pub mod Numbers
pub mod Actions
pub mod Parse
pub mod Strip
pub mod Total
pub mod Shift
pub mod Found
pub mod Runaway
pub mod Attr
pub mod RoundTrip
pub mod Repair
pub mod Repaired
