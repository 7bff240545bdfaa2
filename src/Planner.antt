-- ===== src/Planner.antt =====
-- src/planner/planner.cpp: how complex a prompt is, and where it goes.
pub mod Classify
pub mod Route
