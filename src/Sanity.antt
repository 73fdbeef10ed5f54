-- ===== src/Sanity.antt =====
-- tools/trace_sanity_check/trace_sanity_check.cpp: walks a trace and checks it.
pub mod Args
pub mod Reader
pub mod Stats
pub mod Run
pub mod Checks
pub mod Program
mod Tests
