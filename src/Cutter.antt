-- ===== src/Cutter.antt =====
-- tools/trace_cutter/trace_cutter.cpp: splits a compressed trace into chunks of N records.
pub mod Codec
pub mod Writer
pub mod Args
pub mod Naming
pub mod Chunker
pub mod Program
pub mod Theorems
mod Tests
