-- ===== src/Tracer.antt =====
-- tracer/pintool/pin/champsim_tracer_mt_roi_v3.cpp: the Pin tool that writes v2 traces.
pub mod Offsets
pub mod State
pub mod Phases
pub mod Record
pub mod Threads
mod Tests
