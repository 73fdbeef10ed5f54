-- ===== src/Raw/Filter.antt =====
-- trace_filter.c, which removes the idle loops of the guest's kernel from a raw trace.
pub mod Keep
pub mod Idle
pub mod Writer
pub mod Framing
pub mod Machine
pub mod Program
