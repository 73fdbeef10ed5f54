-- ===== src/Raw/Convert.antt =====
-- tracer/rpoint-cs/converter/raw2champsim.c: raw records to v2 records.
pub mod Parse
pub mod Build
pub mod Writer
pub mod Layout
pub mod Sound
pub mod Program
