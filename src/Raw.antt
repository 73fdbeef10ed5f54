-- ===== src/Raw.antt =====
-- tracer/rpoint-cs: the QEMU plugin that writes raw traces, the filter that takes the idle loops out
-- of them, and the converter that makes v2 traces of them.
pub mod Bytes
pub mod Record
pub mod Zstd
pub mod Plugin
pub mod Convert
pub mod Filter
pub mod Pipeline
mod Tests
