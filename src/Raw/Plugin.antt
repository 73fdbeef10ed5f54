-- ===== src/Raw/Plugin.antt =====
-- tracer/rpoint-cs/plugin/champsim_tracer.c: the plugin that writes raw traces.
pub mod Serial
pub mod State
pub mod Chunks
pub mod Callbacks
pub mod Over
pub mod Contents
pub mod Windows
