-- ===== src/Tracer/State.antt =====
-- The phases, `ThreadState`, the global counters and flags and the knobs of
-- tracer/pintool/pin/champsim_tracer_mt_roi_v3.cpp. A callback of Pin is a step on the globals and
-- the state of one thread; an atomic variable changes as the one read-modify-write does.
use champsim_infra.Prelude.{
  ℕ, ◌+◌, ◌-◌, ◌%◌, ◌^◌, Bool, true, false, Option, none, List, [], ◌++◌, replicate, if◌then◌else◌,
  codes, decimal,
}
use champsim_infra.Trace.{InstrV2}

pub data Phase : Type 0 where
  waiting_for_roi initial_skip tracing inter_skip finished : Phase

abbrev pub is_waiting : Phase → Bool
is_waiting waiting_for_roi = true
is_waiting initial_skip = false
is_waiting tracing = false
is_waiting inter_skip = false
is_waiting finished = false

abbrev pub is_initial : Phase → Bool
is_initial waiting_for_roi = false
is_initial initial_skip = true
is_initial tracing = false
is_initial inter_skip = false
is_initial finished = false

abbrev pub is_tracing : Phase → Bool
is_tracing waiting_for_roi = false
is_tracing initial_skip = false
is_tracing tracing = true
is_tracing inter_skip = false
is_tracing finished = false

abbrev pub is_inter : Phase → Bool
is_inter waiting_for_roi = false
is_inter initial_skip = false
is_inter tracing = false
is_inter inter_skip = true
is_inter finished = false

abbrev pub is_finished : Phase → Bool
is_finished waiting_for_roi = false
is_finished initial_skip = false
is_finished tracing = false
is_finished inter_skip = false
is_finished finished = true

-- The command line. A `trace_tid` of `none` is a negative one.
pub record Knobs : Type 0 where
  pub output_base : List ℕ
  pub use_markers : Bool
  pub main_thread_only : Bool
  pub trace_tid : Option ℕ
  pub skip_master_tracing : Bool
  pub trace_only_registered_workers : Bool
  pub exit_on_done : Bool
  pub initial_instrs : ℕ
  pub inter_instrs : ℕ
  pub trace_instructions : ℕ
  pub num_samples : ℕ
  pub offsets : List ℕ

-- The compressed output of a thread: what `open_next_sample`, `close_sample`, `force_close` and
-- `compress_write` do to `fp`, `zstd_ctx` and `out_buf`.
pub record SampleFile : Type 1 where
  pub File : Type 0
  pub none_open : File
  pub open_file : List ℕ → File → File
  pub close : File → File
  pub force_close : File → File
  pub write : InstrV2 → File → File

-- `pending_store_slot`, `_addr` and `_size` of an operand; `none` is the slot -1.
pub record Pending : Type 0 where
  pub slot : Option ℕ
  pub addr : ℕ
  pub size : ℕ

abbrev pub max_write_ops : ℕ
max_write_ops = 8

abbrev pub no_stores : List Pending
no_stores = replicate max_write_ops (record { slot = none; addr = 0; size = 0 })

-- `reset_instr`.
abbrev pub no_instr : InstrV2
no_instr = record {
  base = record {
    ip = 0;
    is_branch = 0;
    branch_taken = 0;
    destination_registers = replicate 2 0;
    source_registers = replicate 4 0;
    destination_memory = replicate 2 0;
    source_memory = replicate 4 0;
  };
  destination_memory_pa = replicate 2 0;
  source_memory_pa = replicate 4 0;
  source_memory_size = replicate 4 0;
  destination_memory_size = replicate 2 0;
  privilege = 0;
  instr_type = 0;
  reserved = replicate 8 0;
  source_memory_value = replicate 4 (replicate 64 0);
  destination_memory_value = replicate 2 (replicate 64 0);
}

-- The atomics. `active_tracing_threads` is an int, kept modulo 2 ^ 32; `invalidations` counts the
-- calls of PIN_RemoveInstrumentation, and `exits` those of PIN_ExitApplication.
pub record Globals : Type 0 where
  pub active_tracing_threads : ℕ
  pub roi_started : Bool
  pub roi_ended : Bool
  pub threads_started_tracing : ℕ
  pub threads_reached_done : ℕ
  pub exit_triggered : Bool
  pub exits : ℕ
  pub invalidations : ℕ

abbrev pub up : ℕ → ℕ
up n = (n + 1) % 2 ^ 32

abbrev pub down : ℕ → ℕ
down n = (n + (2 ^ 32 - 1)) % 2 ^ 32

module _ (f : SampleFile) where
  pub record ThreadState : Type 0 where
    pub phase : Phase
    pub counter : ℕ
    pub samples_collected : ℕ
    pub sample_limit : ℕ
    pub file : f.File
    pub base_name : List ℕ
    pub os_tid : ℕ
    pub is_master : Bool
    pub is_registered_worker : Bool
    pub curr_instr : InstrV2
    pub inter_sample_skip : ℕ
    pub trace_per_sample : ℕ
    pub pending_stores : List Pending
    pub ever_started_tracing : Bool
    pub ever_reached_done : Bool

  abbrev pub sample_filename : ThreadState → List ℕ
  sample_filename t =
      t.base_name
      ++ codes "_t"
      ++ decimal 20 t.os_tid
      ++ (if t.is_master then codes "_master" else [])
      ++ codes "_s"
      ++ decimal 20 t.samples_collected
      ++ codes ".champsim2.zst"

  abbrev pub open_next_sample : ThreadState → ThreadState
  open_next_sample t = record t { file = f.open_file (sample_filename t) t.file }
