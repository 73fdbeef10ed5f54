-- ===== src/Tracer/Tests.antt =====
-- Two threads under -use_markers, a thread that walks over three regions, and an instruction of five
-- source registers.
use champsim_infra.Prelude.{
  ℕ, ◌+◌, ◌-◌, ◌%◌, ◌≡◌, refl, true, false, none, List, [], ◌∷◌, ◌++◌, map, length, replicate, take,
  arith,
}
use champsim_infra.Trace.{InstrV2}
use champsim_infra.Tracer.State.{
  tracing, Knobs, SampleFile, Globals, ThreadState, no_instr, no_stores,
}
use champsim_infra.Tracer.Offsets.{validate_offsets}
use champsim_infra.Tracer.Offsets.Regions.{SeeksNext, finish_sample-SeeksNext}
use champsim_infra.Tracer.Phases.{roi_begin, finish_sample}
use champsim_infra.Tracer.Record.{Losses, Building}
use champsim_infra.Tracer.Record.Registers.{read_all, dropped, read_all-slots}
use champsim_infra.Tracer.Threads.{World, handle, thread_start, marker, check}
use champsim_infra.Tracer.Threads.Slots.{tracing_threads}
use champsim_infra.Tracer.Threads.Active.{booted, after, boot, Reachable-active}

-- A file is the records written since it was opened.
abbrev records_only : SampleFile
records_only = record {
  File = List InstrV2;
  none_open = [];
  open_file = λ path file. [];
  close = λ file. [];
  force_close = λ file. [];
  write = λ r file. file ++ r ∷ [];
}

abbrev with_markers : Knobs
with_markers = record {
  output_base = [];
  use_markers = true;
  main_thread_only = false;
  trace_tid = none;
  skip_master_tracing = false;
  trace_only_registered_workers = false;
  exit_on_done = true;
  initial_instrs = 0;
  inter_instrs = 0;
  trace_instructions = 10;
  num_samples = 1;
  offsets = [];
}

abbrev one_started : World with_markers records_only
one_started =
    handle with_markers records_only (thread_start 0 70) (boot with_markers records_only 2)

abbrev two_started : World with_markers records_only
two_started = handle with_markers records_only (thread_start 1 71) one_started

abbrev begun : World with_markers records_only
begun = handle with_markers records_only (marker 0 roi_begin) two_started

abbrev both_tracing : World with_markers records_only
both_tracing = handle with_markers records_only (check 1) begun

two_trace : both_tracing.globals.active_tracing_threads ≡ 2
unfolding handle
two_trace = refl

Reachable-active_example :
    both_tracing.globals.active_tracing_threads ≡ tracing_threads records_only both_tracing.threads
unfolding handle
Reachable-active_example = Reachable-active with_markers records_only 2 (omega arith) both_tracing (
    after (check 1) begun
      (after (marker 0 roi_begin) two_started
        (after (thread_start 1 71) one_started
          (after (thread_start 0 70) (boot with_markers records_only 2) booted (omega arith, refl))
          (omega arith, refl))
        refl)
      tt)

abbrev with_offsets : Knobs
with_offsets = record with_markers { use_markers = false; offsets = 5 ∷ 15 ∷ 40 ∷ [] }

abbrev idle_globals : Globals
idle_globals = (boot with_markers records_only 2).globals

abbrev second_region : ThreadState records_only
second_region = record {
  phase = tracing;
  counter = 0;
  samples_collected = 1;
  sample_limit = 3;
  file = [];
  base_name = [];
  os_tid = 70;
  is_master = false;
  is_registered_worker = false;
  curr_instr = no_instr;
  inter_sample_skip = 0;
  trace_per_sample = 10;
  pending_stores = no_stores;
  ever_started_tracing = true;
  ever_reached_done = false;
}

finish_sample-SeeksNext_example :
    SeeksNext with_offsets records_only 1
      (finish_sample with_offsets records_only (idle_globals, second_region))
unfolding validate_offsets
finish_sample-SeeksNext_example =
    finish_sample-SeeksNext with_offsets records_only idle_globals second_region refl refl refl
      (omega arith) (omega arith) (omega arith)

abbrev no_losses : Losses
no_losses = record {
  overflowed_src_memops = 0;
  overflowed_dst_memops = 0;
  missed_store_values = 0;
  call_store_values_filled = 0;
  truncated_values = 0;
  safecopy_short_reads = 0;
  scattered_instrs_seen = 0;
  scatter_missed_store_values = 0;
  dropped_src_regs = 0;
  dropped_dst_regs = 0;
  dropped_src_flags = 0;
  dropped_dst_flags = 0;
}

abbrev building : Building with_offsets records_only
building = (no_losses, second_region)

abbrev five : List ℕ
five = 3 ∷ 4 ∷ 5 ∷ 6 ∷ 25 ∷ []

read_all-slots_example :
    ((read_all with_offsets records_only five building).1.curr_instr.source_registers
      ≡ [] ++ (take 4 (map (λ r. r % 256) five) ++ replicate (4 - length five) 0))
    × (dropped with_offsets records_only (read_all with_offsets records_only five building).0
        ≡ dropped with_offsets records_only no_losses + (length five - 4))
read_all-slots_example =
    read_all-slots with_offsets records_only five building [] 4 refl refl tt
      (omega arith, (omega arith, (omega arith, (omega arith, (omega arith, tt))))) (omega arith)
