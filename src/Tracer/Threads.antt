-- ===== src/Tracer/Threads.antt =====
-- The registry of threads: `ThreadStart`, `ThreadFini`, and the callbacks on a thread of it.
pub mod Callbacks
pub mod Slots
pub mod Tally
pub mod Active
use champsim_infra.Prelude.{
  ℕ, zero, suc, ◌+◌, ◌%◌, ◌^◌, ◌&&◌, not, Bool, true, false, Option, none, some, List, [], ◌∷◌,
  length, set, get_or, ltb, ◌==◌, is_empty, if◌then◌else◌,
}
use champsim_infra.Tracer.State.{
  Phase, waiting_for_roi, initial_skip, tracing, is_tracing, Knobs, SampleFile, Globals,
  ThreadState, open_next_sample, up, down, no_instr, no_stores,
}
use champsim_infra.Tracer.Phases.{
  Marker, mark_started_tracing, invalidate, handle_marker, handle_marker_untracked,
  check_roi_transition, fast_forward_initial, fast_forward_inter,
}
use champsim_infra.Tracer.Record.{record_instr_commit}

-- What Pin calls, with the thread's number; a start has the OS's number of the thread too.
pub data Event : Type 0 where
  thread_start : ℕ → ℕ → Event
  thread_fini : ℕ → Event
  marker : ℕ → Marker → Event
  check : ℕ → Event
  skip_initial skip_inter : ℕ → ℕ → Event
  commit : ℕ → ℕ → ℕ → ℕ → ℕ → ℕ → Event

module _ (k : Knobs) (f : SampleFile) where
  pub record World : Type 0 where
    pub globals : Globals
    pub main_thread_id : Option ℕ
    pub threads : List (Option (ThreadState f))

  -- Where a new thread starts.
  abbrev pub starting : Bool → Phase × ℕ
  starting roi_already_started =
      if k.use_markers
      then (if roi_already_started then (tracing, k.trace_instructions) else (waiting_for_roi, 0))
      else if not (is_empty k.offsets)
      then (if ltb 0 (get_or k.offsets 0 0)
          then (initial_skip, get_or k.offsets 0 0)
          else (tracing, k.trace_instructions))
      else if ltb 0 k.initial_instrs
      then (initial_skip, k.initial_instrs)
      else (tracing, k.trace_instructions)

  abbrev pub sample_limit : ℕ
  sample_limit =
      if not k.use_markers && not (is_empty k.offsets) then length k.offsets else k.num_samples

  -- The constructor.
  abbrev pub new_thread : ℕ → Phase × ℕ → ThreadState f
  new_thread os_tid (phase, counter) =
      let t : ThreadState f = record {
        phase = phase;
        counter = counter;
        samples_collected = 0;
        sample_limit = sample_limit;
        file = f.none_open;
        base_name = k.output_base;
        os_tid = os_tid;
        is_master = false;
        is_registered_worker = false;
        curr_instr = no_instr;
        inter_sample_skip = k.inter_instrs;
        trace_per_sample = k.trace_instructions;
        pending_stores = no_stores;
        ever_started_tracing = false;
        ever_reached_done = false;
      } in
      if is_tracing phase then open_next_sample f t else t

  -- The end of `ThreadStart`.
  abbrev pub started : Globals → ThreadState f → Globals × ThreadState f
  started g t =
      if is_tracing t.phase
      then (let (g', t') =
            mark_started_tracing k f
              (record g { active_tracing_threads = up g.active_tracing_threads }, t) in
          (invalidate k f g', t'))
      else (g, t)

  abbrev pub is_traced_tid : Option ℕ → ℕ → Bool
  is_traced_tid none tid = true
  is_traced_tid (some n) tid = tid == n

  abbrev pub register : ℕ → World → Globals × ThreadState f → World
  register tid w (g, t) = record w { globals = g; threads = set w.threads tid (some t) }

  unfoldable pub start_thread : ℕ → ℕ → World → World
  start_thread tid os_tid w =
      let main : ℕ = elim w.main_thread_id [ none ↦ tid | some m ↦ m ] in
      let w' = record w { main_thread_id = some main } in
      if k.main_thread_only && not (tid == main)
      then w'
      else if not (is_traced_tid k.trace_tid tid)
      then w'
      else register tid w' (started w.globals (new_thread os_tid (starting w.globals.roi_started)))

  unfoldable pub finish_thread : ℕ → World → World
  finish_thread tid w = elim (get_or w.threads tid none) [
    | none ↦ record w { threads = set w.threads tid none }
    | some t ↦ record w {
      globals =
          if is_tracing t.phase
          then record (w.globals) { active_tracing_threads = down w.globals.active_tracing_threads }
          else w.globals;
      threads = set w.threads tid none;
    }
  ]

  -- A callback on a thread that has a state.
  abbrev pub on_thread : ℕ → (Globals × ThreadState f → Globals × ThreadState f) → World → World
  on_thread tid callback w = elim (get_or w.threads tid none) [
    | none ↦ w
    | some t ↦ register tid w (callback (w.globals, t))
  ]

  unfoldable pub handle : Event → World → World
  unfolding start_thread finish_thread handle_marker handle_marker_untracked check_roi_transition
      fast_forward_initial fast_forward_inter record_instr_commit
  handle (thread_start tid os_tid) w = start_thread tid os_tid w
  handle (thread_fini tid) w = finish_thread tid w
  handle (marker tid m) w = elim (get_or w.threads tid none) [
    | none ↦ record w { globals = handle_marker_untracked k f m w.globals }
    | some t ↦ register tid w (handle_marker k f m (w.globals, t))
  ]
  handle (check tid) w = on_thread tid (check_roi_transition k f) w
  handle (skip_initial tid n) w = on_thread tid (fast_forward_initial k f n) w
  handle (skip_inter tid n) w = on_thread tid (fast_forward_inter k f n) w
  handle (commit tid ip is_branch taken type branch_type) w =
      on_thread tid (record_instr_commit k f ip is_branch taken type branch_type) w
