-- ===== src/Tracer/Threads/Active.antt =====
-- `active_tracing_threads` is the number of threads that are tracing, in every state that the
-- callbacks lead to.
use champsim_infra.Prelude.{
  ℕ, zero, suc, ◌+◌, ◌^◌, ◌<◌, ◌≡◌, refl, sym, true, false, Option, none, some, length,
  length-replicate, replicate, get_or, arith,
}
use champsim_infra.Tracer.State.{Knobs, SampleFile, ThreadState}
use champsim_infra.Tracer.Threads.{
  World, Event, handle, thread_start, thread_fini, marker, check, skip_initial, skip_inter, commit,
}
use champsim_infra.Tracer.Threads.Tally.{
  Counted, start_thread-Counted, finish_thread-Counted, marker-Counted, on_thread-Counted,
}
use champsim_infra.Tracer.Threads.Slots.{tracing_threads}
use champsim_infra.Tracer.Threads.Callbacks.{
  check_roi_transition-Effect, fast_forward_initial-Effect, fast_forward_inter-Effect,
  record_instr_commit-Effect,
}

module _ (k : Knobs) (f : SampleFile) where
  -- When a callback may come: Pin starts a thread under a number that is free, and `InstrumentTrace`
  -- inserts `HandleMarker` only with -use_markers.
  abbrev pub Admissible : Event → World k f → Type 0
  Admissible (thread_start tid os_tid) w =
      (tid < length w.threads) × (get_or w.threads tid none ≡ none)
  Admissible (thread_fini tid) w = Unit
  Admissible (marker tid m) w = k.use_markers ≡ true
  Admissible (check tid) w = Unit
  Admissible (skip_initial tid n) w = Unit
  Admissible (skip_inter tid n) w = Unit
  Admissible (commit tid ip is_branch taken type branch_type) w = Unit

  -- Before any thread: the registry has room for `n`.
  abbrev pub boot : ℕ → World k f
  boot n = record {
    globals = record {
      active_tracing_threads = 0;
      roi_started = false;
      roi_ended = false;
      threads_started_tracing = 0;
      threads_reached_done = 0;
      exit_triggered = false;
      exits = 0;
      invalidations = 0;
    };
    main_thread_id = none;
    threads = replicate n none;
  }

  -- The states that sequences of callbacks lead to.
  pub data Reachable (n : ℕ) : World k f → Type 0 where
    booted : Reachable n (boot n)
    after :
        (e : Event) (w : World k f) → Reachable n w → Admissible e w → Reachable n (handle k f e w)

  handle-Counted :
      (e : Event) (w : World k f) → Admissible e w → Counted k f w → Counted k f (handle k f e w)
  unfolding handle
  handle-Counted (thread_start tid os_tid) w a c = start_thread-Counted k f tid os_tid w a.0 a.1 c
  handle-Counted (thread_fini tid) w a c = finish_thread-Counted k f w tid c
  handle-Counted (marker tid m) w a c = marker-Counted k f w tid m a c
  handle-Counted (check tid) w a c =
      on_thread-Counted k f w tid _ (check_roi_transition-Effect k f) c
  handle-Counted (skip_initial tid n) w a c =
      on_thread-Counted k f w tid _ (fast_forward_initial-Effect k f n) c
  handle-Counted (skip_inter tid n) w a c =
      on_thread-Counted k f w tid _ (fast_forward_inter-Effect k f n) c
  handle-Counted (commit tid ip is_branch taken type branch_type) w a c =
      on_thread-Counted k f w tid _
        (record_instr_commit-Effect k f ip is_branch taken type branch_type) c

  boot-Counted : (n : ℕ) → n + 1 < 2 ^ 32 → Counted k f (boot n)
  boot-Counted n h = record {
    active = sym (no_threads n);
    calms = λ i t e. absurd (no_thread n i t e);
    room = omega (arith, length-replicate {A = Option (ThreadState f)} n none);
  }
    where
      no_threads : (n : ℕ) → tracing_threads f (replicate n none) ≡ 0
      no_threads zero = refl
      no_threads (suc n) = omega (arith, no_threads n)

      no_thread : (n i : ℕ) (t : ThreadState f) → get_or (replicate n none) i none ≡ some t → ⊥
      no_thread zero i t e = ground (arith)
      no_thread (suc n) zero t e = ground (arith)
      no_thread (suc n) (suc i) t e = no_thread n i t e

  Reachable-Counted : (n : ℕ) → n + 1 < 2 ^ 32 → (w : World k f) → Reachable n w → Counted k f w
  Reachable-Counted n h w booted = boot-Counted n h
  Reachable-Counted n h w (after e w' r a) = handle-Counted e w' a (Reachable-Counted n h w' r)

  -- However the callbacks of fewer than 2 ^ 32 - 1 threads interleave, `active_tracing_threads` is the number of
  -- threads in the phase TRACING, if Pin starts threads under free numbers and the markers are
  -- handled only with -use_markers.
  pub Reachable-active :
      (n : ℕ)
      → n + 1 < 2 ^ 32
      → (w : World k f) → Reachable n w
      → w.globals.active_tracing_threads ≡ tracing_threads f w.threads
  Reachable-active n h w r = (Reachable-Counted n h w r).active
