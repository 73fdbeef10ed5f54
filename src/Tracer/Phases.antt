-- ===== src/Tracer/Phases.antt =====
-- The transitions of a thread's phase.
use champsim_infra.Prelude.{
  ℕ, suc, ◌+◌, ◌-◌, ◌%◌, ◌^◌, ◌&&◌, ◌||◌, not, Bool, true, false, ltb, leb, ◌==◌, get_or, is_empty,
  if◌then◌else◌, inc,
}
use champsim_infra.Tracer.State.{
  Phase, tracing, inter_skip, finished, is_waiting, is_initial, is_tracing, is_inter, is_finished,
  Knobs, SampleFile, Globals, up, down, ThreadState, open_next_sample,
}

-- The magic values of %rcx (champsim_markers.h).
pub data Marker : Type 0 where
  roi_begin register_worker roi_end other_value : Marker

module _ (k : Knobs) (f : SampleFile) where
  abbrev pub Both : Type 0
  Both = Globals × ThreadState f

  abbrev pub mark_started_tracing : Both → Both
  mark_started_tracing (g, t) = if t.ever_started_tracing then (g, t) else (
    record g { threads_started_tracing = inc g.threads_started_tracing },
    record t { ever_started_tracing = true },
  )

  abbrev pub maybe_exit_on_done : Globals → Globals
  maybe_exit_on_done g =
      if not k.exit_on_done
      then g
      else if g.threads_started_tracing == 0 || ltb g.threads_reached_done g.threads_started_tracing
      then g
      else if g.exit_triggered
      then g
      else record g { exit_triggered = true; exits = suc g.exits }

  abbrev pub mark_reached_done : Both → Both
  mark_reached_done (g, t) = if t.ever_reached_done then (g, t) else (
    maybe_exit_on_done (record g { threads_reached_done = inc g.threads_reached_done }),
    record t { ever_reached_done = true },
  )

  -- The bits of `finish_sample` after the quota. Past the end of the list the source is undefined.
  abbrev pub next_sample : ThreadState f → ThreadState f × Bool
  next_sample t =
      let prev_end = (get_or k.offsets (t.samples_collected - 1) 0 + t.trace_per_sample) % 2 ^ 64 in
      let gap = (get_or k.offsets t.samples_collected 0 + (2 ^ 64 - prev_end)) % 2 ^ 64 in
      let again = open_next_sample f (record t { phase = tracing; counter = t.trace_per_sample }) in
      if not (is_empty k.offsets)
      then (if ltb 0 gap
          then (record t { phase = inter_skip; counter = gap }, false)
          else (again, true))
      else if ltb 0 t.inter_sample_skip
      then (record t { phase = inter_skip; counter = t.inter_sample_skip }, false)
      else (again, true)

  -- The second result is the code's: whether the thread goes on tracing.
  unfoldable pub finish_sample : Both → Both × Bool
  finish_sample (g, t) =
      let t' = record t { file = f.close t.file; samples_collected = inc t.samples_collected } in
      if ltb 0 t'.sample_limit && leb t'.sample_limit t'.samples_collected
      then (mark_reached_done (g, record t' { phase = finished }), false)
      else (let (t'', again) = next_sample t' in ((g, t''), again))

  abbrev pub invalidate : Globals → Globals
  invalidate g = record g { invalidations = suc g.invalidations }

  abbrev pub enter_tracing : Both → Both
  enter_tracing (g, t) =
      let (g', t') =
        mark_started_tracing (
          record g { active_tracing_threads = up g.active_tracing_threads },
          open_next_sample f t,
        ) in
      (invalidate g', t')

  unfoldable pub leave_tracing : Both → Both
  unfolding finish_sample
  leave_tracing p =
      let ((g, t), again) = finish_sample p in
      if again
      then (g, t)
      else (invalidate (record g { active_tracing_threads = down g.active_tracing_threads }), t)

  -- The branch of a thread that is tracing when the ROI ends.
  abbrev pub stop_tracing : Both → Both
  stop_tracing (g, t) =
      if is_tracing t.phase
      then (
        record g { active_tracing_threads = down g.active_tracing_threads },
        record t { file = f.force_close t.file },
      )
      else (g, t)

  abbrev pub begin_roi : Both → Both
  begin_roi (g, t) =
      let t' = record t { is_master = true } in
      if k.skip_master_tracing
      then mark_reached_done (g, record t' { phase = finished })
      else if is_waiting t.phase || is_initial t.phase
      then enter_tracing (g, record t' { phase = tracing; counter = t.trace_per_sample })
      else (g, t')

  abbrev pub end_roi : Both → Both
  end_roi p =
      let (g, t) = stop_tracing p in
      let (g', t') = mark_reached_done (g, record t { phase = finished }) in (invalidate g', t')

  unfoldable pub handle_marker : Marker → Both → Both
  handle_marker roi_begin (g, t) =
      if g.roi_started then (g, t) else begin_roi (record g { roi_started = true }, t)
  handle_marker register_worker (g, t) = (g, record t { is_registered_worker = true })
  handle_marker roi_end (g, t) =
      if g.roi_ended then (g, t) else end_roi (record g { roi_ended = true }, t)
  handle_marker other_value p = p

  -- A marker on a thread that has no state.
  unfoldable pub handle_marker_untracked : Marker → Globals → Globals
  handle_marker_untracked roi_begin g = record g { roi_started = true }
  handle_marker_untracked register_worker g = g
  handle_marker_untracked roi_end g = record g { roi_ended = true }
  handle_marker_untracked other_value g = g

  abbrev pub wake : Both → Both
  wake (g, t) =
      let (g', t') = mark_started_tracing (
        record g { active_tracing_threads = up g.active_tracing_threads },
        open_next_sample f (record t { phase = tracing; counter = t.trace_per_sample }),
      ) in
      (if g.active_tracing_threads == 0 then invalidate g' else g', t')

  unfoldable pub check_roi_transition : Both → Both
  check_roi_transition (g, t) =
      if is_finished t.phase
      then (g, t)
      else if g.roi_ended
      then (let (g', t') = stop_tracing (g, t) in
          mark_reached_done (g', record t' { phase = finished }))
      else if g.roi_started && is_waiting t.phase
      then (if k.trace_only_registered_workers && not t.is_registered_worker
          then (g, t)
          else wake (g, t))
      else (g, t)

  -- The common body of `FastForwardInitial` and `FastForwardInter`.
  abbrev pub fast_forward : (Phase → Bool) → ℕ → Both → Both
  fast_forward skips icount (g, t) =
      if not (skips t.phase)
      then (g, t)
      else if ltb icount t.counter
      then (g, record t { counter = t.counter - icount })
      else enter_tracing (g, record t { phase = tracing; counter = t.trace_per_sample })

  unfoldable pub fast_forward_initial : ℕ → Both → Both
  fast_forward_initial = fast_forward is_initial

  unfoldable pub fast_forward_inter : ℕ → Both → Both
  fast_forward_inter = fast_forward is_inter
