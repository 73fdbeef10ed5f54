-- ===== src/Tracer/Threads/Callbacks.antt =====
-- Each callback keeps `active_tracing_threads` in step with the phase of its thread.
use champsim_infra.Prelude.{
  ℕ, ◌+◌, ◌-◌, ◌%◌, ◌^◌, ◌<◌, ◌≡◌, refl, ◌&&◌, ◌||◌, not, Bool, true, false, ◌==◌, if◌then◌else◌,
  arith,
}
use champsim_infra.Tracer.State.{
  Phase, waiting_for_roi, initial_skip, tracing, inter_skip, finished, is_waiting, is_initial,
  is_tracing, is_inter, is_finished, Knobs, SampleFile, ThreadState, no_instr, no_stores,
}
use champsim_infra.Tracer.Phases.{
  Marker, roi_begin, register_worker, roi_end, other_value, Both, leave_tracing, handle_marker,
  check_roi_transition, fast_forward_initial, fast_forward_inter,
}
use champsim_infra.Tracer.Record.{record_instr_commit, stamped}

-- 1 for a thread that is tracing.
abbrev pub one_if : Phase → ℕ
one_if p = if is_tracing p then 1 else 0

abbrev pub is_idle : Phase → Bool
is_idle p = is_waiting p || is_finished p

idle-tracing : (p : Phase) → (is_tracing p && is_idle p) ≡ false
idle-tracing waiting_for_roi = refl
idle-tracing initial_skip = refl
idle-tracing tracing = refl
idle-tracing inter_skip = refl
idle-tracing finished = refl

idle-initial : (p : Phase) → (is_initial p && is_idle p) ≡ false
idle-initial waiting_for_roi = refl
idle-initial initial_skip = refl
idle-initial tracing = refl
idle-initial inter_skip = refl
idle-initial finished = refl

idle-inter : (p : Phase) → (is_inter p && is_idle p) ≡ false
idle-inter waiting_for_roi = refl
idle-inter initial_skip = refl
idle-inter tracing = refl
idle-inter inter_skip = refl
idle-inter finished = refl

tracing-initial : (p : Phase) → (is_tracing p && is_initial p) ≡ false
tracing-initial waiting_for_roi = refl
tracing-initial initial_skip = refl
tracing-initial tracing = refl
tracing-initial inter_skip = refl
tracing-initial finished = refl

tracing-inter : (p : Phase) → (is_tracing p && is_inter p) ≡ false
tracing-inter waiting_for_roi = refl
tracing-inter initial_skip = refl
tracing-inter tracing = refl
tracing-inter inter_skip = refl
tracing-inter finished = refl

tracing-waiting : (p : Phase) → (is_tracing p && is_waiting p) ≡ false
tracing-waiting waiting_for_roi = refl
tracing-waiting initial_skip = refl
tracing-waiting tracing = refl
tracing-waiting inter_skip = refl
tracing-waiting finished = refl

tracing-finished : (p : Phase) → (is_tracing p && is_finished p) ≡ false
tracing-finished waiting_for_roi = refl
tracing-finished initial_skip = refl
tracing-finished tracing = refl
tracing-finished inter_skip = refl
tracing-finished finished = refl

module _ (k : Knobs) (f : SampleFile) where
  -- With markers, no thread traces or skips before the ROI.
  abbrev pub calm : Bool → Phase → Bool
  calm roi_started p = not k.use_markers || roi_started || is_idle p

  -- With `n` other threads that are tracing.
  pub record Effect (p q : Both k f) : Type 0 where
    pub active :
        (n : ℕ)
        → n + 1 < 2 ^ 32
        → p.0.active_tracing_threads ≡ n + one_if p.1.phase
        → calm p.0.roi_started p.1.phase ≡ true
        → q.0.active_tracing_threads ≡ n + one_if q.1.phase
    pub calms : calm p.0.roi_started p.1.phase ≡ true → calm q.0.roi_started q.1.phase ≡ true
    pub started : q.0.roi_started ≡ false → p.0.roi_started ≡ false

  pub fast_forward_initial-Effect : (n : ℕ) (p : Both k f) → Effect p (fast_forward_initial k f n p)
  unfolding fast_forward_initial
  fast_forward_initial-Effect n p = record {
    active = λ m h e c. ground (arith, idle-tracing p.1.phase, tracing-initial p.1.phase);
    calms = λ c. ground (arith, idle-initial p.1.phase);
    started = λ e. ground (arith);
  }

  pub fast_forward_inter-Effect : (n : ℕ) (p : Both k f) → Effect p (fast_forward_inter k f n p)
  unfolding fast_forward_inter
  fast_forward_inter-Effect n p = record {
    active = λ m h e c. ground (arith, idle-tracing p.1.phase, tracing-inter p.1.phase);
    calms = λ c. ground (arith, idle-inter p.1.phase);
    started = λ e. ground (arith);
  }

  pub check_roi_transition-Effect : (p : Both k f) → Effect p (check_roi_transition k f p)
  unfolding check_roi_transition
  check_roi_transition-Effect p = record {
    active = λ m h e c. ground (arith, tracing-waiting p.1.phase, tracing-finished p.1.phase);
    calms = λ c. ground (arith);
    started = λ e. ground (arith);
  }

  pub handle_marker-Effect :
      (m : Marker) (p : Both k f) → k.use_markers ≡ true → Effect p (handle_marker k f m p)
  unfolding handle_marker
  handle_marker-Effect roi_begin p u = record {
    active = λ m h e c. ground (arith, idle-tracing p.1.phase);
    calms = λ c. ground (arith);
    started = λ e. ground (arith);
  }
  handle_marker-Effect register_worker p u = record {
    active = λ m h e c. e;
    calms = λ c. c;
    started = λ e. e;
  }
  handle_marker-Effect roi_end p u = record {
    active = λ m h e c. ground (arith);
    calms = λ c. ground (arith);
    started = λ e. ground (arith);
  }
  handle_marker-Effect other_value p u = record {
    active = λ m h e c. e;
    calms = λ c. c;
    started = λ e. e;
  }

  -- A sample ends on a thread that is tracing.
  leave_tracing-Effect :
      (p : Both k f) → is_tracing p.1.phase ≡ true → Effect p (leave_tracing k f p)
  unfolding leave_tracing
  leave_tracing-Effect p t = record {
    active = λ m h e c. ground (arith);
    calms = λ c. ground (arith, idle-tracing p.1.phase);
    started = λ e. ground (arith);
  }

  Effect-refl : (p : Both k f) → Effect p p
  Effect-refl p = record { active = λ n h e c. e; calms = λ c. c; started = λ e. e }

  Effect-if :
      (b : Bool) (p q r : Both k f)
      → (b ≡ true → Effect p q)
      → (b ≡ false → Effect p r)
      → Effect p (if b then q else r)
  Effect-if true p q r h j = h refl
  Effect-if false p q r h j = j refl

  pub record_instr_commit-Effect :
      (ip is_branch taken type branch_type : ℕ) (p : Both k f)
      → Effect p (record_instr_commit k f ip is_branch taken type branch_type p)
  unfolding record_instr_commit
  record_instr_commit-Effect ip is_branch taken type branch_type (g, t) =
      let t' : ThreadState f = record t {
        file = f.write (stamped k f ip is_branch taken type branch_type t.curr_instr) t.file;
        counter = (t.counter + (2 ^ 64 - 1)) % 2 ^ 64;
        curr_instr = no_instr;
        pending_stores = no_stores;
      } in
      Effect-if (not (is_tracing t.phase)) (g, t) (g, t) _ (λ e. Effect-refl (g, t))
        (λ e.
          let left : Effect (g, t') (leave_tracing k f (g, t')) =
            leave_tracing-Effect (g, t') (ground (arith)) in
          Effect-if (t'.counter == 0) (g, t) (leave_tracing k f (g, t')) (g, t')
            (λ z. record { active = left.active; calms = left.calms; started = left.started })
            (λ z. record { active = λ n h e c. e; calms = λ c. c; started = λ e. e }))
