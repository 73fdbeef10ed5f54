-- ===== src/Tracer/Threads/Tally.antt =====
-- Each event keeps `active_tracing_threads` the number of threads that are tracing.
use champsim_infra.Prelude.{
  ℕ, ◌+◌, ◌^◌, ◌<◌, ◌≡◌, ◌≢◌, refl, sym, ap, subst, ◌∙◌, ◌&&◌, not, Bool, true, false, Option, none,
  some, some_inj, length, length-set, set, get_or, ◌==◌, if◌then◌else◌, arith, inl, inr, Bool-cases,
  Option-cases,
}
use champsim_infra.Tracer.State.{Knobs, SampleFile, Globals, ThreadState, is_tracing, down}
use champsim_infra.Tracer.Phases.{
  Both, Marker, roi_begin, register_worker, roi_end, other_value, handle_marker,
  handle_marker_untracked,
}
use champsim_infra.Tracer.Threads.{
  World, handle, marker, register, on_thread, start_thread, finish_thread, started, new_thread,
  starting, is_traced_tid,
}
use champsim_infra.Tracer.Threads.Slots.{
  get_or-set_self, get_or-set_ne, one_if_traced, tracing_threads, tracing_threads-le,
  tracing_threads-set, in_range, set-same,
}
use champsim_infra.Tracer.Threads.Callbacks.{one_if, calm, Effect, handle_marker-Effect}

module _ (k : Knobs) (f : SampleFile) where
  pub record Counted (w : World k f) : Type 0 where
    pub active : w.globals.active_tracing_threads ≡ tracing_threads f w.threads
    pub calms :
        (i : ℕ) (t : ThreadState f)
        → get_or w.threads i none ≡ some t
        → calm k f w.globals.roi_started t.phase ≡ true
    pub room : length w.threads + 1 < 2 ^ 32

  calm-later :
      (before later : Bool) (t : ThreadState f)
      → (later ≡ false → before ≡ false)
      → calm k f before t.phase ≡ true
      → calm k f later t.phase ≡ true
  calm-later before true t h c = ground (arith)
  calm-later before false t h c = subst (λ b. calm k f b t.phase ≡ true) (h refl) c

  -- A thread's slot is set.
  register-Counted :
      (w : World k f) (main : Option ℕ) (tid : ℕ) (q : Both k f)
      → Counted w
      → tid < length w.threads
      → q.0.active_tracing_threads + one_if_traced f (get_or w.threads tid none)
        ≡ tracing_threads f w.threads + one_if q.1.phase
      → calm k f q.0.roi_started q.1.phase ≡ true
      → (q.0.roi_started ≡ false → w.globals.roi_started ≡ false)
      → Counted (register k f tid (record w { main_thread_id = main }) q)
  register-Counted w main tid q c h a m s = record {
    active = omega (arith, tracing_threads-set f w.threads tid (some q.1) h);
    calms = λ i t e. elim (Bool-cases (tid == i)) [
      | inl same ↦
          (let at : tid ≡ i = ground (arith) in
            let found : q.1 ≡ t = some_inj (
              sym (get_or-set_self w.threads tid (some q.1) none h)
              ∙ ap (λ j. get_or (set w.threads tid (some q.1)) j none) at
              ∙ e) in
            subst (λ t. calm k f q.0.roi_started t.phase ≡ true) found m)
      | inr other ↦
          (let apart : tid ≢ i = λ at. ground (arith) in
            calm-later w.globals.roi_started q.0.roi_started t s
              (c.calms i t (sym (get_or-set_ne w.threads tid i (some q.1) none apart) ∙ e)))
    ];
    room = omega (arith, length-set w.threads tid (some q.1), c.room);
  }

  -- A callback on a thread that has a state.
  update-Counted :
      (w : World k f) (tid : ℕ) (t : ThreadState f) (q : Both k f)
      → Counted w
      → get_or w.threads tid none ≡ some t
      → Effect k f (w.globals, t) q
      → Counted (register k f tid w q)
  update-Counted w tid t q c e h =
      let was : one_if_traced f (get_or w.threads tid none) ≡ one_if t.phase =
        ap (one_if_traced f) e in
      let all : tracing_threads f (set w.threads tid none) + one_if t.phase
          ≡ tracing_threads f w.threads =
        omega
          (arith, was, tracing_threads-set f w.threads tid none (in_range f w.threads tid t e)) in
      let others : ℕ = tracing_threads f (set w.threads tid none) in
      let few : others + 1 < 2 ^ 32 = omega (
        arith,
        c.room,
        tracing_threads-le f (set w.threads tid none),
        length-set w.threads tid none,
      ) in
      let calm_before : calm k f w.globals.roi_started t.phase ≡ true = c.calms tid t e in
      let count : q.0.active_tracing_threads ≡ others + one_if q.1.phase =
        h.active others few (omega (arith, c.active, all)) calm_before in
      register-Counted w w.main_thread_id tid q c (in_range f w.threads tid t e)
        (omega (arith, count, was, all)) (h.calms calm_before) h.started

  pub on_thread-Counted :
      (w : World k f) (tid : ℕ) (callback : Both k f → Both k f)
      → ((p : Both k f) → Effect k f p (callback p))
      → Counted w
      → Counted (on_thread k f tid callback w)
  on_thread-Counted w tid callback h c = elim (Option-cases (get_or w.threads tid none)) [
    | inl e ↦ subst (λ o. Counted (slot o)) (sym e) c
    | inr (t, e) ↦
        subst (λ o. Counted (slot o)) (sym e)
          (update-Counted w tid t (callback (w.globals, t)) c e (h (w.globals, t)))
  ]
    where
      slot : Option (ThreadState f) → World k f
      slot o = elim o [ none ↦ w | some t ↦ register k f tid w (callback (w.globals, t)) ]

  module _ (g : Globals) (os_tid : ℕ) where
    abbrev fresh : Both k f
    fresh = started k f g (new_thread k f os_tid (starting k f g.roi_started))

    fresh-active :
        (n : ℕ)
        → n + 1 < 2 ^ 32
        → g.active_tracing_threads ≡ n
        → fresh.0.active_tracing_threads ≡ n + one_if fresh.1.phase
    fresh-active n h e = ground (arith)

    fresh-calm : calm k f fresh.0.roi_started fresh.1.phase ≡ true
    fresh-calm = ground (arith)

    fresh-roi : fresh.0.roi_started ≡ false → g.roi_started ≡ false
    fresh-roi = ground (arith)

  main-Counted :
      (w : World k f) (main : Option ℕ) → Counted w → Counted (record w { main_thread_id = main })
  main-Counted w main c = record { active = c.active; calms = c.calms; room = c.room }

  either : (b : Bool) (v w : World k f) → Counted v → Counted w → Counted (if b then v else w)
  either true v w c d = c
  either false v w c d = d

  pub start_thread-Counted :
      (tid os_tid : ℕ) (w : World k f)
      → tid < length w.threads
      → get_or w.threads tid none ≡ none
      → Counted w
      → Counted (start_thread k f tid os_tid w)
  unfolding start_thread
  start_thread-Counted tid os_tid w h e c =
      let free : one_if_traced f (get_or w.threads tid none) ≡ 0 = ap (one_if_traced f) e in
      let n : ℕ = tracing_threads f w.threads in
      let few : n + 1 < 2 ^ 32 = omega (arith, c.room, tracing_threads-le f w.threads) in
      let counted = fresh-active w.globals os_tid n few c.active in
      let main : ℕ = elim w.main_thread_id [ none ↦ tid | some m ↦ m ] in
      either (k.main_thread_only && not (tid == main)) _ _ (main-Counted w (some main) c) (
        either (not (is_traced_tid k f k.trace_tid tid)) _ _ (main-Counted w (some main) c) (
          register-Counted w (some main) tid (fresh w.globals os_tid) c h
            (omega (arith, counted, free)) (fresh-calm w.globals os_tid)
            (fresh-roi w.globals os_tid)))

  -- A thread's slot is freed.
  cleared-Counted :
      (w : World k f) (tid : ℕ) (g : Globals)
      → Counted w
      → tid < length w.threads
      → g.active_tracing_threads ≡ tracing_threads f (set w.threads tid none)
      → g.roi_started ≡ w.globals.roi_started
      → Counted (record w { globals = g; threads = set w.threads tid none })
  cleared-Counted w tid g c h a r = record {
    active = a;
    calms = λ i t e. elim (Bool-cases (tid == i)) [
      | inl same ↦
          (let at : tid ≡ i = ground (arith) in
            let gone : none ≡ some t =
              sym (get_or-set_self w.threads tid none none h)
              ∙ ap (λ j. get_or (set w.threads tid none) j none) at
              ∙ e in
            ground (arith))
      | inr other ↦
          (let apart : tid ≢ i = λ at. ground (arith) in
            calm-later w.globals.roi_started g.roi_started t (λ l. sym r ∙ l)
              (c.calms i t (sym (get_or-set_ne w.threads tid i none none apart) ∙ e)))
    ];
    room = omega (arith, length-set w.threads tid none, c.room);
  }

  pub finish_thread-Counted :
      (w : World k f) (tid : ℕ) → Counted w → Counted (finish_thread k f tid w)
  unfolding finish_thread
  finish_thread-Counted w tid c = elim (Option-cases (get_or w.threads tid none)) [
    | inl e ↦
        subst (λ o. Counted (slot o)) (sym e)
          (subst (λ os. Counted (record w { threads = os })) (sym (set-same f w.threads tid e))
            (record { active = c.active; calms = c.calms; room = c.room }))
    | inr (t, e) ↦
        (let h = in_range f w.threads tid t e in
          let was : one_if_traced f (get_or w.threads tid none) ≡ one_if t.phase =
            ap (one_if_traced f) e in
          let all : tracing_threads f (set w.threads tid none) + one_if t.phase
              ≡ tracing_threads f w.threads =
            omega (arith, was, tracing_threads-set f w.threads tid none h) in
          let few : tracing_threads f w.threads + 1 < 2 ^ 32 =
            omega (arith, c.room, tracing_threads-le f w.threads) in
          subst (λ o. Counted (slot o)) (sym e)
            (cleared-Counted w tid (left t) c h
              (left-active t (tracing_threads f w.threads)
                (tracing_threads f (set w.threads tid none)) all few c.active)
              (left-roi t)))
  ]
    where
      left : ThreadState f → Globals
      left t =
          if is_tracing t.phase
          then record (w.globals) { active_tracing_threads = down w.globals.active_tracing_threads }
          else w.globals

      left-active :
          (t : ThreadState f) (all others : ℕ)
          → others + one_if t.phase ≡ all
          → all + 1 < 2 ^ 32
          → w.globals.active_tracing_threads ≡ all
          → (left t).active_tracing_threads ≡ others
      left-active t all others h few e = ground (arith)

      left-roi : (t : ThreadState f) → (left t).roi_started ≡ w.globals.roi_started
      left-roi t = ground (arith)

      slot : Option (ThreadState f) → World k f
      slot o = elim o [
        | none ↦ record w { threads = set w.threads tid none }
        | some t ↦ record w { globals = left t; threads = set w.threads tid none }
      ]

  -- A marker on a thread without a state sets a flag at most.
  untracked-Counted :
      (w : World k f) (m : Marker)
      → Counted w
      → Counted (record w { globals = handle_marker_untracked k f m w.globals })
  unfolding handle_marker_untracked
  untracked-Counted w roi_begin c = record {
    active = c.active;
    calms = λ i t e. calm-later w.globals.roi_started true t (λ b. ground (arith)) (c.calms i t e);
    room = c.room;
  }
  untracked-Counted w register_worker c = record {
    active = c.active;
    calms = c.calms;
    room = c.room;
  }
  untracked-Counted w roi_end c = record { active = c.active; calms = c.calms; room = c.room }
  untracked-Counted w other_value c = record { active = c.active; calms = c.calms; room = c.room }

  pub marker-Counted :
      (w : World k f) (tid : ℕ) (m : Marker)
      → k.use_markers ≡ true
      → Counted w
      → Counted (handle k f (marker tid m) w)
  unfolding handle
  marker-Counted w tid m u c = elim (Option-cases (get_or w.threads tid none)) [
    | inl e ↦ subst (λ o. Counted (slot o)) (sym e) (untracked-Counted w m c)
    | inr (t, e) ↦
        subst (λ o. Counted (slot o)) (sym e)
          (update-Counted w tid t (handle_marker k f m (w.globals, t)) c e
            (handle_marker-Effect k f m (w.globals, t) u))
  ]
    where
      slot : Option (ThreadState f) → World k f
      slot o = elim o [
        | none ↦ record w { globals = handle_marker_untracked k f m w.globals }
        | some t ↦ register k f tid w (handle_marker k f m (w.globals, t))
      ]
