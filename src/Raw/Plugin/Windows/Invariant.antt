-- ===== src/Raw/Plugin/Windows/Invariant.antt =====
-- The invariant of a vCPU under periodic sampling, through insn_exec_cb and mem_cb.
use champsim_infra.Prelude.{
  ℕ, ◌+◌, ◌≤◌, ◌≡◌, refl, sym, ap, subst, ◌∙◌, ◌⊎◌, not, Bool, true, false, inl, inr, Option, none,
  some, List, [], ◌∷◌, ◌++◌, append-nil, length, leb, ltb, ◌&&◌, inc, if◌then◌else◌, arith,
}
use champsim_infra.Raw.Record.{Insn, max_mem_ops}
use champsim_infra.Raw.Plugin.State.{Config, chunking_active, ChunkFiles, Row, VcpuState}
use champsim_infra.Raw.Plugin.Chunks.{
  finalize_pending_insn, flush_final, close_chunk, add_row, row_of,
}
use champsim_infra.Raw.Plugin.Callbacks.{
  InsnMeta, MemInfo, PluginGlobals, Flow, returned, goes_on, and_then, ended, skip_phase,
  window_boundary, check_limit, rotate, pending_of, record_insn, insn_exec_cb, mem_cb, mem_op_of,
  add_mem_op, is_user, dormant, count_lookup,
}
use champsim_infra.Raw.Plugin.Contents.{GuestEvent, exec, access, handle, handle_all}
use champsim_infra.Raw.Plugin.Windows.{
  Sampling, AllWindows, Listed, waiting, flush_final-Same, finalize-Finalized,
}
use champsim_infra.Raw.Plugin.Windows.Phases.{
  Windowed, Before, After, FlowOk, and_then-FlowOk, skip_phase-Before,
}
use champsim_infra.Raw.Plugin.Windows.Boundary.{
  window_boundary-After, check_limit-After, rotate-After,
}

module _ (k : Config) (z : ChunkFiles) (on : Sampling k z) where
  ended-Windowed :
      (f : Flow k z) → (FlowOk k z on) (Windowed k z on) f → (Windowed k z on) (ended k z f)
  unfolding FlowOk
  ended-Windowed (returned vs) h = h
  ended-Windowed (goes_on vs) h = h

  record_insn-Windowed :
      (m : InsnMeta) (vs : VcpuState z)
      → (Windowed k z on) vs
      → (Windowed k z on) (record_insn k z m vs)
  unfolding record_insn FlowOk
  record_insn-Windowed m vs h = by vs.limit_reached refl
    where
      begin : VcpuState z
      begin = record vs { stream_insns = inc vs.stream_insns }

      arm : VcpuState z → Flow k z
      arm vs = goes_on (record vs { pending = some (pending_of k z m) })

      chain : Flow k z
      chain = and_then k z arm (
          and_then k z (rotate k z) (
            and_then k z (check_limit k z) (
              and_then k z (λ vs. window_boundary k z m (finalize_pending_insn z k vs))
                (skip_phase k z m begin))))

      by : (b : Bool) → vs.limit_reached ≡ b → (Windowed k z on) (if b then vs else ended k z chain)
      by true e = h
      by false e = ended-Windowed chain (
          (and_then-FlowOk k z on) (After k z on) (Windowed k z on) arm _
            (λ v a. record {
              listed = a.listed;
              phase = inr (inr (a.in_window, omega (arith, a.room)));
            })
            ((and_then-FlowOk k z on) (After k z on) (After k z on) (rotate k z) _
              (rotate-After k z on)
              ((and_then-FlowOk k z on) (After k z on) (After k z on) (check_limit k z) _
                (check_limit-After k z on)
                ((and_then-FlowOk k z on) (Before k z on) (After k z on) _ (skip_phase k z m begin)
                  ((window_boundary-After k z on) m)
                  ((skip_phase-Before k z on) m begin e
                    record { listed = h.listed; phase = h.phase })))))

  some-ne : (i : Insn) → some i ≡ none → ⊥
  some-ne i e = subst (λ o. elim o as (λ x. Type 0) [ none ↦ ⊥ | some j ↦ Unit {0} ]) e tt

  mem_cb-Windowed :
      (vaddr : ℕ) (a : MemInfo) (s : PluginGlobals × VcpuState z)
      → (Windowed k z on) s.1
      → (Windowed k z on) (mem_cb k z vaddr a s).1
  unfolding mem_cb
  mem_cb-Windowed vaddr a s h = by s.0.tracing_enabled s.1.limit_reached s.1.pending refl
    where
      larger : Insn → Insn
      larger i = record i { mem_ops = i.mem_ops ++ mem_op_of k vaddr a ∷ [] }

      moved :
          (i : Insn)
          → s.1.pending ≡ some i
          → (Windowed k z on) (record (s.1) { pending = some (larger i) })
      moved i e = record { listed = h.listed; phase = phase_of h.phase }
        where
          phase_of :
              (s.1.limit_reached ≡ true)
                ⊎ (((s.1.sample_skipping ≡ true) × (s.1.pending ≡ none))
                    ⊎ ((s.1.sample_skipping ≡ false)
                        × (s.1.chunk_insn_count + waiting k z s.1.pending ≤ k.sample_len)))
              → (s.1.limit_reached ≡ true)
                ⊎ (((s.1.sample_skipping ≡ true) × (some (larger i) ≡ none))
                    ⊎ ((s.1.sample_skipping ≡ false) × (s.1.chunk_insn_count + 1 ≤ k.sample_len)))
          phase_of (inl t) = inl t
          phase_of (inr (inl (t, p))) = absurd (some-ne i (sym e ∙ p))
          phase_of (inr (inr (t, r))) = inr (inr (t, omega (arith, r, ap (waiting k z) e)))

      added :
          (i : Insn) (b : Bool)
          → s.1.pending ≡ some i
          → (Windowed k z on)
              (if◌then◌else◌ {A = PluginGlobals × VcpuState z} b
                (record (s.0) { memops_dropped = inc s.0.memops_dropped }, s.1)
                (count_lookup k a s.0, record (s.1) { pending = some (larger i) })).1
      added i true e = h
      added i false e = moved i e

      taken : Option Insn → PluginGlobals × VcpuState z
      taken o = elim o [ none ↦ s | some i ↦ add_mem_op k z vaddr a i s ]

      reached : Bool → Bool → Option Insn → PluginGlobals × VcpuState z
      reached on limit o = if not on then s else if limit then s else taken o

      by :
          (live limit : Bool) (o : Option Insn)
          → s.1.pending ≡ o
          → (Windowed k z on) (reached live limit o).1
      by false limit o e = h
      by true true o e = h
      by true false none e = h
      by true false (some i) e = added i (leb max_mem_ops (length i.mem_ops)) e

  insn_exec_cb-Windowed :
      (found : Bool) (m : InsnMeta) (s : PluginGlobals × VcpuState z)
      → (Windowed k z on) s.1
      → (Windowed k z on) (insn_exec_cb k z found m s).1
  unfolding insn_exec_cb
  insn_exec_cb-Windowed found m s h = by s.0.tracing_enabled s.0.profile_mode
    where
      profiled : PluginGlobals
      profiled = record (s.0) {
        profile_total_insns = inc s.0.profile_total_insns;
        profile_user_insns =
            if is_user k m then inc s.0.profile_user_insns else s.0.profile_user_insns;
      }

      reached : Bool → Bool → PluginGlobals × VcpuState z
      reached on profile =
          if not on
          then (dormant k z found s.0, s.1)
          else if profile
          then (profiled, s.1)
          else (s.0, record_insn k z m s.1)

      by : (live profile : Bool) → (Windowed k z on) (reached live profile).1
      by false profile = h
      by true true = h
      by true false = record_insn-Windowed m s.1 h

  handle_all-Windowed :
      (es : List GuestEvent) (s : PluginGlobals × VcpuState z)
      → (Windowed k z on) s.1
      → (Windowed k z on) (handle_all k z es s).1
  handle_all-Windowed [] s h = h
  handle_all-Windowed (exec m ∷ es) s h =
      handle_all-Windowed es (handle k z (exec m) s) (insn_exec_cb-Windowed false m s h)
  handle_all-Windowed (access vaddr a ∷ es) s h =
      handle_all-Windowed es (handle k z (access vaddr a) s) (mem_cb-Windowed vaddr a s h)

  -- What close_chunk adds to the manifest.
  close_chunk-manifest :
      (vs : VcpuState z) (rows : List Row)
      → vs.manifest ≡ some rows
      → (last : List Row) × ((close_chunk z k vs).manifest ≡ some (rows ++ last))
        × (length last ≤ 1)
  unfolding close_chunk
  close_chunk-manifest vs rows e =
      by (chunking_active k && ltb 0 vs'.chunk_insn_count) vs'.manifest (
        (flush_final-Same k z (finalize_pending_insn z k vs)).2
        ∙ (finalize-Finalized k z vs).same_manifest
        ∙ e)
    where
      vs' : VcpuState z
      vs' = flush_final z k (finalize_pending_insn z k vs)

      by :
          (b : Bool) (o : Option (List Row))
          → o ≡ some rows
          → (last : List Row) × ((if b then add_row z k (row_of z k vs') o else o)
              ≡ some (rows ++ last))
            × (length last ≤ 1)
      by true o e = (row_of z k vs' ∷ [], ap (add_row z k (row_of z k vs')) e, omega arith)
      by false o e = ([], e ∙ ap (λ rs. some rs) (sym (append-nil rows)), omega arith)

  -- Under periodic sampling, whatever the guest does and whichever files cannot be created, from a state
  -- in which no window is listed and no instruction is recorded: after the callbacks every window that
  -- the manifest lists has exactly `sample_len` records, and close_chunk at the exit adds at most one
  -- row after them, of which this is not said.
  pub handle_all-AllWindows :
      (es : List GuestEvent) (s : PluginGlobals × VcpuState z) (rows : List Row)
      → s.1.manifest ≡ some []
      → s.1.sample_skipping ≡ false
      → s.1.chunk_insn_count ≡ 0
      → s.1.pending ≡ none
      → (handle_all k z es s).1.manifest ≡ some rows
      → AllWindows k z rows
        × ((last : List Row) × ((close_chunk z k (handle_all k z es s).1).manifest
              ≡ some (rows ++ last))
            × (length last ≤ 1))
  handle_all-AllWindows es s rows unlisted window empty none_left e =
      let start : (Windowed k z on) s.1 = record {
        listed = subst (Listed k z) (sym unlisted) tt;
        phase = inr (inr (window, omega (arith, empty, ap (waiting k z) none_left)));
      } in
      (
        subst (Listed k z) e (handle_all-Windowed es s start).listed,
        close_chunk-manifest (handle_all k z es s).1 rows e,
      )
