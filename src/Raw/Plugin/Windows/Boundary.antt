-- ===== src/Raw/Plugin/Windows/Boundary.antt =====
-- The end of a window, and the limits.
use champsim_infra.Prelude.{
  ◌+◌, ◌%◌, ◌^◌, ◌≤◌, ◌≡◌, refl, sym, ap, subst, ◌∙◌, ◌&&◌, not, Bool, true, false, inl, Option,
  none, some, List, [], ◌∷◌, ◌++◌, ltb, leb, if◌then◌else◌, arith,
}
use champsim_infra.Raw.Plugin.State.{Config, chunking_active, ChunkFiles, Row, VcpuState}
use champsim_infra.Raw.Plugin.Chunks.{
  flush_buffer, flush_final, finalize_pending_insn, open_chunk, close_chunk, add_row, row_of,
}
use champsim_infra.Raw.Plugin.Callbacks.{
  InsnMeta, Flow, returned, goes_on, window_boundary, after_window, window_done, check_limit,
  rotate, or_stop, pass_gap,
}
use champsim_infra.Raw.Plugin.Windows.{
  Sampling, AllWindows, Listed, waiting, flush_buffer-Same, flush_final-Same, finalize-Finalized,
}
use champsim_infra.Raw.Plugin.Windows.Phases.{Before, After, FlowOk, pass_gap-After}

module _ (k : Config) (z : ChunkFiles) (on : Sampling k z) where
  AllWindows-snoc :
      (rows : List Row) (r : Row)
      → AllWindows k z rows
      → r.insn_count ≡ k.sample_len
      → AllWindows k z (rows ++ r ∷ [])
  AllWindows-snoc [] r h e = (e, tt)
  AllWindows-snoc (q ∷ rows) r h e = (h.0, AllWindows-snoc rows r h.1 e)

  add_row-Listed :
      (o : Option (List Row)) (r : Row)
      → Listed k z o
      → r.insn_count ≡ k.sample_len
      → Listed k z (add_row z k r o)
  add_row-Listed none r h e = tt
  add_row-Listed (some rows) r h e = AllWindows-snoc rows r h e

  -- A full window is closed.
  record Closed (vs : VcpuState z) : Type 0 where
    listed : Listed k z vs.manifest
    none_left : vs.pending ≡ none

  close_chunk-Closed :
      (vs : VcpuState z)
      → vs.pending ≡ none
      → vs.chunk_insn_count ≡ k.sample_len
      → Listed k z vs.manifest
      → Closed (close_chunk z k vs)
  unfolding close_chunk
  close_chunk-Closed vs p full l =
      let f = finalize-Finalized k z vs in
      let s = flush_final-Same k z (finalize_pending_insn z k vs) in
      let none_waiting : waiting k z vs.pending ≡ 0 = ap (waiting k z) p in
      let count : vs'.chunk_insn_count ≡ k.sample_len =
        s.1
        ∙ f.counted (omega (arith, none_waiting, full, on.length_fits))
        ∙ omega (arith, none_waiting, full) in
      let kept : Listed k z vs'.manifest = subst (Listed k z) (sym (s.2 ∙ f.same_manifest)) l in
      record {
        listed = by (chunking_active k && ltb 0 vs'.chunk_insn_count) count kept;
        none_left = s.0 ∙ f.none_left;
      }
    where
      vs' : VcpuState z
      vs' = flush_final z k (finalize_pending_insn z k vs)

      by :
          (b : Bool)
          → vs'.chunk_insn_count ≡ k.sample_len
          → Listed k z vs'.manifest
          → Listed k z (if b then add_row z k (row_of z k vs') vs'.manifest else vs'.manifest)
      by true e l = add_row-Listed vs'.manifest (row_of z k vs') l e
      by false e l = l

  after_window-After :
      (m : InsnMeta) (vs : VcpuState z)
      → Closed vs
      → (FlowOk k z on) (After k z on) (after_window k z m vs)
  unfolding FlowOk
  after_window-After m vs h = by (ltb 0 k.sample_count && leb k.sample_count vs.sample_windows_done)
    where
      by :
          (b : Bool)
          → (FlowOk k z on) (After k z on) (
              if b
              then returned
                  (record vs { sample_finished = true; limit_reached = true; chunk_insn_count = 0 })
              else pass_gap k z m (record vs { sample_skipping = true }))
      by true = record { listed = h.listed; phase = inl refl }
      by false =
          (pass_gap-After k z on) m (record vs { sample_skipping = true }) refl h.none_left h.listed

  pub window_boundary-After :
      (m : InsnMeta) (vs : VcpuState z)
      → (Before k z on) vs
      → (FlowOk k z on) (After k z on) (window_boundary k z m (finalize_pending_insn z k vs))
  unfolding window_boundary FlowOk
  window_boundary-After m vs h =
      let f = finalize-Finalized k z vs in
      let count : vs'.chunk_insn_count ≤ k.sample_len =
        omega (arith, f.counted (omega (arith, h.room, on.length_fits)), h.room) in
      by (leb k.sample_len vs'.chunk_insn_count) refl (f.same_skip ∙ h.in_window) f.none_left count
        (subst (Listed k z) (sym f.same_manifest) h.listed)
    where
      vs' : VcpuState z
      vs' = finalize_pending_insn z k vs

      full : VcpuState z → Flow k z
      full v = after_window k z m (window_done k z (close_chunk z k v))

      by :
          (c : Bool)
          → leb k.sample_len vs'.chunk_insn_count ≡ c
          → vs'.sample_skipping ≡ false
          → vs'.pending ≡ none
          → vs'.chunk_insn_count ≤ k.sample_len
          → Listed k z vs'.manifest
          → (FlowOk k z on)
              (After k z on)
              (if ltb 0 k.sample_len && not vs'.sample_skipping && c then full vs' else goes_on vs')
      by true e s p r l =
          let sampled : (ltb 0 k.sample_len && not vs'.sample_skipping && true) ≡ true =
            ground (arith, on.some_length, s) in
          let done = close_chunk-Closed vs' p (ground (arith, e, r)) l in
          subst (λ (b : Bool). (FlowOk k z on) (After k z on) (if b then full vs' else goes_on vs'))
            (sym sampled)
            (after_window-After m (window_done k z (close_chunk z k vs'))
              record { listed = done.listed; none_left = done.none_left })
      by false e s p r l =
          let not_full : (ltb 0 k.sample_len && not vs'.sample_skipping && false) ≡ false =
            ground (arith) in
          subst (λ (b : Bool). (FlowOk k z on) (After k z on) (if b then full vs' else goes_on vs'))
            (sym not_full)
            record { listed = l; in_window = s; none_left = p; room = ground (arith, e) }

  pub check_limit-After :
      (vs : VcpuState z) → (After k z on) vs → (FlowOk k z on) (After k z on) (check_limit k z vs)
  unfolding check_limit FlowOk
  check_limit-After vs h = by (ltb 0 k.insn_limit && leb k.insn_limit vs.insn_count)
    where
      by :
          (b : Bool)
          → (FlowOk k z on) (After k z on) (
              if b
              then returned (flush_buffer z k (record vs { limit_reached = true }))
              else goes_on vs)
      by true =
          let s = flush_buffer-Same k z (record vs { limit_reached = true }) in
          record { listed = subst (Listed k z) (sym s.2) h.listed; phase = inl s.3 }
      by false = h

  pub rotate-After :
      (vs : VcpuState z) → (After k z on) vs → (FlowOk k z on) (After k z on) (rotate k z vs)
  unfolding rotate FlowOk
  rotate-After vs h =
      let off : (ltb 0 k.rotate_interval && leb k.rotate_interval vs.chunk_insn_count) ≡ false =
        ap (λ n. ltb 0 n && leb n vs.chunk_insn_count) on.no_rotation in
      subst
        (λ (b : Bool). (FlowOk k z on) (After k z on) (
          if b
          then (let vs' = close_chunk z k vs in
              or_stop k z
                (open_chunk z k (record vs' { chunk_index = (vs'.chunk_index + 1) % 2 ^ 32 })))
          else goes_on vs))
        (sym off) h
