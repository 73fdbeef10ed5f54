-- ===== src/Raw/Plugin/Windows.antt =====
-- Periodic sampling: every window that the manifest lists has exactly `sample_len` records.
pub mod Phases
pub mod Boundary
pub mod Invariant
use champsim_infra.Prelude.{
  ℕ, zero, suc, ◌+◌, ◌%◌, ◌^◌, ◌<◌, ◌≤◌, ◌≡◌, refl, sym, ap, ap₂, subst, ◌∙◌, ◌⊎◌, ◌&&◌, ◌||◌, not,
  Bool, true, false, Bool-cases, inl, inr, Option, none, some, List, [], ◌∷◌, ◌++◌, length, ltb,
  leb, inc, is_empty, if◌then◌else◌, arith,
}
use champsim_infra.Raw.Record.{Insn, max_mem_ops}
use champsim_infra.Raw.Plugin.Serial.{insn_bytes, file_header}
use champsim_infra.Raw.Plugin.State.{
  Config, chunking_active, ChunkFiles, Row, flush_threshold, VcpuState,
}
use champsim_infra.Raw.Plugin.Chunks.{
  flush_buffer, flush_into, flush_final, finish_into, buffer_append, finalize_pending_insn,
  count_recorded, open_chunk, begun_chunk, close_chunk, closed_with, add_row, row_of,
}
use champsim_infra.Raw.Plugin.Callbacks.{
  InsnMeta, MemInfo, PluginGlobals, Flow, returned, goes_on, and_then, ended, skip_phase,
  window_boundary, after_window, window_done, check_limit, rotate, or_stop, pass_gap, next_window,
  pending_of, record_insn, insn_exec_cb, mem_cb, mem_op_of, add_mem_op, is_user, dormant,
  count_lookup,
}
use champsim_infra.Raw.Plugin.Contents.{GuestEvent, exec, access, handle, handle_all}

module _ (k : Config) (z : ChunkFiles) where
  pub record Sampling : Type 0 where
    pub some_length : 0 < k.sample_len
    pub length_fits : k.sample_len < 2 ^ 64
    pub no_rotation : k.rotate_interval ≡ 0

  abbrev pub AllWindows : List Row → Type 0
  AllWindows [] = Unit
  AllWindows (r ∷ rows) = (r.insn_count ≡ k.sample_len) × AllWindows rows

  abbrev pub Listed : Option (List Row) → Type 0
  Listed none = Unit
  Listed (some rows) = AllWindows rows

  -- The fields that the count of a window depends on.
  abbrev pub Same : VcpuState z → VcpuState z → Type 0
  Same a b =
      (b.pending ≡ a.pending)
      × (b.chunk_insn_count ≡ a.chunk_insn_count)
      × (b.manifest ≡ a.manifest)
      × (b.limit_reached ≡ a.limit_reached)
      × (b.sample_skipping ≡ a.sample_skipping)

  pub Same-trans : (a b c : VcpuState z) → Same a b → Same b c → Same a c
  Same-trans a b c p q = (q.0 ∙ p.0, q.1 ∙ p.1, q.2 ∙ p.2, q.3 ∙ p.3, q.4 ∙ p.4)

  pub flush_buffer-Same : (vs : VcpuState z) → Same vs (flush_buffer z k vs)
  unfolding flush_buffer
  flush_buffer-Same vs = by vs.chunk (is_empty vs.inbuf)
    where
      by :
          (o : Option z.W) (b : Bool)
          → Same vs (elim o [
            | none ↦ vs
            | some w ↦ if b then vs else flush_into z k vs (z.feed vs.inbuf w)
          ])
      by none b = (refl, refl, refl, refl, refl)
      by (some w) true = (refl, refl, refl, refl, refl)
      by (some w) false = (refl, refl, refl, refl, refl)

  pub buffer_append-Same :
      (bytes : List ℕ) (vs : VcpuState z) → Same vs (buffer_append z k bytes vs)
  unfolding buffer_append
  buffer_append-Same bytes vs = by (ltb flush_threshold (length vs.inbuf + length bytes))
    where
      by :
          (b : Bool)
          → let vs' : VcpuState z = if b then flush_buffer z k vs else vs in
            Same vs (record vs' { inbuf = vs'.inbuf ++ bytes })
      by true = flush_buffer-Same vs
      by false = (refl, refl, refl, refl, refl)

  pub flush_final-Same : (vs : VcpuState z) → Same vs (flush_final z k vs)
  unfolding flush_final
  flush_final-Same vs = Same-trans vs vs' (flush_final z k vs) (flush_buffer-Same vs) (by vs'.chunk)
    where
      vs' : VcpuState z
      vs' = flush_buffer z k vs

      by :
          (o : Option z.W)
          → Same (flush_buffer z k vs) (elim o [
            | none ↦ flush_buffer z k vs
            | some w ↦ finish_into z k (flush_buffer z k vs) (z.finish w)
          ])
      by none = (refl, refl, refl, refl, refl)
      by (some w) = (refl, refl, refl, refl, refl)

  -- The pending instruction is counted.
  abbrev pub waiting : Option Insn → ℕ
  waiting none = 0
  waiting (some i) = 1

  pub record Finalized (a b : VcpuState z) : Type 0 where
    pub none_left : b.pending ≡ none
    pub counted :
        a.chunk_insn_count + waiting a.pending < 2 ^ 64
        → b.chunk_insn_count ≡ a.chunk_insn_count + waiting a.pending
    pub same_manifest : b.manifest ≡ a.manifest
    pub same_limit : b.limit_reached ≡ a.limit_reached
    pub same_skip : b.sample_skipping ≡ a.sample_skipping

  pub finalize-Finalized : (vs : VcpuState z) → Finalized vs (finalize_pending_insn z k vs)
  unfolding finalize_pending_insn
  finalize-Finalized vs = by vs.pending refl
    where
      final : Option Insn → VcpuState z
      final o = elim o [
        | none ↦ vs
        | some i ↦
            count_recorded z k i (buffer_append z k (insn_bytes k.capture_pa vs.vcpu_id i) vs)
      ]

      by : (o : Option Insn) → vs.pending ≡ o → Finalized vs (final o)
      by none e = record {
        none_left = e;
        counted = λ h. omega (arith, ap waiting e);
        same_manifest = refl;
        same_limit = refl;
        same_skip = refl;
      }
      by (some i) e =
          let s = buffer_append-Same (insn_bytes k.capture_pa vs.vcpu_id i) vs in
          record {
            none_left = refl;
            counted = λ h. ap inc s.1 ∙ omega (arith, h, ap waiting e);
            same_manifest = s.2;
            same_limit = s.3;
            same_skip = s.4;
          }
