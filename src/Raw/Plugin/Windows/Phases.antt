-- ===== src/Raw/Plugin/Windows/Phases.antt =====
-- The invariant of a vCPU under periodic sampling: its phases, and the gaps.
use champsim_infra.Prelude.{
  ◌+◌, ◌%◌, ◌^◌, ◌<◌, ◌≤◌, ◌≡◌, refl, sym, ap, subst, ◌∙◌, ◌⊎◌, ◌&&◌, ◌||◌, not, Bool, true, false,
  inl, inr, Option, none, some, [], ltb, inc, if◌then◌else◌, arith,
}
use champsim_infra.Raw.Plugin.Serial.{file_header}
use champsim_infra.Raw.Plugin.State.{Config, chunking_active, ChunkFiles, VcpuState}
use champsim_infra.Raw.Plugin.Chunks.{finalize_pending_insn, open_chunk, begun_chunk, start_of}
use champsim_infra.Raw.Plugin.Callbacks.{
  InsnMeta, Flow, returned, goes_on, and_then, skip_phase, or_stop, pass_gap, next_window, is_user,
}
use champsim_infra.Raw.Plugin.Windows.{
  Sampling, Listed, waiting, buffer_append-Same, finalize-Finalized,
}

module _ (k : Config) (z : ChunkFiles) (on : Sampling k z) where
  -- The vCPU has stopped, or it is in a gap, or in a window that is not full.
  pub record Windowed (vs : VcpuState z) : Type 0 where
    pub listed : Listed k z vs.manifest
    pub phase :
        (vs.limit_reached ≡ true)
        ⊎ (((vs.sample_skipping ≡ true) × (vs.pending ≡ none))
            ⊎ ((vs.sample_skipping ≡ false)
                × (vs.chunk_insn_count + waiting k z vs.pending ≤ k.sample_len)))

  -- In a window, before the pending instruction is counted, and after.
  pub record Before (vs : VcpuState z) : Type 0 where
    pub listed : Listed k z vs.manifest
    pub in_window : vs.sample_skipping ≡ false
    pub room : vs.chunk_insn_count + waiting k z vs.pending ≤ k.sample_len

  pub record After (vs : VcpuState z) : Type 0 where
    pub listed : Listed k z vs.manifest
    pub in_window : vs.sample_skipping ≡ false
    pub none_left : vs.pending ≡ none
    pub room : vs.chunk_insn_count < k.sample_len

  unfoldable pub FlowOk : (VcpuState z → Type 0) → Flow k z → Type 0
  FlowOk P (returned vs) = Windowed vs
  FlowOk P (goes_on vs) = P vs

  pub and_then-FlowOk :
      (P Q : VcpuState z → Type 0) (g : VcpuState z → Flow k z) (f : Flow k z)
      → ((vs : VcpuState z) → P vs → FlowOk Q (g vs))
      → FlowOk P f
      → FlowOk Q (and_then k z g f)
  unfolding FlowOk
  and_then-FlowOk P Q g (returned vs) h w = w
  and_then-FlowOk P Q g (goes_on vs) h w = h vs w

  -- What open_chunk leaves alone.
  record Opened (a : VcpuState z) (r : VcpuState z × Bool) : Type 0 where
    same_pending : r.0.pending ≡ a.pending
    same_manifest : r.0.manifest ≡ a.manifest
    same_skip : r.0.sample_skipping ≡ a.sample_skipping
    emptied : r.1 ≡ true → r.0.chunk_insn_count ≡ 0

  open_chunk-Opened : (vs : VcpuState z) → Opened vs (open_chunk z k vs)
  unfolding open_chunk
  open_chunk-Opened vs =
      by (z.create vs.vcpu_id (if chunking_active k then some vs.chunk_index else none))
    where
      by :
          (o : Option z.W)
          → Opened vs (elim o [
            | none ↦ (record vs { inbuf = []; chunk = none }, false)
            | some w ↦ (begun_chunk z k w vs, true)
          ])
      by none = record {
        same_pending = refl;
        same_manifest = refl;
        same_skip = refl;
        emptied = λ e. absurd (ground (arith, e));
      }
      by (some w) =
          let s =
            buffer_append-Same k z
              (file_header vs.vcpu_id k.trace_arch k.capture_pa k.capture_values)
              (record vs {
                inbuf = [];
                chunk = some w;
                chunk_insn_count = 0;
                chunk_start_insn = start_of z k vs;
                chunk_bytes_at_open = vs.bytes_compressed;
              }) in
          record { same_pending = s.0; same_manifest = s.2; same_skip = s.4; emptied = λ e. s.1 }

  or_stop-After :
      (vs : VcpuState z) (r : VcpuState z × Bool)
      → Opened vs r
      → vs.sample_skipping ≡ false
      → vs.pending ≡ none
      → Listed k z vs.manifest
      → FlowOk After (or_stop k z r)
  unfolding FlowOk
  or_stop-After vs (vs', true) o s p l = record {
    listed = subst (Listed k z) (sym o.same_manifest) l;
    in_window = o.same_skip ∙ s;
    none_left = o.same_pending ∙ p;
    room = omega (arith, o.emptied refl, on.some_length);
  }
  or_stop-After vs (vs', false) o s p l = record {
    listed = subst (Listed k z) (sym o.same_manifest) l;
    phase = inl refl;
  }

  pub pass_gap-After :
      (m : InsnMeta) (vs : VcpuState z)
      → vs.sample_skipping ≡ true
      → vs.pending ≡ none
      → Listed k z vs.manifest
      → FlowOk After (pass_gap k z m vs)
  unfolding FlowOk
  pass_gap-After m vs s p l =
      by (ltb vs.sample_phase_insns k.sample_gap) (k.sample_clock_user && not (is_user k m))
    where
      counted : VcpuState z
      counted = record vs {
        sample_phase_insns =
            if not k.sample_clock_user || is_user k m
            then inc vs.sample_phase_insns
            else vs.sample_phase_insns;
      }

      by :
          (a b : Bool)
          → FlowOk After
              (if a then returned counted else if b then returned vs else next_window k z vs)
      by true b = record { listed = l; phase = inr (inl (s, p)) }
      by false true = record { listed = l; phase = inr (inl (s, p)) }
      by false false =
          or_stop-After _ _
            (open_chunk-Opened (record vs {
              sample_skipping = false;
              sample_phase_insns = 0;
              chunk_index = (vs.chunk_index + 1) % 2 ^ 32;
            }))
            refl p l

  After-Before : (vs : VcpuState z) → After vs → Before vs
  After-Before vs h = record {
    listed = h.listed;
    in_window = h.in_window;
    room = omega (arith, h.room, ap (waiting k z) h.none_left);
  }

  weaken : (f : Flow k z) → FlowOk After f → FlowOk Before f
  unfolding FlowOk
  weaken (returned vs) h = h
  weaken (goes_on vs) h = After-Before vs h

  pub skip_phase-Before :
      (m : InsnMeta) (vs : VcpuState z)
      → vs.limit_reached ≡ false
      → Windowed vs
      → FlowOk Before (skip_phase k z m vs)
  unfolding skip_phase FlowOk
  skip_phase-Before m vs l h =
      by (ltb 0 k.sample_len) vs.sample_finished vs.sample_skipping (ground (arith, on.some_length))
        refl h.phase
    where
      by :
          (a b c : Bool)
          → a ≡ true
          → vs.sample_skipping ≡ c
          → (vs.limit_reached ≡ true)
            ⊎ (((vs.sample_skipping ≡ true) × (vs.pending ≡ none))
                ⊎ ((vs.sample_skipping ≡ false)
                    × (vs.chunk_insn_count + waiting k z vs.pending ≤ k.sample_len)))
          → FlowOk Before (
              if a
              then (if b
                  then returned vs
                  else if c
                  then pass_gap k z m (finalize_pending_insn z k vs)
                  else goes_on vs)
              else goes_on vs)
      by false b c e s p = absurd (ground (arith, e))
      by true true c e s p = h
      by true false true e s p =
          let f = finalize-Finalized k z vs in
          weaken _ (
            pass_gap-After m (finalize_pending_insn z k vs) (f.same_skip ∙ s) f.none_left
              (subst (Listed k z) (sym f.same_manifest) h.listed))
      by true false false e s (inl t) = absurd (ground (arith, t, l))
      by true false false e s (inr (inl (t, p))) = absurd (ground (arith, t, s))
      by true false false e s (inr (inr (t, r))) = record {
        listed = h.listed;
        in_window = s;
        room = r;
      }
