-- ===== src/Raw/Plugin/Contents.antt =====
-- What the plugin leaves in the file of a vCPU.
pub mod Step
pub mod Run
use champsim_infra.Prelude.{
  ℕ, zero, suc, ◌+◌, ◌^◌, ◌<◌, ◌≤◌, ◌≡◌, refl, sym, ap, ap₂, subst, ◌∙◌, ◌&&◌, ◌||◌, not, Bool,
  true, false, Bool-cases, inl, inr, Option, none, some, List, [], ◌∷◌, ◌++◌, append-nil,
  append_assoc, length, ltb, leb, inc, is_empty, if◌then◌else◌, arith,
}
use champsim_infra.Raw.Record.{Insn, max_mem_ops}
use champsim_infra.Raw.Plugin.Serial.{insn_bytes, file_header}
use champsim_infra.Raw.Plugin.State.{
  Config, chunking_active, ChunkFiles, Row, flush_threshold, VcpuState,
}
use champsim_infra.Raw.Plugin.Chunks.{
  flush_buffer, flush_into, flush_final, finish_into, buffer_append, finalize_pending_insn,
  count_recorded, open_chunk, begun_chunk, close_chunk, closed_with,
}
use champsim_infra.Raw.Plugin.Callbacks.{
  InsnMeta, MemInfo, PluginGlobals, Flow, returned, goes_on, and_then, ended, skip_phase,
  window_boundary, after_window, window_done, check_limit, rotate, or_stop, pass_gap, pending_of,
  record_insn, insn_exec_cb, mem_cb, mem_op_of, add_mem_op,
}
use champsim_infra.Raw.Convert.Program.Stream.{stream}

-- What QEMU does: it executes an instruction, or reports a memory access of the last one.
pub data GuestEvent : Type 0 where
  exec : InsnMeta → GuestEvent
  access : ℕ → MemInfo → GuestEvent

-- A capture of everything into one file.
pub record Continuous (k : Config) : Type 0 where
  pub no_limit : k.insn_limit ≡ 0
  pub no_rotation : k.rotate_interval ≡ 0
  pub no_sampling : k.sample_len ≡ 0

pub record ChunkLaws (z : ChunkFiles) : Type 0 where
  pub fed : z.W → List ℕ
  pub fed-create : (v : ℕ) (c : Option ℕ) (w : z.W) → z.create v c ≡ some w → fed w ≡ []
  pub fed-feed : (bs : List ℕ) (w : z.W) → fed (z.feed bs w).0 ≡ fed w ++ bs
  pub decoded : z.W → Option (List ℕ)
  pub decoded-finish : (w : z.W) → decoded (z.finish w).0 ≡ some (fed w)

module _ (k : Config) where
  -- An access goes to the instruction before it, which takes seven of them.
  abbrev pub with_access : ℕ → MemInfo → Insn → Insn
  with_access vaddr a i =
      if leb max_mem_ops (length i.mem_ops)
      then i
      else record i { mem_ops = i.mem_ops ++ mem_op_of k vaddr a ∷ [] }

  module _ (z : ChunkFiles) where
    abbrev pub insn_of : InsnMeta → Insn
    insn_of m = pending_of k z m

    -- The instructions of a run of the guest, after a pending one.
    abbrev pub executed : Option Insn → List GuestEvent → List Insn
    executed none [] = []
    executed (some i) [] = i ∷ []
    executed none (exec m ∷ es) = executed (some (insn_of m)) es
    executed (some i) (exec m ∷ es) = i ∷ executed (some (insn_of m)) es
    executed none (access vaddr a ∷ es) = executed none es
    executed (some i) (access vaddr a ∷ es) = executed (some (with_access vaddr a i)) es

    abbrev pub handle : GuestEvent → PluginGlobals × VcpuState z → PluginGlobals × VcpuState z
    handle (exec m) s = insn_exec_cb k z false m s
    handle (access vaddr a) s = mem_cb k z vaddr a s

    abbrev pub handle_all :
        List GuestEvent → PluginGlobals × VcpuState z → PluginGlobals × VcpuState z
    handle_all [] s = s
    handle_all (e ∷ es) s = handle_all es (handle e s)

    module _ (laws : ChunkLaws z) where
      -- The open file has been fed `v`, or has it in the buffer.
      pub record Written (vs : VcpuState z) (id : ℕ) (closed : List z.W) (v : List ℕ) : Type 0 where
        pub file : z.W
        pub is_open : vs.chunk ≡ some file
        pub content : laws.fed file ++ vs.inbuf ≡ v
        pub same_id : vs.vcpu_id ≡ id
        pub running : vs.limit_reached ≡ false
        pub before : vs.closed ≡ closed

      pub flush_buffer-Written :
          (vs : VcpuState z) (id : ℕ) (c : List z.W) (v : List ℕ)
          → Written vs id c v
          → Written (flush_buffer z k vs) id c v
      unfolding flush_buffer
      flush_buffer-Written vs id c v h =
          let flushed : VcpuState z = flush_into z k vs (z.feed vs.inbuf h.file) in
          let same : flush_buffer z k vs ≡ (if is_empty vs.inbuf then vs else flushed) =
            ap
              (λ o. elim o as (λ x. VcpuState z) [
                | none ↦ vs
                | some w ↦ if is_empty vs.inbuf then vs else flush_into z k vs (z.feed vs.inbuf w)
              ])
              h.is_open in
          subst (λ s. Written s id c v) (sym same)
            (elim (Bool-cases (is_empty vs.inbuf)) [
              | inl e ↦ subst (λ (b : Bool). Written (if b then vs else flushed) id c v) (sym e) h
              | inr e ↦
                  subst (λ (b : Bool). Written (if b then vs else flushed) id c v) (sym e)
                    record {
                      file = (z.feed vs.inbuf h.file).0;
                      is_open = refl;
                      content =
                          append-nil (laws.fed (z.feed vs.inbuf h.file).0)
                          ∙ laws.fed-feed vs.inbuf h.file
                          ∙ h.content;
                      same_id = h.same_id;
                      running = h.running;
                      before = h.before;
                    }
            ])

      append-Written :
          (vs : VcpuState z) (id : ℕ) (c : List z.W) (v bytes : List ℕ)
          → Written vs id c v
          → Written (record vs { inbuf = vs.inbuf ++ bytes }) id c (v ++ bytes)
      append-Written vs id c v bytes h = record {
        file = h.file;
        is_open = h.is_open;
        content =
            sym (append_assoc (laws.fed h.file) vs.inbuf bytes) ∙ ap (λ v. v ++ bytes) h.content;
        same_id = h.same_id;
        running = h.running;
        before = h.before;
      }

      pub buffer_append-Written :
          (vs : VcpuState z) (id : ℕ) (c : List z.W) (v bytes : List ℕ)
          → Written vs id c v
          → Written (buffer_append z k bytes vs) id c (v ++ bytes)
      unfolding buffer_append
      buffer_append-Written vs id c v bytes h =
          elim (Bool-cases (ltb flush_threshold (length vs.inbuf + length bytes))) [
            | inl e ↦ subst Goal (sym e) (
                append-Written (flush_buffer z k vs) id c v bytes
                  (flush_buffer-Written vs id c v h))
            | inr e ↦ subst Goal (sym e) (append-Written vs id c v bytes h)
          ]
        where
          Goal : Bool → Type 0
          Goal b =
              let vs' = if b then flush_buffer z k vs else vs in
              Written (record vs' { inbuf = vs'.inbuf ++ bytes }) id c (v ++ bytes)

      -- The bytes of the pending instruction.
      abbrev pub pending_bytes : ℕ → Option Insn → List ℕ
      pending_bytes id none = []
      pending_bytes id (some i) = insn_bytes k.capture_pa id i

      pub finalize-Written :
          (vs : VcpuState z) (id : ℕ) (c : List z.W) (v : List ℕ) (p : Option Insn)
          → vs.pending ≡ p
          → Written vs id c v
          → Written (finalize_pending_insn z k vs) id c (v ++ pending_bytes id p)
      unfolding finalize_pending_insn
      finalize-Written vs id c v none e h =
          subst (λ o. Written (final o) id c (v ++ [])) (sym e)
            (subst (Written vs id c) (sym (append-nil v)) h)
        where
          final : Option Insn → VcpuState z
          final o = elim o [
            | none ↦ vs
            | some i ↦
                count_recorded z k i (buffer_append z k (insn_bytes k.capture_pa vs.vcpu_id i) vs)
          ]
      finalize-Written vs id c v (some i) e h =
          let g : Written (buffer_append z k (insn_bytes k.capture_pa vs.vcpu_id i) vs) id c
              (v ++ insn_bytes k.capture_pa vs.vcpu_id i) =
            buffer_append-Written vs id c v (insn_bytes k.capture_pa vs.vcpu_id i) h in
          subst (λ o. Written (final o) id c (v ++ insn_bytes k.capture_pa id i)) (sym e)
            (subst (λ n. Written (final (some i)) id c (v ++ insn_bytes k.capture_pa n i)) h.same_id
              record {
                file = g.file;
                is_open = g.is_open;
                content = g.content;
                same_id = g.same_id;
                running = g.running;
                before = g.before;
              })
        where
          final : Option Insn → VcpuState z
          final o = elim o [
            | none ↦ vs
            | some i ↦
                count_recorded z k i (buffer_append z k (insn_bytes k.capture_pa vs.vcpu_id i) vs)
          ]
