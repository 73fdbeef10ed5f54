-- ===== src/Raw/Plugin/Callbacks.antt =====
-- The callbacks of an executed instruction and of a memory access, and the trigger.
use champsim_infra.Prelude.{
  ℕ, ◌+◌, ◌%◌, ◌^◌, ◌&&◌, ◌||◌, not, Bool, true, false, Option, none, some, List, [], ◌∷◌, ◌++◌,
  length, replicate, ltb, leb, inc, if◌then◌else◌,
}
use champsim_infra.Raw.Record.{Insn, MemOp, max_mem_ops}
use champsim_infra.Raw.Convert.Build.{overlay}
use champsim_infra.Raw.Plugin.State.{Config, ChunkFiles, VcpuState}
use champsim_infra.Raw.Plugin.Chunks.{finalize_pending_insn, open_chunk, close_chunk, flush_buffer}

-- `InsnMeta`: the size is that of the bytes.
pub record InsnMeta : Type 0 where
  pub vaddr : ℕ
  pub bytes : List ℕ

-- What QEMU tells of a memory access: `hwaddr` is the physical address and whether it is I/O, and
-- `value` the bytes of qemu_plugin_mem_get_value, if its type is one of the five.
pub record MemInfo : Type 0 where
  pub size_shift : ℕ
  pub is_store : Bool
  pub hwaddr : Option (ℕ × Bool)
  pub value : Option (List ℕ)

-- The counters and switches that all vCPUs share.
pub record PluginGlobals : Type 0 where
  pub tracing_enabled : Bool
  pub profile_mode : Bool
  pub trigger_check_counter : ℕ
  pub trigger_skipped_insns : ℕ
  pub profile_total_insns : ℕ
  pub profile_user_insns : ℕ
  pub pa_invalid_count : ℕ
  pub pa_io_count : ℕ
  pub memops_dropped : ℕ

abbrev pub trigger_check_interval : ℕ
trigger_check_interval = 10000000

abbrev pub value_api_cap : ℕ
value_api_cap = 16

-- The flags byte; its bits do not overlap, so `|` is a sum.
abbrev pub memop_flags : Bool → Bool → Option (ℕ × Bool) → ℕ
memop_flags write valued none = (if write then 1 else 0) + (if valued then 2 else 0)
memop_flags write valued (some (pa, io)) =
    (if write then 1 else 0) + (if valued then 2 else 0) + 4 + (if io then 8 else 0)

abbrev pub paddr_of : Option (ℕ × Bool) → ℕ
paddr_of none = 0
paddr_of (some (pa, io)) = pa

-- `1 << shift` in a byte.
abbrev pub access_size : MemInfo → ℕ
access_size a = 2 ^ a.size_shift % 256

-- The array of 64 bytes after extract_mem_value. What an operand leaves behind its size from an
-- earlier use of its place is never written out, and stands as 0.
abbrev pub extracted : Option (List ℕ) → List ℕ
extracted none = replicate 64 0
extracted (some bytes) = overlay bytes (replicate 64 0)

abbrev pub is_some : Option (List ℕ) → Bool
is_some none = false
is_some (some bytes) = true

module _ (k : Config) where
  abbrev pub is_user : InsnMeta → Bool
  is_user m = ltb m.vaddr k.kernel_addr_thresh

  abbrev pub looked_up : MemInfo → Option (ℕ × Bool)
  looked_up a = if k.capture_pa then a.hwaddr else none

  abbrev pub value_read : MemInfo → Option (List ℕ)
  value_read a = if k.capture_values && leb (access_size a) value_api_cap then a.value else none

  -- The operand of an access at `vaddr`.
  unfoldable pub mem_op_of : ℕ → MemInfo → MemOp
  mem_op_of vaddr a = record {
    address = vaddr;
    paddr = paddr_of (looked_up a);
    size = access_size a;
    flags = memop_flags a.is_store (is_some (value_read a)) (looked_up a);
    value = extracted (value_read a);
  }

  abbrev pub count_lookup : MemInfo → PluginGlobals → PluginGlobals
  count_lookup a g =
      if k.capture_pa
      then elim a.hwaddr [
        | none ↦ record g { pa_invalid_count = inc g.pa_invalid_count }
        | some (pa, io) ↦ if io then record g { pa_io_count = inc g.pa_io_count } else g
      ]
      else g

  module _ (z : ChunkFiles) where
    -- Either a `return`, or on with the callback.
    pub data Flow : Type 0 where
      returned : VcpuState z → Flow
      goes_on : VcpuState z → Flow

    abbrev pub and_then : (VcpuState z → Flow) → Flow → Flow
    and_then f (returned vs) = returned vs
    and_then f (goes_on vs) = f vs

    abbrev pub ended : Flow → VcpuState z
    ended (returned vs) = vs
    ended (goes_on vs) = vs

    -- The next window or chunk; without a file the vCPU stops.
    abbrev pub or_stop : VcpuState z × Bool → Flow
    or_stop (vs, ok) =
        if ok
        then goes_on vs
        else returned (record vs { chunk_insn_count = 0; limit_reached = true })

    abbrev pub next_window : VcpuState z → Flow
    next_window vs = or_stop (
        open_chunk z k (record vs {
          sample_skipping = false;
          sample_phase_insns = 0;
          chunk_index = (vs.chunk_index + 1) % 2 ^ 32;
        }))

    -- The instruction is skipped, or starts the next window.
    abbrev pub pass_gap : InsnMeta → VcpuState z → Flow
    pass_gap m vs =
        if ltb vs.sample_phase_insns k.sample_gap
        then returned (record vs {
          sample_phase_insns =
              if not k.sample_clock_user || is_user m
              then inc vs.sample_phase_insns
              else vs.sample_phase_insns;
        })
        else if k.sample_clock_user && not (is_user m)
        then returned vs
        else next_window vs

    unfoldable pub skip_phase : InsnMeta → VcpuState z → Flow
    unfolding finalize_pending_insn open_chunk
    skip_phase m vs =
        if ltb 0 k.sample_len
        then (if vs.sample_finished
            then returned vs
            else if vs.sample_skipping
            then pass_gap m (finalize_pending_insn z k vs)
            else goes_on vs)
        else goes_on vs

    abbrev pub window_done : VcpuState z → VcpuState z
    window_done vs = record vs {
      sample_windows_done = (vs.sample_windows_done + 1) % 2 ^ 32;
      sample_phase_insns = 0;
    }

    -- After the window is closed.
    abbrev pub after_window : InsnMeta → VcpuState z → Flow
    after_window m vs =
        if ltb 0 k.sample_count && leb k.sample_count vs.sample_windows_done
        then returned
            (record vs { sample_finished = true; limit_reached = true; chunk_insn_count = 0 })
        else pass_gap m (record vs { sample_skipping = true })

    unfoldable pub window_boundary : InsnMeta → VcpuState z → Flow
    unfolding close_chunk open_chunk
    window_boundary m vs =
        if ltb 0 k.sample_len && not vs.sample_skipping && leb k.sample_len vs.chunk_insn_count
        then after_window m (window_done (close_chunk z k vs))
        else goes_on vs

    unfoldable pub check_limit : VcpuState z → Flow
    unfolding flush_buffer
    check_limit vs =
        if ltb 0 k.insn_limit && leb k.insn_limit vs.insn_count
        then returned (flush_buffer z k (record vs { limit_reached = true }))
        else goes_on vs

    unfoldable pub rotate : VcpuState z → Flow
    unfolding close_chunk open_chunk
    rotate vs =
        if ltb 0 k.rotate_interval && leb k.rotate_interval vs.chunk_insn_count
        then (let vs' = close_chunk z k vs in
            or_stop (open_chunk z k (record vs' { chunk_index = (vs'.chunk_index + 1) % 2 ^ 32 })))
        else goes_on vs

    abbrev pub pending_of : InsnMeta → Insn
    pending_of m = record {
      privilege = if is_user m then 0 else 1;
      ip = m.vaddr;
      bytes = m.bytes;
      mem_ops = [];
    }

    -- insn_exec_cb on the state of a traced vCPU, when tracing is enabled.
    unfoldable pub record_insn : InsnMeta → VcpuState z → VcpuState z
    unfolding skip_phase finalize_pending_insn window_boundary check_limit rotate
    record_insn m vs =
        if vs.limit_reached
        then vs
        else ended (
            and_then (λ vs. goes_on (record vs { pending = some (pending_of m) }))
              (and_then rotate (
                and_then check_limit (
                  and_then (λ vs. window_boundary m (finalize_pending_insn z k vs))
                    (skip_phase m (record vs { stream_insns = inc vs.stream_insns }))))))

    -- check_trigger: `found` is whether the trigger file is there.
    abbrev pub check_trigger : Bool → PluginGlobals → PluginGlobals
    check_trigger found g = if found then record g { tracing_enabled = true } else g

    abbrev pub dormant : Bool → PluginGlobals → PluginGlobals
    dormant found g =
        let g' = record g {
          trigger_skipped_insns = inc g.trigger_skipped_insns;
          trigger_check_counter = inc g.trigger_check_counter;
        } in
        if leb trigger_check_interval g'.trigger_check_counter
        then check_trigger found (record g' { trigger_check_counter = 0 })
        else g'

    unfoldable pub insn_exec_cb :
        Bool → InsnMeta → PluginGlobals × VcpuState z → PluginGlobals × VcpuState z
    unfolding record_insn
    insn_exec_cb found m (g, vs) =
        if not g.tracing_enabled
        then (dormant found g, vs)
        else if g.profile_mode
        then (
          record g {
            profile_total_insns = inc g.profile_total_insns;
            profile_user_insns =
                if is_user m then inc g.profile_user_insns else g.profile_user_insns;
          },
          vs,
        )
        else (g, record_insn m vs)

    -- The access is recorded, if there is room.
    abbrev pub add_mem_op :
        ℕ → MemInfo → Insn → PluginGlobals × VcpuState z → PluginGlobals × VcpuState z
    add_mem_op vaddr a i (g, vs) =
        if leb max_mem_ops (length i.mem_ops)
        then (record g { memops_dropped = inc g.memops_dropped }, vs)
        else (
          count_lookup a g,
          record vs { pending = some (record i { mem_ops = i.mem_ops ++ mem_op_of vaddr a ∷ [] }) },
        )

    unfoldable pub mem_cb : ℕ → MemInfo → PluginGlobals × VcpuState z → PluginGlobals × VcpuState z
    unfolding mem_op_of
    mem_cb vaddr a (g, vs) =
        if not g.tracing_enabled
        then (g, vs)
        else if vs.limit_reached
        then (g, vs)
        else elim vs.pending [ none ↦ (g, vs) | some i ↦ add_mem_op vaddr a i (g, vs) ]
