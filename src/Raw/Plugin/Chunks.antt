-- ===== src/Raw/Plugin/Chunks.antt =====
-- The buffer, the pending instruction and the chunks.
use champsim_infra.Prelude.{
  ℕ, ◌+◌, ◌-◌, ◌%◌, ◌^◌, ◌&&◌, Bool, true, false, Option, none, some, List, [], ◌∷◌, ◌++◌, length,
  ltb, inc, is_empty, ◌==◌, if◌then◌else◌,
}
use champsim_infra.Raw.Record.{Insn, MemOp, has_value}
use champsim_infra.Raw.Plugin.Serial.{insn_bytes, file_header}
use champsim_infra.Raw.Plugin.State.{
  Config, chunking_active, ChunkFiles, Row, flush_threshold, VcpuState,
}

-- A 64-bit sum.
abbrev pub plus64 : ℕ → ℕ → ℕ
plus64 a b = (a + b) % 2 ^ 64

-- The operands whose value is written.
abbrev pub count_values : List MemOp → ℕ
count_values [] = 0
count_values (m ∷ ms) = (if has_value m.flags then 1 else 0) + count_values ms

module _ (z : ChunkFiles) (k : Config) where
  abbrev pub flush_into : VcpuState z → z.W × ℕ → VcpuState z
  flush_into vs (w, n) = record vs {
    inbuf = [];
    chunk = some w;
    bytes_compressed = plus64 vs.bytes_compressed n;
    bytes_uncompressed = plus64 vs.bytes_uncompressed (length vs.inbuf);
  }

  unfoldable pub flush_buffer : VcpuState z → VcpuState z
  flush_buffer vs = elim vs.chunk [
    | none ↦ vs
    | some w ↦ if is_empty vs.inbuf then vs else flush_into vs (z.feed vs.inbuf w)
  ]

  abbrev pub finish_into : VcpuState z → z.W × ℕ → VcpuState z
  finish_into vs (w, n) = record vs {
    chunk = some w;
    bytes_compressed = plus64 vs.bytes_compressed n;
  }

  unfoldable pub flush_final : VcpuState z → VcpuState z
  unfolding flush_buffer
  flush_final vs =
      let vs' = flush_buffer vs in
      elim vs'.chunk [ none ↦ vs' | some w ↦ finish_into vs' (z.finish w) ]

  unfoldable pub buffer_append : List ℕ → VcpuState z → VcpuState z
  unfolding flush_buffer
  buffer_append bytes vs =
      let vs' =
        if ltb flush_threshold (length vs.inbuf + length bytes) then flush_buffer vs else vs in
      record vs' { inbuf = vs'.inbuf ++ bytes }

  abbrev pub count_recorded : Insn → VcpuState z → VcpuState z
  count_recorded i vs = record vs {
    insn_count = inc vs.insn_count;
    chunk_insn_count = inc vs.chunk_insn_count;
    mem_op_count = plus64 vs.mem_op_count (length i.mem_ops);
    values_captured = plus64 vs.values_captured (count_values i.mem_ops);
    pending = none;
  }

  unfoldable pub finalize_pending_insn : VcpuState z → VcpuState z
  unfolding buffer_append insn_bytes
  finalize_pending_insn vs = elim vs.pending [
    | none ↦ vs
    | some i ↦ count_recorded i (buffer_append (insn_bytes k.capture_pa vs.vcpu_id i) vs)
  ]

  -- The position in the execution where the chunk begins.
  abbrev pub start_of : VcpuState z → ℕ
  start_of vs =
      if ltb 0 k.sample_len
      then (if vs.stream_insns == 0 then 0 else vs.stream_insns - 1)
      else vs.insn_count

  abbrev pub begun_chunk : z.W → VcpuState z → VcpuState z
  begun_chunk w vs =
      buffer_append (file_header vs.vcpu_id k.trace_arch k.capture_pa k.capture_values) (record vs {
        inbuf = [];
        chunk = some w;
        chunk_insn_count = 0;
        chunk_start_insn = start_of vs;
        chunk_bytes_at_open = vs.bytes_compressed;
      })

  -- The state, and whether the chunk was opened. The header goes out in one append of 16 bytes: the
  -- buffer is empty before, so none of the four appends of the source flushes it.
  unfoldable pub open_chunk : VcpuState z → VcpuState z × Bool
  unfolding buffer_append file_header
  open_chunk vs =
      elim (z.create vs.vcpu_id (if chunking_active k then some vs.chunk_index else none)) [
        | none ↦ (record vs { inbuf = []; chunk = none }, false)
        | some w ↦ (begun_chunk w vs, true)
      ]

  abbrev pub row_of : VcpuState z → Row
  row_of vs = record {
    index = vs.chunk_index;
    start_insn = vs.chunk_start_insn;
    insn_count = vs.chunk_insn_count;
    comp_bytes = (vs.bytes_compressed + 2 ^ 64 - vs.chunk_bytes_at_open) % 2 ^ 64;
  }

  abbrev pub add_row : Row → Option (List Row) → Option (List Row)
  add_row row none = none
  add_row row (some rows) = some (rows ++ row ∷ [])

  abbrev pub closed_with : Option z.W → List z.W → List z.W
  closed_with none ws = ws
  closed_with (some w) ws = ws ++ w ∷ []

  unfoldable pub close_chunk : VcpuState z → VcpuState z
  unfolding finalize_pending_insn flush_final
  close_chunk vs =
      let vs' = flush_final (finalize_pending_insn vs) in
      record vs' {
        chunk = none;
        closed = closed_with vs'.chunk vs'.closed;
        manifest =
            if chunking_active k && ltb 0 vs'.chunk_insn_count
            then add_row (row_of vs') vs'.manifest
            else vs'.manifest;
      }
