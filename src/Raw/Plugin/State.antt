-- ===== src/Raw/Plugin/State.antt =====
-- The configuration and the per-vCPU state of the plugin, and its output: compressed files, one for
-- each chunk.
use champsim_infra.Prelude.{ℕ, ◌*◌, ◌-◌, ◌||◌, Bool, Option, List, ltb}
use champsim_infra.Raw.Record.{Insn}

-- The globals that the options set.
pub record Config : Type 0 where
  pub insn_limit : ℕ
  pub rotate_interval : ℕ
  pub sample_len : ℕ
  pub sample_gap : ℕ
  pub sample_count : ℕ
  pub sample_clock_user : Bool
  pub trace_arch : ℕ
  pub capture_pa : Bool
  pub capture_values : Bool
  pub kernel_addr_thresh : ℕ

abbrev pub chunking_active : Config → Bool
chunking_active k = ltb 0 k.rotate_interval || ltb 0 k.sample_len

-- ZSTD_createCCtx with fopen of a chunk's file, and the compress loops of flush_buffer and flush_final
-- with the number of bytes that zstd gave. `chunk_files_of` in Over fills it with the loops.
pub record ChunkFiles : Type 1 where
  pub W : Type 0
  pub create : ℕ → Option ℕ → Option W
  pub feed : List ℕ → W → W × ℕ
  pub finish : W → W × ℕ

-- A line of the manifest.
pub record Row : Type 0 where
  pub index : ℕ
  pub start_insn : ℕ
  pub insn_count : ℕ
  pub comp_bytes : ℕ

abbrev pub flush_threshold : ℕ
flush_threshold = 16 * 1024 * 1024 - 8192

module _ (z : ChunkFiles) where
  -- `chunk` is outfile with cctx, which are set and reset together; `closed` the files that were
  -- closed; `pending` is has_pending with the fields of the pending instruction.
  pub record VcpuState : Type 0 where
    pub inbuf : List ℕ
    pub chunk : Option z.W
    pub closed : List z.W
    pub vcpu_id : ℕ
    pub pending : Option Insn
    pub insn_count : ℕ
    pub mem_op_count : ℕ
    pub values_captured : ℕ
    pub bytes_uncompressed : ℕ
    pub bytes_compressed : ℕ
    pub limit_reached : Bool
    pub chunk_index : ℕ
    pub chunk_insn_count : ℕ
    pub chunk_start_insn : ℕ
    pub chunk_bytes_at_open : ℕ
    pub manifest : Option (List Row)
    pub sample_skipping : Bool
    pub sample_phase_insns : ℕ
    pub sample_windows_done : ℕ
    pub sample_finished : Bool
    pub stream_insns : ℕ
