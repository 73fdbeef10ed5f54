-- ===== src/Cutter/Chunker.antt =====
-- The lambdas of trace_cutter.cpp's `main`: from decompressed blocks to chunks of records.
pub mod Progress
pub mod Emit
pub mod Blocks
pub mod Writers
pub mod Finish
use champsim_infra.Prelude.{
  ℕ, zero, suc, ◌+◌, ◌-◌, ◌*◌, ◌/◌, ◌%◌, ◌^◌, min, Bool, true, false, not, List, [], ◌∷◌, ◌++◌,
  length, take, drop, ltb, leb, ◌==◌, if◌then◌else◌, is_empty, Outcome, done, stuck, ◌>>=◌,
}
use champsim_infra.Cutter.Codec.{Codec}
use champsim_infra.Cutter.Writer.{ChunkWriter, open_chunk, write_records, close_chunk}
use champsim_infra.Cutter.Args.{Args}
use champsim_infra.Cutter.Naming.{output_path}

abbrev pub record_size : ℕ
record_size = 512

abbrev pub heartbeat_records : ℕ
heartbeat_records = 5_000_000

-- The loop of `maybe_heartbeat`; its value is the new `next_heartbeat`.
pub heartbeat : ℕ → ℕ → ℕ → Outcome ℕ
heartbeat zero total next = stuck
heartbeat (suc fuel) total next = elim (leb next total) [
  | true ↦ heartbeat fuel total ((next + heartbeat_records) % 2 ^ 64)
  | false ↦ done next
]

module _ (z : Codec) where
  -- The variables of `main` that the lambdas share. `carry` holds its first `carry_len` bytes.
  pub record State : Type 0 where
    pub writer : ChunkWriter z
    pub carry : List ℕ
    pub total_records : ℕ
    pub chunk_records : ℕ
    pub part_idx : ℕ
    pub writer_open : Bool
    pub next_heartbeat : ℕ
    pub chunk_records_list : List ℕ
    pub chunk_bytes_list : List ℕ

  abbrev pub start : ChunkWriter z → State
  start w = record {
    writer = w;
    carry = [];
    total_records = 0;
    chunk_records = 0;
    part_idx = 0;
    writer_open = false;
    next_heartbeat = heartbeat_records;
    chunk_records_list = [];
    chunk_bytes_list = [];
  }

  -- A writer call that a dry run leaves out.
  abbrev pub unless_dry :
      Args → (ChunkWriter z → Outcome (ChunkWriter z)) → ChunkWriter z → Outcome (ChunkWriter z)
  unless_dry a call w = if a.dry_run then done w else call w

  pub ensure_writer_open : Args → State → Outcome State
  ensure_writer_open a s = if s.writer_open then done s else do
    w ← unless_dry a (open_chunk z (output_path a s.part_idx)) s.writer
    done (record s { writer = w; writer_open = true })

  pub finalize_current_chunk : Args → State → Outcome State
  finalize_current_chunk a s = if not s.writer_open then done s else do
    w ← unless_dry a (close_chunk z) s.writer
    let bytes_out = if a.dry_run then 0 else w.bytes_out
    done (record s {
      writer = w;
      chunk_records_list = s.chunk_records_list ++ s.chunk_records ∷ [];
      chunk_bytes_list = s.chunk_bytes_list ++ bytes_out ∷ [];
      part_idx = (s.part_idx + 1) % 2 ^ 32;
      chunk_records = 0;
      writer_open = false;
    })

  pub maybe_heartbeat : State → Outcome State
  unfolding heartbeat
  maybe_heartbeat s = do
    next ← heartbeat (suc s.total_records) s.total_records s.next_heartbeat
    done (record s { next_heartbeat = next })

  -- Room in the current chunk, in uint64_t.
  abbrev pub room : Args → State → ℕ
  room a s = (a.chunk_records + 2 ^ 64 - s.chunk_records) % 2 ^ 64

  -- One round of `emit_records`'s loop, which hands over `taken` records.
  pub emit_round : Args → List ℕ → ℕ → State → Outcome State
  unfolding finalize_current_chunk maybe_heartbeat
  emit_round a p taken s = do
    w ← unless_dry a (write_records z (take (taken * record_size) p)) s.writer
    let s' = record s {
      writer = w;
      chunk_records = (s.chunk_records + taken) % 2 ^ 64;
      total_records = (s.total_records + taken) % 2 ^ 64;
    }
    s'' ← if s'.chunk_records == a.chunk_records then finalize_current_chunk a s' else done s'
    maybe_heartbeat s''

  -- `emit_records`, where `p` is the buffer from `off` on.
  pub emit_from : ℕ → Args → List ℕ → ℕ → State → Outcome State
  unfolding emit_round ensure_writer_open
  emit_from zero a p nrec s = stuck
  emit_from (suc fuel) a p nrec s = elim (nrec == 0) [
    | true ↦ done s
    | false ↦ do
      s₁ ← ensure_writer_open a s
      let taken = min nrec (room a s₁)
      s₂ ← emit_round a p taken s₁
      emit_from fuel a (drop (taken * record_size) p) (nrec - taken) s₂
  ]

  pub emit_records : Args → List ℕ → ℕ → State → Outcome State
  unfolding emit_from
  emit_records a p nrec s = emit_from (suc nrec) a p nrec s

  -- The end of `consume_decompressed`: whole records, then the rest into the carry.
  pub consume_aligned : Args → List ℕ → State → Outcome State
  unfolding emit_records
  consume_aligned a p s = do
    let whole = length p / record_size
    s' ← if ltb 0 whole then emit_records a p whole s else done s
    let tail = drop (whole * record_size) p
    done (if is_empty tail then s' else record s' { carry = tail })

  pub consume_decompressed : Args → List ℕ → State → Outcome State
  unfolding consume_aligned
  consume_decompressed a dp s =
      if is_empty s.carry
      then consume_aligned a dp s
      else if ltb (length dp) (record_size - length s.carry)
      then done (record s { carry = s.carry ++ dp })
      else do
        let need = record_size - length s.carry
        s' ← emit_records a (s.carry ++ take need dp) 1 (record s { carry = [] })
        consume_aligned a (drop need dp) s'

  -- The blocks of the decompression loop, one after another.
  pub consume_all : Args → List (List ℕ) → State → Outcome State
  unfolding consume_decompressed
  consume_all a [] s = done s
  consume_all a (block ∷ blocks) s = do s' ← consume_decompressed a block s; consume_all a blocks s'
