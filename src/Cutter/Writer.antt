-- ===== src/Cutter/Writer.antt =====
-- `ChunkWriter`: one compression context, used for one output file after another.
pub mod Session
pub mod Setup
use champsim_infra.Prelude.{
  ℕ, zero, suc, ◌+◌, ◌*◌, ◌%◌, ◌^◌, ◌≡◌, Bool, true, false, ◌||◌, Option, none, some, List, [], ◌∷◌,
  ◌++◌, length, take, drop, ◌==◌, ℤ, is_positive, if◌then◌else◌, Outcome, done, exit, stuck, ◌>>=◌,
  require,
}
use champsim_infra.Cutter.Codec.{Codec, Call}

-- A file that was closed: its path and what was written to it.
pub record Closed : Type 0 where
  pub path : List ℕ
  pub bytes : List ℕ

module _ (z : Codec) where
  -- `out_buf` and `io_buf` are scratch space and hold nothing between calls. `disk` is not of the
  -- struct: it lists the files closed so far.
  pub record ChunkWriter : Type 0 where
    -- what the open file holds, `none` for a null `fp`
    pub fp : Option (List ℕ)
    -- `none` for a null context
    pub cctx : Option z.Ctx
    pub path : List ℕ
    pub bytes_out : ℕ
    pub disk : List Closed

  -- The default member initialisers.
  abbrev pub fresh : ChunkWriter
  fresh = record { fp = none; cctx = none; path = []; bytes_out = 0; disk = [] }

  -- An error of the level is fatal, one of the workers is a warning.
  pub set_params : ℤ → ℤ → ChunkWriter → z.Ctx → Outcome ChunkWriter
  set_params level workers w c = elim (z.set_level level c) [
    | none ↦ exit 1
    | some c' ↦
        if is_positive workers
        then (elim (z.set_workers workers c') [
          | none ↦ done (record w { cctx = some c' })
          | some c'' ↦ done (record w { cctx = some c'' })
        ])
        else done (record w { cctx = some c' })
  ]

  pub init_once : ℤ → ℤ → ChunkWriter → Outcome ChunkWriter
  unfolding set_params
  init_once level workers w = elim z.create [
    | none ↦ exit 1
    | some c ↦ set_params level workers w c
  ]

  pub open_chunk : List ℕ → ChunkWriter → Outcome ChunkWriter
  open_chunk p w =
      if z.can_open p
      then (require w.cctx
          λ c. done (record w { path = p; fp = some []; cctx = some (z.reset c); bytes_out = 0 }))
      else exit 1

  -- What a call of fwrite leaves in the file.
  abbrev pub appended : List ℕ → List ℕ → List ℕ
  appended file out = file ++ take (z.fwrite file out) out

  -- The test of a short write, made only if there is output.
  abbrev pub wrote : List ℕ → List ℕ → Bool
  wrote file out = length out == 0 || z.fwrite file out == length out

  -- The state after a compression call whose output went to the file.
  abbrev pub advance : ChunkWriter → z.Ctx → List ℕ → List ℕ → ChunkWriter
  advance w c file out = record w {
    fp = some (appended file out);
    cctx = some c;
    bytes_out = (w.bytes_out + length out) % 2 ^ 64;
  }

  -- The loop of `write_records`: `src` is what is left of the input. A short write is fatal.
  pub feed : ℕ → List ℕ → List ℕ → z.Ctx → ChunkWriter → Outcome ChunkWriter
  feed zero src file c w = stuck
  feed (suc fuel) [] file c w = done w
  feed (suc fuel) (b ∷ bs) file c w = elim (z.continue c (b ∷ bs)) [
    | none ↦ exit 1
    | some r ↦ elim (wrote file r.produced) [
      | true ↦
          feed fuel (drop r.consumed (b ∷ bs)) (appended file r.produced) r.ctx
            (advance w r.ctx file r.produced)
      | false ↦ exit 1
    ]
  ]

  -- Enough rounds for every context: each reads a byte or flushes one.
  abbrev pub feed_fuel : List ℕ → ℕ
  feed_fuel src = length src * suc z.most_pending + z.most_pending + 1

  pub write_records : List ℕ → ChunkWriter → Outcome ChunkWriter
  unfolding feed
  write_records src w = require w.fp λ file. require w.cctx λ c. feed (feed_fuel src) src file c w

  -- The loop of `close_chunk`, which does not look at what fwrite returns.
  pub flush : ℕ → List ℕ → z.Ctx → ChunkWriter → Outcome ChunkWriter
  flush zero file c w = stuck
  flush (suc fuel) file c w = elim (z.end c) [
    | none ↦ exit 1
    | some r ↦ elim (r.rc == 0) [
      | true ↦ done (advance w r.ctx file r.produced)
      | false ↦ flush fuel (appended file r.produced) r.ctx (advance w r.ctx file r.produced)
    ]
  ]

  -- fclose.
  abbrev pub shut : ChunkWriter → Outcome ChunkWriter
  shut w = require w.fp λ file.
      done (record w { fp = none; disk = w.disk ++ record { path = w.path; bytes = file } ∷ [] })

  pub close_chunk : ChunkWriter → Outcome ChunkWriter
  unfolding flush
  close_chunk w =
      require w.fp λ file. require w.cctx λ c. flush (suc z.most_pending) file c w >>= shut
