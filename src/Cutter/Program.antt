-- ===== src/Cutter/Program.antt =====
-- The rest of trace_cutter.cpp's `main`: the input file, the decompression loop, the last chunk.
-- What the summary prints stands in the state that `main` ends with; the times are not modelled.
pub mod Stream
pub mod Correct
use champsim_infra.Prelude.{
  ℕ, zero, suc, ◌+◌, ◌*◌, ◌&&◌, Bool, true, false, not, Option, none, some, List, [], ◌∷◌, length,
  drop, is_empty, if◌then◌else◌, ℤ, Outcome, done, exit, stuck, ◌>>=◌,
}
use champsim_infra.Cutter.Codec.{Codec}
use champsim_infra.Cutter.Writer.{ChunkWriter, fresh, init_once}
use champsim_infra.Cutter.Args.{Args, Opt, defaults, parse_args}
use champsim_infra.Cutter.Chunker.{State, start, consume_decompressed, finalize_current_chunk}
use Stream.{Decoder, Output}

-- What `main` finds on the machine: the input file's bytes, if it can be opened and mapped, and
-- whether the output directory is there after fs::create_directories.
pub record Machine : Type 0 where
  pub file : List ℕ → Option (List ℕ)
  pub has_dir : List ℕ → Bool
  pub atoi : List ℕ → ℤ

module _ (z : Codec) (d : Decoder) where
  -- The decompression loop: `rest` is the input from `zin.pos` on.
  pub decompress : ℕ → Args → List ℕ → d.DCtx → State z → Outcome (State z)
  decompress zero a rest c s = stuck
  decompress (suc fuel) a [] c s = done s
  decompress (suc fuel) a (b ∷ bs) c s = elim (d.step c (b ∷ bs)) [
    | none ↦ exit 1
    | some r ↦
        (if is_empty r.produced then done s else consume_decompressed z a r.produced s) >>= λ s'.
        decompress fuel a (drop r.consumed (b ∷ bs)) r.ctx s'
  ]

  -- Enough rounds: each reads a byte or hands out what was held back.
  abbrev pub decompress_fuel : List ℕ → ℕ
  decompress_fuel input = length input * suc d.most_pending + d.most_pending + 1

  -- `main` after the arguments, on an input that is not empty.
  pub cut : Args → List ℕ → Outcome (State z)
  unfolding decompress
  cut a input = elim d.create [
    | none ↦ exit 1
    | some c ↦ do
      w ← if a.dry_run then done (fresh z) else init_once z a.level a.workers (fresh z)
      s ← decompress (decompress_fuel input) a input c (start z w)
      finalize_current_chunk z a s
  ]

  pub run : Machine → Args → Outcome (State z)
  unfolding cut
  run m a = elim (m.file a.input) [
    | none ↦ exit 1
    | some input ↦
        if is_empty input
        then exit 1
        else if not a.dry_run && not (m.has_dir a.outdir)
        then exit 1
        else cut a input
  ]

  pub main : Machine → List Opt → Outcome (State z)
  unfolding run
  main m opts = parse_args m.atoi defaults opts >>= elim [ none ↦ exit 1 | some a ↦ run m a ]
