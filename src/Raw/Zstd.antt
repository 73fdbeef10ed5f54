-- ===== src/Raw/Zstd.antt =====
-- The loops by which the plugin, the filter and the converter feed zstd and write what it gives to a
-- file. Parameters are one call of ZSTD_compressStream2 and one of fwrite.
pub mod Session
pub mod Content
use champsim_infra.Prelude.{
  ℕ, zero, suc, ◌+◌, ◌*◌, ◌≤◌, ◌<◌, ◌≡◌, ◌≢◌, ◌⊎◌, ◌||◌, Bool, true, false, Option, none, some,
  List, [], ◌∷◌, ◌++◌, length, take, drop, ◌==◌,
}
use champsim_infra.Cutter.Codec.{Call}

-- `compress` is one call of ZSTD_compressStream2 with the rest of the input, with ZSTD_e_end if the
-- first argument is true and else ZSTD_e_continue, on an output buffer of the program's size; `none`
-- is a ZSTD_isError code. `fwrite` is how many of the given bytes are appended to what the file
-- holds, and `most_pending` bounds what a context holds back.
pub record Zstd : Type 1 where
  pub Ctx : Type 0
  pub compress : Bool → Ctx → List ℕ → Option (Call Ctx)
  pub most_pending : ℕ
  pub fwrite : List ℕ → List ℕ → ℕ

-- The documented behaviour. `fed` and `emitted` are the input and the output of a context, `pending`
-- what it still holds back, `decode` the decompressor. A call may take a part of its input only.
pub record ZstdLaws (z : Zstd) : Type 0 where
  pub fed : z.Ctx → List ℕ
  pub emitted : z.Ctx → List ℕ
  pub pending : z.Ctx → ℕ
  pub decode : List ℕ → Option (List ℕ)
  pub pending_bound : (c : z.Ctx) → pending c ≤ z.most_pending
  pub fed-compress :
      (e : Bool) (c : z.Ctx) (src : List ℕ) (r : Call z.Ctx)
      → z.compress e c src ≡ some r
      → fed r.ctx ≡ fed c ++ take r.consumed src
  pub emitted-compress :
      (e : Bool) (c : z.Ctx) (src : List ℕ) (r : Call z.Ctx)
      → z.compress e c src ≡ some r
      → emitted r.ctx ≡ emitted c ++ r.produced
  -- forward progress: input is read, or what was held back is flushed
  pub progress-continue :
      (c : z.Ctx) (src : List ℕ) (r : Call z.Ctx)
      → z.compress false c src ≡ some r
      → src ≢ []
      → (0 < r.consumed) ⊎ (pending r.ctx < pending c)
  pub progress-end :
      (c : z.Ctx) (src : List ℕ) (r : Call z.Ctx)
      → z.compress true c src ≡ some r
      → r.rc ≢ 0
      → (length (drop r.consumed src) < length src) ⊎ (pending r.ctx < pending c)
  -- a return value of 0 says that the input is read and the frame is complete
  pub complete-end :
      (c : z.Ctx) (src : List ℕ) (r : Call z.Ctx)
      → z.compress true c src ≡ some r
      → r.rc ≡ 0
      → (take r.consumed src ≡ src) × (decode (emitted r.ctx) ≡ some (fed r.ctx))

module _ (z : Zstd) where
  -- No call of zstd fails, and no write is short.
  pub record NoFailure : Type 0 where
    pub no_error :
        (e : Bool) (c : z.Ctx) (src : List ℕ) → (r : Call z.Ctx) × (z.compress e c src ≡ some r)
    pub no_short_write : (file out : List ℕ) → z.fwrite file out ≡ length out

  -- The context and what the file holds.
  pub record OutFile : Type 0 where
    pub ctx : z.Ctx
    pub bytes : List ℕ

  -- The output of a call goes to the file; a call without output appends nothing.
  abbrev pub put : Call z.Ctx → OutFile → OutFile
  put r f = record { ctx = r.ctx; bytes = f.bytes ++ take (z.fwrite f.bytes r.produced) r.produced }

  -- `while (input.pos < input.size)`, with a `break` at an error and with the number of bytes that the
  -- calls produced. fwrite is not checked. `src` is what is left of the input.
  unfoldable pub feed_loop : ℕ → List ℕ → OutFile → ℕ → OutFile × ℕ
  feed_loop zero src f n = (f, n)
  feed_loop (suc fuel) [] f n = (f, n)
  feed_loop (suc fuel) (b ∷ bs) f n = elim (z.compress false f.ctx (b ∷ bs)) [
    | none ↦ (f, n)
    | some r ↦ feed_loop fuel (drop r.consumed (b ∷ bs)) (put r f) (n + length r.produced)
  ]

  -- Enough rounds for every context: each reads a byte or flushes one.
  abbrev pub rounds : List ℕ → ℕ
  rounds src = length src * suc z.most_pending + z.most_pending + 1

  unfoldable pub feed_all : List ℕ → OutFile → OutFile × ℕ
  unfolding feed_loop
  feed_all src f = feed_loop (rounds src) src f 0

  -- `do ... while (ret > 0)` with ZSTD_e_end and no input, in the same way.
  unfoldable pub finish_loop : ℕ → OutFile → ℕ → OutFile × ℕ
  finish_loop zero f n = (f, n)
  finish_loop (suc fuel) f n = elim (z.compress true f.ctx []) [
    | none ↦ (f, n)
    | some r ↦ elim (r.rc == 0) [
      | true ↦ (put r f, n + length r.produced)
      | false ↦ finish_loop fuel (put r f) (n + length r.produced)
    ]
  ]

  unfoldable pub finish_all : OutFile → OutFile × ℕ
  unfolding finish_loop
  finish_all f = finish_loop (suc z.most_pending) f 0

  -- Whether a call's output was written, as raw2champsim.c checks it.
  abbrev pub wrote_all : Call z.Ctx → OutFile → Bool
  wrote_all r f = length r.produced == 0 || z.fwrite f.bytes r.produced == length r.produced

  -- The do loop of writer_flush in raw2champsim.c with ZSTD_e_continue: the `break` at its end leaves
  -- it after one call, whatever that took of the input.
  unfoldable pub continue_once : List ℕ → OutFile → Option OutFile
  continue_once src f = elim (z.compress false f.ctx src) [
    | none ↦ none
    | some r ↦ elim (wrote_all r f) [ true ↦ some (put r f) | false ↦ none ]
  ]

  -- The same loop with ZSTD_e_end.
  unfoldable pub end_loop : ℕ → List ℕ → OutFile → Option OutFile
  end_loop zero src f = none
  end_loop (suc fuel) src f = elim (z.compress true f.ctx src) [
    | none ↦ none
    | some r ↦ elim (wrote_all r f) [
      | true ↦ elim (r.rc == 0) [
        | true ↦ some (put r f)
        | false ↦ end_loop fuel (drop r.consumed src) (put r f)
      ]
      | false ↦ none
    ]
  ]

  unfoldable pub end_all : List ℕ → OutFile → Option OutFile
  unfolding end_loop
  end_all src f = end_loop (rounds src) src f
