-- ===== src/Cutter/Codec.antt =====
-- What trace_cutter.cpp uses of libzstd and of stdio, as parameters: a compression context and its
-- calls, and the answers of fopen and fwrite. A file's contents are a list of bytes.
use champsim_infra.Prelude.{ℕ, ◌≤◌, ◌<◌, ◌≡◌, ◌≢◌, ◌⊎◌, Bool, Option, some, List, [], ◌++◌, take, ℤ}

-- What one ZSTD_compressStream2 call did: the context after it, how much of the input it read, the
-- bytes in the output buffer, and its return value.
pub record Call (C : Type 0) : Type 0 where
  pub ctx : C
  pub consumed : ℕ
  pub produced : List ℕ
  pub rc : ℕ

-- ZSTD_createCCtx, ZSTD_CCtx_setParameter (level, workers), ZSTD_CCtx_reset, and
-- ZSTD_compressStream2 with ZSTD_e_continue and with ZSTD_e_end on an empty input. `none` is a null
-- context or a ZSTD_isError code. `most_pending` bounds what the context holds back.
pub record Codec : Type 1 where
  pub Ctx : Type 0
  pub create : Option Ctx
  pub set_level : ℤ → Ctx → Option Ctx
  pub set_workers : ℤ → Ctx → Option Ctx
  pub reset : Ctx → Ctx
  pub continue : Ctx → List ℕ → Option (Call Ctx)
  pub end : Ctx → Option (Call Ctx)
  pub most_pending : ℕ
  -- fopen for writing, and how many of the given bytes fwrite appends to what the file holds
  pub can_open : List ℕ → Bool
  pub fwrite : List ℕ → List ℕ → ℕ

-- The documented behaviour. `fed` and `emitted` are the input and the output of the session,
-- `pending` what it still holds back, `decode` the decompressor.
pub record CodecLaws (z : Codec) : Type 0 where
  pub fed : z.Ctx → List ℕ
  pub emitted : z.Ctx → List ℕ
  pub pending : z.Ctx → ℕ
  pub decode : List ℕ → Option (List ℕ)
  pub pending_bound : (c : z.Ctx) → pending c ≤ z.most_pending
  pub fed-reset : (c : z.Ctx) → fed (z.reset c) ≡ []
  pub emitted-reset : (c : z.Ctx) → emitted (z.reset c) ≡ []
  pub fed-continue :
      (c : z.Ctx) (src : List ℕ) (r : Call z.Ctx)
      → z.continue c src ≡ some r
      → fed r.ctx ≡ fed c ++ take r.consumed src
  pub emitted-continue :
      (c : z.Ctx) (src : List ℕ) (r : Call z.Ctx)
      → z.continue c src ≡ some r
      → emitted r.ctx ≡ emitted c ++ r.produced
  -- forward progress: input is read, or what was held back is flushed
  pub progress-continue :
      (c : z.Ctx) (src : List ℕ) (r : Call z.Ctx)
      → z.continue c src ≡ some r
      → src ≢ []
      → (0 < r.consumed) ⊎ (pending r.ctx < pending c)
  pub fed-end : (c : z.Ctx) (r : Call z.Ctx) → z.end c ≡ some r → fed r.ctx ≡ fed c
  pub emitted-end :
      (c : z.Ctx) (r : Call z.Ctx) → z.end c ≡ some r → emitted r.ctx ≡ emitted c ++ r.produced
  pub progress-end :
      (c : z.Ctx) (r : Call z.Ctx) → z.end c ≡ some r → r.rc ≢ 0 → pending r.ctx < pending c
  -- a return value of 0 says that the frame is complete
  pub decode-end :
      (c : z.Ctx) (r : Call z.Ctx)
      → z.end c ≡ some r
      → r.rc ≡ 0
      → decode (emitted r.ctx) ≡ some (fed r.ctx)
