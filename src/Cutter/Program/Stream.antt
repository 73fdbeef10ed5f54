-- ===== src/Cutter/Program/Stream.antt =====
-- What `main` uses of ZSTD_decompressStream, as parameters.
use champsim_infra.Prelude.{
  ℕ, ◌≤◌, ◌<◌, ◌≡◌, ◌≢◌, ◌⊎◌, Option, some, List, [], ◌++◌, take, drop, length,
}

-- What one call did: the context after it, the input bytes read and the output.
pub record Output (C : Type 0) : Type 0 where
  pub ctx : C
  pub consumed : ℕ
  pub produced : List ℕ

-- ZSTD_createDCtx and ZSTD_decompressStream with a fresh output buffer, given the rest of the input;
-- `none` is a null context or a ZSTD_isError code.
pub record Decoder : Type 1 where
  pub DCtx : Type 0
  pub create : Option DCtx
  pub step : DCtx → List ℕ → Option (Output DCtx)
  pub most_pending : ℕ

-- The documented behaviour, with `decode` what the whole input decompresses to. The last byte of
-- the input is not read before everything is handed out.
pub record DecoderLaws (d : Decoder) : Type 0 where
  pub taken : d.DCtx → List ℕ
  pub given : d.DCtx → List ℕ
  pub pending : d.DCtx → ℕ
  pub decode : List ℕ → Option (List ℕ)
  pub pending_bound : (c : d.DCtx) → pending c ≤ d.most_pending
  pub taken-create : (c : d.DCtx) → d.create ≡ some c → taken c ≡ []
  pub given-create : (c : d.DCtx) → d.create ≡ some c → given c ≡ []
  pub taken-step :
      (c : d.DCtx) (src : List ℕ) (r : Output d.DCtx)
      → d.step c src ≡ some r
      → taken r.ctx ≡ taken c ++ take r.consumed src
  pub given-step :
      (c : d.DCtx) (src : List ℕ) (r : Output d.DCtx)
      → d.step c src ≡ some r
      → given r.ctx ≡ given c ++ r.produced
  pub progress :
      (c : d.DCtx) (src : List ℕ) (r : Output d.DCtx)
      → d.step c src ≡ some r
      → src ≢ []
      → (0 < r.consumed) ⊎ (pending r.ctx < pending c)
  pub flushed :
      (c : d.DCtx) (src : List ℕ) (r : Output d.DCtx)
      → d.step c src ≡ some r
      → src ≢ []
      → drop r.consumed src ≡ []
      → decode (taken r.ctx) ≡ some (given r.ctx)
  -- no more is handed out than the input holds
  pub within :
      (c : d.DCtx) (rest plain : List ℕ)
      → decode (taken c ++ rest) ≡ some plain
      → length (given c) ≤ length plain
