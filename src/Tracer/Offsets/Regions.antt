-- ===== src/Tracer/Offsets/Regions.antt =====
-- The walk over the regions of -offsets.
use champsim_infra.Prelude.{
  ℕ, zero, suc, ◌+◌, ◌-◌, ◌%◌, ◌^◌, ◌<◌, ◌≤◌, ◌≡◌, ◌≢◌, refl, ap, Bool, true, false, List, [], ◌∷◌,
  length, get_or, is_empty, arith,
}
use champsim_infra.Tracer.Offsets.{regions_apart, validate_offsets}
use champsim_infra.Tracer.State.{tracing, inter_skip, Knobs, SampleFile, Globals, ThreadState}
use champsim_infra.Tracer.Phases.{Both, finish_sample}

apart-gap :
    (tc : ℕ) (os : List ℕ) (n : ℕ)
    → regions_apart tc os ≡ true
    → n + 1 < length os
    → (get_or os n 0 < get_or os (suc n) 0) × (get_or os n 0 + tc ≤ get_or os (suc n) 0)
unfolding regions_apart
apart-gap tc [] n e h = absurd (omega arith)
apart-gap tc (x ∷ []) n e h = absurd (omega arith)
apart-gap tc (x ∷ y ∷ os) zero e h = ground (arith)
apart-gap tc (x ∷ y ∷ os) (suc n) e h = apart-gap tc (y ∷ os) n (ground (arith)) (omega arith)

-- In a list that is accepted each region ends before the next one begins.
pub validate_offsets-gap :
    (use_markers : Bool) (initial_skip inter_sample_skip tc : ℕ) (os : List ℕ) (n : ℕ)
    → validate_offsets use_markers initial_skip inter_sample_skip tc os ≡ true
    → n + 1 < length os
    → (get_or os n 0 < get_or os (suc n) 0) × (get_or os n 0 + tc ≤ get_or os (suc n) 0)
unfolding validate_offsets
validate_offsets-gap m i s tc os n e h = apart-gap tc os n (ground (arith)) h

not_empty : (os : List ℕ) → 0 < length os → is_empty os ≡ false
not_empty [] h = absurd (omega arith)
not_empty (x ∷ os) h = refl

module _ (k : Knobs) (f : SampleFile) where
  -- Where a thread goes after region `n`.
  pub record SeeksNext (n : ℕ) (p : Both k f × Bool) : Type 0 where
    pub adjacent :
        get_or k.offsets n 0 + k.trace_instructions ≡ get_or k.offsets (suc n) 0
        → (p.1 ≡ true) × (p.0.1.phase ≡ tracing) × (p.0.1.counter ≡ k.trace_instructions)
    pub apart :
        get_or k.offsets n 0 + k.trace_instructions ≢ get_or k.offsets (suc n) 0
        → (p.1 ≡ false)
          × (p.0.1.phase ≡ inter_skip)
          × (get_or k.offsets n 0 + k.trace_instructions + p.0.1.counter
              ≡ get_or k.offsets (suc n) 0)

  -- With a list of offsets that `validate_offsets` accepts, the end of sample n, if it is not the
  -- last, makes the thread trace on if region n + 1 begins where region n ends, and else go to
  -- INTER_SKIP with its counter set to the number of instructions between them.
  pub finish_sample-SeeksNext :
      (g : Globals) (t : ThreadState f)
      → validate_offsets k.use_markers k.initial_instrs k.inter_instrs k.trace_instructions
          k.offsets
        ≡ true
      → t.sample_limit ≡ length k.offsets
      → t.trace_per_sample ≡ k.trace_instructions
      → t.samples_collected + 1 < length k.offsets
      → length k.offsets < 2 ^ 64
      → get_or k.offsets (suc t.samples_collected) 0 < 2 ^ 64
      → SeeksNext t.samples_collected (finish_sample k f (g, t))
  unfolding finish_sample
  finish_sample-SeeksNext g t v l tr h small bound =
      let n : ℕ = t.samples_collected in
      let gap =
        validate_offsets-gap k.use_markers k.initial_instrs k.inter_instrs k.trace_instructions
          k.offsets n v h in
      let next : (n + 1) % 2 ^ 64 ≡ suc n = omega arith in
      let at = ap (λ j. get_or k.offsets j 0) next in
      let at' =
        ap (λ j. get_or k.offsets j 0) {x = (n + 1) % 2 ^ 64 - 1} {y = n} (omega (arith, next)) in
      let listed : is_empty k.offsets ≡ false = not_empty k.offsets (omega arith) in
      record {
        adjacent = λ e. ground (arith, gap, next, at, at', listed, l, tr);
        apart = λ e. ground (arith, gap, next, at, at', listed, l, tr);
      }
