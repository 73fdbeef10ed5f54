-- ===== src/Raw/Filter/Machine/Balance.antt =====
-- The statistics of the filter add up.
use champsim_infra.Prelude.{
  ℕ, ◌+◌, ◌^◌, ◌<◌, ◌≡◌, refl, sym, ap, subst, ◌∙◌, Bool, true, false, Option, List, [], ◌∷◌, ◌++◌,
  length, length-append, inc, is_empty, ◌==◌, if◌then◌else◌, arith,
}
use champsim_infra.Raw.Filter.Idle.{
  IdleBuffer, idle_buffer_init, idle_buffer_reset, idle_buffer_append,
}
use champsim_infra.Raw.Filter.Idle.Slots.{
  Holds, slots-Holds, idle_buffer_append-Holds, idle_buffer_reset-Holds,
}
use champsim_infra.Raw.Filter.Writer.{Compressor, FilterWriter, Keeps}
use champsim_infra.Raw.Filter.Framing.{Rec}
use champsim_infra.Raw.Filter.Machine.{
  Mode, active, idle_candidate, Filter, FilterStats, initial, put_out, flush_slots, flush_idle,
  flush_rest, filter_step, move, begin_candidate, wake_up, buffer_kernel, discard, count_in,
  is_kernel,
}
use champsim_infra.Raw.Filter.Machine.Kept.{run}

-- Only the kernel halts.
abbrev pub KernelHalts : List Rec → Type 0
KernelHalts [] = Unit
KernelHalts (r ∷ rs) = (r.is_hlt ≡ true → is_kernel r ≡ true) × KernelHalts rs

module _ (z : Compressor) where
  -- What was read has gone out, was discarded or is in the buffer, of which all is counted.
  record Balanced (f : Filter z) (buf : List (List ℕ)) : Type 0 where
    holds : Holds f.idle buf
    counted : f.idle.kernel_count ≡ length buf
    even : f.stats.in_total ≡ f.stats.out_total + f.stats.idle_discarded + length buf

  flush_slots-stats :
      (rs : List (List ℕ)) (f : Filter z)
      → f.stats.out_total + length rs < 2 ^ 64
      → ((flush_slots z rs f).stats.out_total ≡ f.stats.out_total + length rs)
        × ((flush_slots z rs f).stats.in_total ≡ f.stats.in_total)
        × ((flush_slots z rs f).stats.idle_discarded ≡ f.stats.idle_discarded)
        × ((flush_slots z rs f).mode ≡ f.mode)
  flush_slots-stats [] f h = (omega arith, refl, refl, refl)
  flush_slots-stats (r ∷ rs) f h =
      let (a, b, c, d) = flush_slots-stats rs (put_out z r true f) (omega (arith, h)) in
      (omega (arith, a, h), b, c, d)

  flush_idle-stats :
      (f : Filter z) (buf : List (List ℕ))
      → Holds f.idle buf
      → f.stats.out_total + length buf < 2 ^ 64
      → ((flush_idle z f).stats.out_total ≡ f.stats.out_total + length buf)
        × ((flush_idle z f).stats.in_total ≡ f.stats.in_total)
        × ((flush_idle z f).stats.idle_discarded ≡ f.stats.idle_discarded)
        × ((flush_idle z f).mode ≡ f.mode)
  flush_idle-stats f buf h small =
      subst
        (λ rs.
          ((flush_slots z rs f).stats.out_total ≡ f.stats.out_total + length buf)
          × ((flush_slots z rs f).stats.in_total ≡ f.stats.in_total)
          × ((flush_slots z rs f).stats.idle_discarded ≡ f.stats.idle_discarded)
          × ((flush_slots z rs f).mode ≡ f.mode))
        (sym (slots-Holds f.idle buf h)) (flush_slots-stats buf f small)

  -- A buffer of just this record.
  idle_buffer_append-kernel_count :
      (r : Rec) (b : IdleBuffer)
      → is_kernel r ≡ true
      → (idle_buffer_append r.bytes (is_kernel r) (idle_buffer_reset b)).kernel_count ≡ 1
  unfolding idle_buffer_append
  idle_buffer_append-kernel_count r b e = ap (λ (k : Bool). if k then inc 0 else 0) e

  idle_buffer_append-one_more :
      (bytes : List ℕ) (b : IdleBuffer)
      → b.kernel_count + 1 < 2 ^ 64
      → (idle_buffer_append bytes true b).kernel_count ≡ b.kernel_count + 1
  unfolding idle_buffer_append
  idle_buffer_append-one_more bytes b small = omega (arith, small)

  mode-ne : idle_candidate ≡ active → ⊥
  mode-ne e = subst (λ m. elim m as (λ x. Type 0) [ active ↦ ⊥ | idle_candidate ↦ Unit {0} ]) e tt

  -- The state after a record, with what it has in its buffer.
  Next : Filter z → ℕ → Type 0
  Next f n =
      (buf : List (List ℕ)) × Balanced f buf × (f.mode ≡ active → buf ≡ []) × (f.stats.in_total ≡ n)

  filter_step-Next :
      (r : Rec) (f : Filter z) (buf : List (List ℕ))
      → (r.is_hlt ≡ true → is_kernel r ≡ true)
      → (f.mode ≡ active → buf ≡ [])
      → f.stats.in_total + 1 < 2 ^ 64
      → Balanced f buf
      → Next (filter_step z r f) (f.stats.in_total + 1)
  unfolding filter_step Next
  filter_step-Next r f buf halts empty small h = with_mode f.mode refl
    where
      g : Filter z
      g = record f { stats = count_in r f.stats }

      one_more : inc f.stats.in_total ≡ f.stats.in_total + 1
      one_more = omega (arith, small)

      begins : Filter z → Filter z
      begins s = begin_candidate z r s

      new_candidate :
          (s : Filter z)
          → r.is_hlt ≡ true
          → s.stats.in_total ≡ f.stats.in_total + 1
          → s.stats.in_total ≡ s.stats.out_total + s.stats.idle_discarded + 1
          → Next (begin_candidate z r s) (f.stats.in_total + 1)
      new_candidate s t n e = (
        r.bytes ∷ [],
        record {
          holds =
              idle_buffer_append-Holds (idle_buffer_reset s.idle) [] r.bytes (is_kernel r)
                (idle_buffer_reset-Holds s.idle);
          counted = idle_buffer_append-kernel_count r s.idle (halts t);
          even = e;
        },
        λ m. absurd (mode-ne m),
        n,
      )

      as_active :
          (hlt : Bool)
          → r.is_hlt ≡ hlt
          → f.mode ≡ active
          → Next
              (if hlt then begin_candidate z r g else put_out z r.bytes (is_kernel r) g)
              (f.stats.in_total + 1)
      as_active true t e =
          new_candidate g t one_more (omega (arith, small, h.even, ap length (empty e)))
      as_active false t e = (
        buf,
        record { holds = h.holds; counted = h.counted; even = omega (arith, small, h.even) },
        empty,
        one_more,
      )

      wakes : f.mode ≡ idle_candidate → Next (wake_up z r g) (f.stats.in_total + 1)
      wakes e =
          let (a, b, c, d) = flush_idle-stats g buf h.holds (omega (arith, small, h.even)) in
          (
            [],
            record {
              holds = idle_buffer_reset-Holds (flush_idle z g).idle;
              counted = refl;
              even = omega (arith, small, h.even, a, b, c);
            },
            λ m. refl,
            b ∙ one_more,
          )

      buffers : f.mode ≡ idle_candidate → Next (buffer_kernel z r g) (f.stats.in_total + 1)
      buffers e = (
        buf ++ r.bytes ∷ [],
        record {
          holds = idle_buffer_append-Holds f.idle buf r.bytes true h.holds;
          counted =
              idle_buffer_append-one_more r.bytes f.idle (omega (arith, small, h.even, h.counted))
              ∙ omega (arith, h.counted, length-append buf (r.bytes ∷ []));
          even = omega (arith, small, h.even, length-append buf (r.bytes ∷ []));
        },
        λ m. absurd (mode-ne (sym e ∙ m)),
        one_more,
      )

      as_idle :
          (hlt user : Bool)
          → r.is_hlt ≡ hlt
          → f.mode ≡ idle_candidate
          → Next
              (if hlt
                then begin_candidate z r (discard z g)
                else if user
                then wake_up z r g
                else buffer_kernel z r g)
              (f.stats.in_total + 1)
      as_idle true user t e =
          new_candidate (discard z g) t one_more (omega (arith, small, h.even, h.counted))
      as_idle false true t e = wakes e
      as_idle false false t e = buffers e

      with_mode : (m : Mode) → f.mode ≡ m → Next (filter_step z r f) (f.stats.in_total + 1)
      with_mode active e =
          subst (λ m. Next (move z m r g) (f.stats.in_total + 1)) (sym e)
            (as_active r.is_hlt refl e)
      with_mode idle_candidate e =
          subst (λ m. Next (move z m r g) (f.stats.in_total + 1)) (sym e)
            (as_idle r.is_hlt (r.priv == 0) refl e)

  module _ (laws : Keeps z) where
    run-Next :
        (rs : List Rec) (f : Filter z) (n : ℕ)
        → KernelHalts rs
        → n + length rs < 2 ^ 64
        → Next f n
        → Next (run z laws rs f) (n + length rs)
    unfolding Next
    run-Next [] f n halts small (buf, h, e, t) = (buf, h, e, t ∙ omega arith)
    run-Next (r ∷ rs) f n halts small (buf, h, e, t) =
        let (buf', h', e', t') = filter_step-Next r f buf halts.0 e (omega (arith, small, t)) h in
        let (buf'', h'', e'', t'') =
          run-Next rs (filter_step z r f) (n + 1) halts.1 (omega (arith, small))
            (buf', h', e', t' ∙ omega (arith, t)) in
        (buf'', h'', e'', t'' ∙ omega arith)

    flush_rest-even :
        (f : Filter z) (buf : List (List ℕ))
        → f.stats.in_total < 2 ^ 64
        → Balanced f buf
        → ((flush_rest z f).stats.in_total ≡ f.stats.in_total)
          × ((flush_rest z f).stats.in_total
              ≡ (flush_rest z f).stats.out_total + (flush_rest z f).stats.idle_discarded)
    unfolding flush_rest
    flush_rest-even f [] small h =
        subst Even (sym h.holds.same_offsets) (refl, omega (arith, h.even))
      where
        Even : List ℕ → Type 0
        Even os =
            let f' : Filter z = if is_empty os then f else flush_idle z f in
            (f'.stats.in_total ≡ f.stats.in_total)
            × (f'.stats.in_total ≡ f'.stats.out_total + f'.stats.idle_discarded)
    flush_rest-even f (r ∷ rs) small h =
        let (a, b, c, d) = flush_idle-stats f (r ∷ rs) h.holds (omega (arith, small, h.even)) in
        subst Even (sym h.holds.same_offsets) (b, omega (arith, a, b, c, h.even))
      where
        Even : List ℕ → Type 0
        Even os =
            let f' : Filter z = if is_empty os then f else flush_idle z f in
            (f'.stats.in_total ≡ f.stats.in_total)
            × (f'.stats.in_total ≡ f'.stats.out_total + f'.stats.idle_discarded)

    -- For fewer than 2 ^ 64 records of which only kernel ones halt, the statistics at the end add up:
    -- in_total is the number of records, and the sum of out_total and idle_discarded.
    pub run-balance :
        (rs : List Rec) (w : Option (FilterWriter z))
        → KernelHalts rs
        → length rs < 2 ^ 64
        → let s : FilterStats = (flush_rest z (run z laws rs (initial z w))).stats in
          (s.in_total ≡ length rs) × (s.in_total ≡ s.out_total + s.idle_discarded)
    unfolding Next
    run-balance rs w halts small =
        let start : Balanced (initial z w) [] = record {
          holds = idle_buffer_reset-Holds idle_buffer_init;
          counted = refl;
          even = refl;
        } in
        let (buf, h, e, t) =
          run-Next rs (initial z w) 0 halts (omega (arith, small)) ([], start, λ m. refl, refl) in
        let (same, even) =
          flush_rest-even (run z laws rs (initial z w)) buf (omega (arith, t, small)) h in
        (same ∙ t ∙ omega arith, even)
