-- ===== src/Raw/Filter/Machine.antt =====
-- The state of `main` in trace_filter.c, and what it does with a record.
pub mod Kept
pub mod Balance
use champsim_infra.Prelude.{
  ℕ, ◌+◌, ◌%◌, ◌^◌, ◌-◌, not, Bool, true, false, Option, none, some, List, [], ◌∷◌, ◌++◌, length,
  ltb, ◌==◌, inc, is_empty, if◌then◌else◌,
}
use champsim_infra.Raw.Filter.Idle.{
  IdleBuffer, idle_buffer_init, idle_buffer_reset, idle_buffer_append, slot_bytes,
}
use champsim_infra.Raw.Filter.Writer.{Compressor, FilterWriter, writer_append}
use champsim_infra.Raw.Filter.Framing.{Rec}

pub data Mode : Type 0 where
  active idle_candidate : Mode

pub record FilterStats : Type 0 where
  pub in_total : ℕ
  pub in_user : ℕ
  pub in_kernel : ℕ
  pub out_total : ℕ
  pub out_user : ℕ
  pub out_kernel : ℕ
  pub idle_discarded : ℕ
  pub idle_iters : ℕ
  pub real_wakeups : ℕ
  pub hlt_seen : ℕ
  pub idle_len_min : ℕ
  pub idle_len_max : ℕ
  pub idle_len_sum : ℕ
  pub idle_samples : List ℕ

abbrev pub no_filter_stats : FilterStats
no_filter_stats = record {
  in_total = 0;
  in_user = 0;
  in_kernel = 0;
  out_total = 0;
  out_user = 0;
  out_kernel = 0;
  idle_discarded = 0;
  idle_iters = 0;
  real_wakeups = 0;
  hlt_seen = 0;
  idle_len_min = 2 ^ 64 - 1;
  idle_len_max = 0;
  idle_len_sum = 0;
  idle_samples = [];
}

abbrev pub sample_cap : ℕ
sample_cap = 2 ^ 20

abbrev pub is_kernel : Rec → Bool
is_kernel r = not (r.priv == 0)

abbrev pub count_in : Rec → FilterStats → FilterStats
count_in r s = record s {
  in_total = inc s.in_total;
  in_kernel = if is_kernel r then inc s.in_kernel else s.in_kernel;
  in_user = if is_kernel r then s.in_user else inc s.in_user;
  hlt_seen = if r.is_hlt then inc s.hlt_seen else s.hlt_seen;
}

abbrev pub count_out : Bool → FilterStats → FilterStats
count_out kernel s = record s {
  out_total = inc s.out_total;
  out_kernel = if kernel then inc s.out_kernel else s.out_kernel;
  out_user = if kernel then s.out_user else inc s.out_user;
}

abbrev pub count_discarded : ℕ → FilterStats → FilterStats
count_discarded n s = record s {
  idle_discarded = (s.idle_discarded + n) % 2 ^ 64;
  idle_iters = inc s.idle_iters;
  idle_len_sum = (s.idle_len_sum + n) % 2 ^ 64;
  idle_len_min = if ltb n s.idle_len_min then n else s.idle_len_min;
  idle_len_max = if ltb s.idle_len_max n then n else s.idle_len_max;
  idle_samples =
      if ltb (length s.idle_samples) sample_cap
      then s.idle_samples ++ (if ltb (2 ^ 32 - 1) n then 2 ^ 32 - 1 else n) ∷ []
      else s.idle_samples;
}

module _ (z : Compressor) where
  -- `writer` is `none` with --stats-only.
  pub record Filter : Type 0 where
    pub mode : Mode
    pub idle : IdleBuffer
    pub writer : Option (FilterWriter z)
    pub stats : FilterStats

  abbrev pub initial : Option (FilterWriter z) → Filter
  initial w = record { mode = active; idle = idle_buffer_init; writer = w; stats = no_filter_stats }

  abbrev pub emit : List ℕ → Option (FilterWriter z) → Option (FilterWriter z)
  emit bytes none = none
  emit bytes (some w) = some (writer_append z bytes w)

  -- A record goes out.
  abbrev pub put_out : List ℕ → Bool → Filter → Filter
  put_out bytes kernel f = record f {
    writer = emit bytes f.writer;
    stats = count_out kernel f.stats;
  }

  -- A new candidate begins with an HLT.
  abbrev pub begin_candidate : Rec → Filter → Filter
  begin_candidate r f = record f {
    mode = idle_candidate;
    idle = idle_buffer_append r.bytes (is_kernel r) (idle_buffer_reset f.idle);
  }

  abbrev pub discard : Filter → Filter
  discard f = record f { stats = count_discarded f.idle.kernel_count f.stats }

  abbrev pub flush_slots : List (List ℕ) → Filter → Filter
  flush_slots [] f = f
  flush_slots (bytes ∷ rest) f = flush_slots rest (put_out bytes true f)

  abbrev pub flush_idle : Filter → Filter
  flush_idle f = flush_slots (slot_bytes f.idle.bytes f.idle.offsets f.idle.lengths) f

  -- A genuine wake-up.
  abbrev pub wake_up : Rec → Filter → Filter
  wake_up r f =
      let f' = flush_idle f in
      put_out r.bytes false (record f' {
        mode = active;
        idle = idle_buffer_reset f'.idle;
        stats = record (f'.stats) { real_wakeups = inc f'.stats.real_wakeups };
      })

  abbrev pub buffer_kernel : Rec → Filter → Filter
  buffer_kernel r f = record f { idle = idle_buffer_append r.bytes true f.idle }

  abbrev pub move : Mode → Rec → Filter → Filter
  move active r f = if r.is_hlt then begin_candidate r f else put_out r.bytes (is_kernel r) f
  move idle_candidate r f =
      if r.is_hlt
      then begin_candidate r (discard f)
      else if r.priv == 0
      then wake_up r f
      else buffer_kernel r f

  unfoldable pub filter_step : Rec → Filter → Filter
  unfolding writer_append idle_buffer_append slot_bytes
  filter_step r f = move f.mode r (record f { stats = count_in r f.stats })

  -- The end of the trace.
  unfoldable pub flush_rest : Filter → Filter
  unfolding writer_append slot_bytes
  flush_rest f = if is_empty f.idle.offsets then f else flush_idle f
