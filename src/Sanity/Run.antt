-- ===== src/Sanity/Run.antt =====
-- `run_v1`, `run_v2` and `run_cs`: the read loops. The heartbeats, which only print, are left out.
pub mod Whole
use mathlib.Core.List.{foldl}
use champsim_infra.Prelude.{
  ℕ, zero, suc, ◌+◌, ◌&&◌, not, Bool, true, false, Option, none, some, List, [], ◌∷◌, length,
  if◌then◌else◌, Outcome, done, stuck, ◌>>=◌,
}
use champsim_infra.Trace.{
  Instr, InstrV2, InstrCs, size_v1, size_v2, size_cs, decode_v1, decode_v2, decode_cs,
}
use champsim_infra.Sanity.Args.{Args, Format, v1, v2, cloudsuite}
use champsim_infra.Sanity.Reader.{TraceReader, Source, read}
use champsim_infra.Sanity.Stats.Groups.{Stats}
use champsim_infra.Sanity.Stats.Step.{update_common, update_v2, settle_pending}

-- `while (tr.read(&r, size)) body(r)`.
unfoldable pub read_loop {ℓ} :
    {S : Type ℓ} → ℕ → (List ℕ → S → S) → ℕ → TraceReader → S → Outcome (S × TraceReader)
unfolding read
read_loop size body zero tr s = stuck
read_loop size body (suc fuel) tr s =
    let (o, tr') = read size tr in
    elim o [ none ↦ done (s, tr') | some bs ↦ read_loop size body fuel tr' (body bs s) ]

-- One round more than there are bytes: each record has at least one.
abbrev pub rounds : TraceReader → ℕ
rounds tr = elim tr.fp [ none ↦ 1 | some src ↦ suc (length src.bytes) ]

unfoldable pub run_v1 : TraceReader → Args → Stats → Outcome (Stats × TraceReader)
unfolding read_loop update_common decode_v1
run_v1 tr a s =
    read_loop size_v1 (λ bs. update_common (not a.no_unique) (decode_v1 bs)) (rounds tr) tr s

unfoldable pub run_v2 : TraceReader → Args → Stats → Outcome (Stats × TraceReader)
unfolding read_loop update_v2 decode_v2 settle_pending
run_v2 tr a s = do
  (s', tr') ←
      read_loop size_v2 (λ bs. update_v2 a.no_unique (decode_v2 bs)) (rounds tr) tr
        (record s { v2 = true; want_ind_targets = a.ind_targets })
  done (settle_pending s', tr')

unfoldable pub run_cs : TraceReader → Args → Stats → Outcome (Stats × TraceReader)
unfolding read_loop update_common decode_cs
run_cs tr a s =
    read_loop size_cs (λ bs. update_common (not a.no_unique) (decode_cs bs).base) (rounds tr) tr s

unfoldable pub run_format : Format → TraceReader → Args → Stats → Outcome (Stats × TraceReader)
unfolding run_v1 run_v2 run_cs
run_format v1 = run_v1
run_format v2 = run_v2
run_format cloudsuite = run_cs

abbrev pub record_size : Format → ℕ
record_size v1 = size_v1
record_size v2 = size_v2
record_size cloudsuite = size_cs
