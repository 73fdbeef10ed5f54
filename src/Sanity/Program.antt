-- ===== src/Sanity/Program.antt =====
-- trace_sanity_check.cpp's `main`, whose value is the exit status. The statistics that `print_stats`
-- and `write_indirect_csv` print do not change it.
pub mod Certify
use champsim_infra.Prelude.{
  ℕ, ◌&&◌, not, Bool, true, false, Option, none, some, List, ◌==◌, if◌then◌else◌, ℤ, Outcome, done,
  exit, stuck, ◌>>=◌,
}
use champsim_infra.Sanity.Args.{Args, Opt, defaults, parse_args}
use champsim_infra.Sanity.Reader.{TraceReader, Streams, open_trace, finish, is_zero}
use champsim_infra.Sanity.Stats.Groups.{Stats, no_stats}
use champsim_infra.Sanity.Run.{run_format}
use champsim_infra.Sanity.Checks.{run_checks}
use champsim_infra.Sanity.Checks.Doubles.{Double}

module _ (d : Double) where
  -- The tests at the end.
  unfoldable pub verdict : Args → Stats → ℕ → ℤ → ℕ
  unfolding run_checks
  verdict a s partial_bytes stream_status =
      if s.counts.records == 0
      then 1
      else if not (is_zero stream_status)
      then 1
      else if not (partial_bytes == 0)
      then 1
      else if a.check
      then (if run_checks d s == 0 then 0 else 2)
      else 0

  -- From the open reader on.
  unfoldable pub check_trace : Args → TraceReader → Outcome ℕ
  unfolding run_format finish verdict
  check_trace a tr = do
    (s, tr') ← run_format a.format tr a no_stats
    let (stream_status, tr'') = finish tr'
    done (verdict a s tr'.partial_bytes stream_status)

  unfoldable pub main : Streams → List Opt → Outcome ℕ
  unfolding parse_args open_trace check_trace
  main m opts = parse_args defaults opts >>= elim [
    | none ↦ done 1
    | some a ↦ elim (open_trace m a.input) [ none ↦ done 1 | some tr ↦ check_trace a tr ]
  ]
