-- ===== src/Sanity/Tests.antt =====
-- Runs of trace_sanity_check on four v2 records: a taken conditional branch, one that is not taken, a
-- direct jump and an indirect one.
use mathlib.Core.List.{foldl}
use champsim_infra.Prelude.{
  ◌/◌, ◌%◌, ◌||◌, ◌&&◌, ℕ, ◌+◌, ◌%◌, ◌*◌, ◌≡◌, ◌↔◌, refl, ap, ◌∙◌, true, false, List, [], ◌∷◌, ◌++◌,
  length, map, replicate, ltb, ◌&&◌, ◌==◌, get_or, contains, arith, done, pos,
}
use champsim_infra.Trace.{InstrV2, decode_v2, size_v2}
use champsim_infra.Sanity.Args.{Args, defaults, v2}
use champsim_infra.Sanity.Reader.{Source, TraceReader, fresh, is_zero}
use champsim_infra.Sanity.Stats.Step.{
  truthy, any, branch_type, bt_conditional, settle_pending, update_v2,
}
use champsim_infra.Sanity.Stats.Counting.{count}
use champsim_infra.Sanity.Stats.Totals.{
  walk_counts, walk_kinds, walk_branches, walk_counts-count, walk_kinds-count, walk_branches-hist,
  walk_branches-count,
}
use champsim_infra.Sanity.Run.{read_loop}
use champsim_infra.Sanity.Run.Whole.{records, Exhausted, read_loop-records}
use champsim_infra.Sanity.Checks.{run_checks}
use champsim_infra.Sanity.Checks.Doubles.{Double, DoubleLaws}
use champsim_infra.Sanity.Checks.Accepts.{Accepts, run_checks-Accepts}
use champsim_infra.Sanity.Program.{check_trace}
use champsim_infra.Sanity.Program.Certify.{v2_stats, v2_records, check_trace-Accepts}

-- Fractions.
abbrev fractions : Double
fractions = record {
  F = ℕ × ℕ;
  of_ℕ = λ n. (n, 1);
  mul = λ x y. (x.0 * y.0, x.1 * y.1);
  div = λ x y. (x.0 * y.1, x.1 * y.0);
  lt = λ x y. ltb (x.0 * y.1) (y.0 * x.1);
}

fractions-laws : DoubleLaws fractions
fractions-laws = record {
  mul_exact = λ a b h. refl;
  of_lt = λ a b h k. ap (λ x. ltb x (b * 1)) (times_one a) ∙ ap (ltb a) (times_one b);
  div_lt = λ a b c h i j k.
      ap (λ x. ltb x (c * (1 * b))) (times_one (a * 1) ∙ times_one a)
      ∙ ap (λ x. ltb a (c * x)) (one_times b);
  lt_div = λ a b c h i j k.
      ap (λ x. ltb (c * x) (a * 1 * 1)) (one_times b)
      ∙ ap (ltb (c * b)) (times_one (a * 1) ∙ times_one a);
}
  where
    times_one : (n : ℕ) → n * 1 ≡ n
    times_one n = omega arith

    one_times : (n : ℕ) → 1 * n ≡ n
    one_times n = omega arith

-- A record of 512 bytes.
abbrev encoded : ℕ → ℕ → ℕ → ℕ → List ℕ
encoded ip taken type flags =
    (ip ∷ replicate 7 0)
    ++ (1 ∷ taken ∷ flags ∷ 0 ∷ flags ∷ replicate 107 0)
    ++ (type ∷ 1 ∷ replicate 390 0)

abbrev trace : List (List ℕ)
trace = encoded 10 1 2 25 ∷ encoded 20 0 2 25 ∷ encoded 30 1 0 0 ∷ encoded 40 1 1 0 ∷ []

abbrev file : Source
file = record {
  bytes = encoded 10 1 2 25 ++ encoded 20 0 2 25 ++ encoded 30 1 0 0 ++ encoded 40 1 1 0;
  fails = false;
  close_status = pos 0;
}

abbrev checked : Args
checked = record defaults { format = v2; check = true }

check_trace_file : check_trace fractions checked (fresh file false) ≡ done 0
unfolding check_trace
check_trace_file = refl

abbrev instrs : List InstrV2
instrs = map decode_v2 trace

walk_counts-count_example :
    let rs = map (λ bs. (decode_v2 bs).base) trace in
    ((walk_counts rs).records ≡ length rs)
    × ((walk_counts rs).branch_inst ≡ count (λ r. truthy r.is_branch) rs)
    × ((walk_counts rs).taken_branch ≡ count (λ r. truthy r.is_branch && truthy r.branch_taken) rs)
    × ((walk_counts rs).load_inst ≡ count (λ r. any r.source_memory) rs)
    × ((walk_counts rs).store_inst ≡ count (λ r. any r.destination_memory) rs)
walk_counts-count_example = walk_counts-count (map (λ bs. (decode_v2 bs).base) trace) (omega arith)

walk_kinds-count_example :
    let k = walk_kinds false instrs in
    (k.int_inst ≡ count (λ r. r.instr_type == 0) instrs)
    × (k.fp_inst ≡ count (λ r. r.instr_type == 1) instrs)
    × (k.simd_inst ≡ count (λ r. r.instr_type == 2) instrs)
    × (k.kernel_inst ≡ count (λ r. truthy r.privilege) instrs)
    × (k.int_inst + k.fp_inst + k.simd_inst + k.other_type ≡ length instrs)
    × (k.user_inst + k.kernel_inst ≡ length instrs)
walk_kinds-count_example = walk_kinds-count false instrs (omega arith)

walk_branches-hist_example :
    (get_or (walk_branches instrs).btype_hist bt_conditional 0
      ≡ count (λ r. branch_type r == bt_conditional) instrs)
    × (get_or (walk_branches instrs).btype_taken bt_conditional 0
        ≡ count (λ r. branch_type r == bt_conditional && truthy r.branch_taken) instrs)
walk_branches-hist_example = walk_branches-hist instrs bt_conditional (omega arith) (omega arith)

walk_branches-count_example :
    ((walk_branches instrs).explicit_bt_records
      ≡ count (λ r. get_or r.reserved 1 0 % 2 == 1) instrs)
    × ((walk_branches instrs).flags_feature_records
        ≡ count (λ r. get_or r.reserved 1 0 / 2 % 2 == 1) instrs)
    × ((walk_branches instrs).call_ret_not_flagged
        ≡ count
            (λ r.
              (get_or r.reserved 0 0 == 3
                || get_or r.reserved 0 0 == 4
                || get_or r.reserved 0 0 == 5)
              && r.is_branch == 0)
            instrs)
    × ((walk_branches instrs).flags_in_src ≡ count (λ r. contains 25 r.source_registers) instrs)
    × ((walk_branches instrs).flags_in_dst
        ≡ count (λ r. contains 25 r.destination_registers) instrs)
walk_branches-count_example = walk_branches-count instrs (omega arith)

-- Three records of two bytes and one byte over, summed.
abbrev seven : Source
seven = record { bytes = 1 ∷ 2 ∷ 3 ∷ 4 ∷ 5 ∷ 6 ∷ 7 ∷ []; fails = false; close_status = pos 0 }

abbrev summed : List ℕ → ℕ → ℕ
summed bs n = n + get_or bs 0 0

read_loop-records_example :
    (tr' : TraceReader) × (read_loop 2 summed 8 (fresh seven false) 0
      ≡ done (foldl (λ s bs. summed bs s) 0 (records 2 3 seven.bytes), tr'))
    × Exhausted (fresh seven false) seven 2 tr'
read_loop-records_example =
    read_loop-records 2 (omega arith) summed 3 8 (fresh seven false) seven 0 refl refl (omega arith)

run_checks-Accepts_example :
    (run_checks fractions (v2_stats checked trace) ≡ 0) ↔ Accepts (v2_stats checked trace)
unfolding settle_pending update_v2 decode_v2
run_checks-Accepts_example =
    run_checks-Accepts fractions fractions-laws (v2_stats checked trace) refl (omega arith)
      (omega arith)

check_trace-Accepts_example : (check_trace fractions checked (fresh file true) ≡ done 0) ↔ (
    (file.fails ≡ false)
    × (is_zero file.close_status ≡ true)
    × (length file.bytes % size_v2 ≡ 0)
    × Accepts (v2_stats checked (v2_records file)))
check_trace-Accepts_example =
    check_trace-Accepts checked file fractions fractions-laws true refl refl (omega arith)
