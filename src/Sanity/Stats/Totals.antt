-- ===== src/Sanity/Stats/Totals.antt =====
-- What the statistics say of the records of a trace.
use mathlib.Core.List.{foldl}
use champsim_infra.Prelude.{
  ℕ, zero, suc, ◌+◌, ◌^◌, ◌<◌, ◌≡◌, refl, ◌∙◌, ◌&&◌, ◌||◌, ◌/◌, ◌%◌, not, Bool, true, List, [], ◌∷◌,
  length, replicate, ltb, ◌==◌, get_or, arith, contains,
}
use champsim_infra.Trace.{Instr, InstrV2}
use champsim_infra.Sanity.Stats.Groups.{Counts, Kinds, Branches, no_counts, no_kinds, no_branches}
use champsim_infra.Sanity.Stats.Step.{
  update_counts, update_kinds, update_branches, inc_if, truthy, any, branch_type, has_explicit_type,
  has_flags_feature, reg_flags, is_call_or_return, num_branch_types,
}
use champsim_infra.Sanity.Stats.Counting.{
  count, count-ext, foldl-count, foldl-count_inv, length-bump, get_or-bump,
}

-- The walks of the groups of members over a trace.
abbrev pub walk_counts : List Instr → Counts
walk_counts rs = foldl (λ c r. update_counts r c) no_counts rs

abbrev pub walk_kinds : Bool → List InstrV2 → Kinds
walk_kinds no_unique rs = foldl (λ k r. update_kinds no_unique r k) no_kinds rs

abbrev pub walk_branches : List InstrV2 → Branches
walk_branches rs = foldl (λ b r. update_branches r b) no_branches rs

count-all : (rs : List Instr) → count (λ r. true) rs ≡ length rs
count-all [] = refl
count-all (r ∷ rs) = omega (arith, count-all rs)

-- Every record has one of the four types, and one of the two privileges.
four_types :
    (rs : List InstrV2)
    → count (λ r. r.instr_type == 0) rs
        + count (λ r. r.instr_type == 1) rs
        + count (λ r. r.instr_type == 2) rs
        + count (λ r. ltb 2 r.instr_type) rs
      ≡ length rs
four_types [] = refl
four_types (r ∷ rs) = ground (arith, four_types rs)

two_modes :
    (rs : List InstrV2)
    → count (λ r. not (truthy r.privilege)) rs + count (λ r. truthy r.privilege) rs ≡ length rs
two_modes [] = refl
two_modes (r ∷ rs) = ground (arith, two_modes rs)

-- A fresh histogram is zero everywhere.
zeros : (n j : ℕ) → get_or {A = ℕ} (replicate n 0) j 0 ≡ 0
zeros zero j = refl
zeros (suc n) zero = refl
zeros (suc n) (suc j) = zeros n j

-- The instruction counters of any format, for fewer than 2 ^ 64 records: `records` is the number of records, and the others count
-- branches, taken branches, records with a load and records with a store.
pub walk_counts-count :
    (rs : List Instr)
    → length rs < 2 ^ 64
    → ((walk_counts rs).records ≡ length rs)
      × ((walk_counts rs).branch_inst ≡ count (λ r. truthy r.is_branch) rs)
      × ((walk_counts rs).taken_branch
          ≡ count (λ r. truthy r.is_branch && truthy r.branch_taken) rs)
      × ((walk_counts rs).load_inst ≡ count (λ r. any r.source_memory) rs)
      × ((walk_counts rs).store_inst ≡ count (λ r. any r.destination_memory) rs)
unfolding update_counts
walk_counts-count rs small = (
  walk (λ c. c.records) (λ r. true) (λ c r. refl) refl ∙ count-all rs,
  walk (λ c. c.branch_inst) (λ r. truthy r.is_branch) (λ c r. refl) refl,
  walk (λ c. c.taken_branch) (λ r. truthy r.is_branch && truthy r.branch_taken) (λ c r. refl) refl,
  walk (λ c. c.load_inst) (λ r. any r.source_memory) (λ c r. refl) refl,
  walk (λ c. c.store_inst) (λ r. any r.destination_memory) (λ c r. refl) refl,
)
  where
    walk :
        (h : Counts → ℕ) (p : Instr → Bool)
        → ((c : Counts) (r : Instr) → h (update_counts r c) ≡ inc_if (p r) (h c))
        → h no_counts ≡ 0
        → h (walk_counts rs) ≡ count p rs
    walk h p step start =
        foldl-count (λ c r. update_counts r c) h p step no_counts rs (omega (arith, start))
        ∙ omega (arith, start)

-- For fewer than 2 ^ 64 records, each v2 record is of exactly one instruction type, and is a user or a kernel record: the four
-- type counters are counts and add up to the number of records, and so do the two of privilege.
pub walk_kinds-count :
    (no_unique : Bool) (rs : List InstrV2)
    → length rs < 2 ^ 64
    → let k = walk_kinds no_unique rs in
      (k.int_inst ≡ count (λ r. r.instr_type == 0) rs)
      × (k.fp_inst ≡ count (λ r. r.instr_type == 1) rs)
      × (k.simd_inst ≡ count (λ r. r.instr_type == 2) rs)
      × (k.kernel_inst ≡ count (λ r. truthy r.privilege) rs)
      × (k.int_inst + k.fp_inst + k.simd_inst + k.other_type ≡ length rs)
      × (k.user_inst + k.kernel_inst ≡ length rs)
unfolding update_kinds
walk_kinds-count no_unique rs small = (
  ints,
  fps,
  simds,
  kernels,
  omega (arith, ints, fps, simds, others, four_types rs),
  omega (arith, users, kernels, two_modes rs),
)
  where
    walk :
        (h : Kinds → ℕ) (p : InstrV2 → Bool)
        → ((k : Kinds) (r : InstrV2) → h (update_kinds no_unique r k) ≡ inc_if (p r) (h k))
        → h no_kinds ≡ 0
        → h (walk_kinds no_unique rs) ≡ count p rs
    walk h p step start =
        foldl-count (λ k r. update_kinds no_unique r k) h p step no_kinds rs (omega (arith, start))
        ∙ omega (arith, start)

    ints : (walk_kinds no_unique rs).int_inst ≡ count (λ r. r.instr_type == 0) rs
    ints = walk (λ k. k.int_inst) (λ r. r.instr_type == 0) (λ k r. refl) refl

    fps : (walk_kinds no_unique rs).fp_inst ≡ count (λ r. r.instr_type == 1) rs
    fps = walk (λ k. k.fp_inst) (λ r. r.instr_type == 1) (λ k r. refl) refl

    simds : (walk_kinds no_unique rs).simd_inst ≡ count (λ r. r.instr_type == 2) rs
    simds = walk (λ k. k.simd_inst) (λ r. r.instr_type == 2) (λ k r. refl) refl

    others : (walk_kinds no_unique rs).other_type ≡ count (λ r. ltb 2 r.instr_type) rs
    others = walk (λ k. k.other_type) (λ r. ltb 2 r.instr_type) (λ k r. refl) refl

    users : (walk_kinds no_unique rs).user_inst ≡ count (λ r. not (truthy r.privilege)) rs
    users = walk (λ k. k.user_inst) (λ r. not (truthy r.privilege)) (λ k r. refl) refl

    kernels : (walk_kinds no_unique rs).kernel_inst ≡ count (λ r. truthy r.privilege) rs
    kernels = walk (λ k. k.kernel_inst) (λ r. truthy r.privilege) (λ k r. refl) refl

-- The histograms keep their eight entries.
abbrev pub HasTypes : Branches → Type 0
HasTypes b = (length b.btype_hist ≡ num_branch_types) × (length b.btype_taken ≡ num_branch_types)

update_branches-HasTypes :
    (b : Branches) (r : InstrV2) → HasTypes b → HasTypes (update_branches r b)
unfolding update_branches
update_branches-HasTypes b r h =
    ground
      (arith, length-bump b.btype_hist (branch_type r), length-bump b.btype_taken (branch_type r))

pub walk_branches-HasTypes : (rs : List InstrV2) → HasTypes (walk_branches rs)
walk_branches-HasTypes rs = go no_branches rs (refl, refl)
  where
    go :
        (b : Branches) (rs : List InstrV2)
        → HasTypes b
        → HasTypes (foldl (λ b r. update_branches r b) b rs)
    go b [] h = h
    go b (r ∷ rs) h = go (update_branches r b) rs (update_branches-HasTypes b r h)

-- The branch-type histogram of a v2 trace of fewer than 2 ^ 64 records: entry `j` is the number of records of type `j`, and the
-- entry of `btype_taken` the number of those that are taken.
pub walk_branches-hist :
    (rs : List InstrV2) (j : ℕ)
    → length rs < 2 ^ 64
    → j < num_branch_types
    → (get_or (walk_branches rs).btype_hist j 0 ≡ count (λ r. branch_type r == j) rs)
      × (get_or (walk_branches rs).btype_taken j 0
          ≡ count (λ r. branch_type r == j && truthy r.branch_taken) rs)
unfolding update_branches
walk_branches-hist rs j small m = (
  walk (λ b. get_or b.btype_hist j 0) (λ r. branch_type r == j)
      (λ b r h. ground (arith, get_or-bump b.btype_hist (branch_type r) j))
      (zeros num_branch_types j),
  walk (λ b. get_or b.btype_taken j 0) (λ r. branch_type r == j && truthy r.branch_taken)
      (λ b r h. ground (arith, get_or-bump b.btype_taken (branch_type r) j))
      (zeros num_branch_types j),
)
  where
    walk :
        (h : Branches → ℕ) (p : InstrV2 → Bool)
        → ((b : Branches) (r : InstrV2) → HasTypes b → h (update_branches r b) ≡ inc_if (p r) (h b))
        → h no_branches ≡ 0
        → h (walk_branches rs) ≡ count p rs
    walk h p step start =
        foldl-count_inv HasTypes (λ b r. update_branches r b) h p update_branches-HasTypes step
          no_branches rs (refl, refl) (omega (arith, start))
        ∙ omega (arith, start)

-- The counters by the tests of the code.
pub walk_branches-tests :
    (rs : List InstrV2)
    → length rs < 2 ^ 64
    → ((walk_branches rs).explicit_bt_records ≡ count has_explicit_type rs)
      × ((walk_branches rs).flags_feature_records ≡ count has_flags_feature rs)
      × ((walk_branches rs).call_ret_not_flagged
          ≡ count (λ r. is_call_or_return (branch_type r) && not (truthy r.is_branch)) rs)
      × ((walk_branches rs).flags_in_src ≡ count (λ r. contains reg_flags r.source_registers) rs)
      × ((walk_branches rs).flags_in_dst
          ≡ count (λ r. contains reg_flags r.destination_registers) rs)
unfolding update_branches
walk_branches-tests rs small = (
  walk (λ b. b.explicit_bt_records) has_explicit_type (λ b r. refl) refl,
  walk (λ b. b.flags_feature_records) has_flags_feature (λ b r. refl) refl,
  walk (λ b. b.call_ret_not_flagged)
      (λ r. is_call_or_return (branch_type r) && not (truthy r.is_branch)) (λ b r. refl) refl,
  walk (λ b. b.flags_in_src) (λ r. contains reg_flags r.source_registers) (λ b r. refl) refl,
  walk (λ b. b.flags_in_dst) (λ r. contains reg_flags r.destination_registers) (λ b r. refl) refl,
)
  where
    walk :
        (h : Branches → ℕ) (p : InstrV2 → Bool)
        → ((b : Branches) (r : InstrV2) → h (update_branches r b) ≡ inc_if (p r) (h b))
        → h no_branches ≡ 0
        → h (walk_branches rs) ≡ count p rs
    walk h p step start =
        foldl-count (λ b r. update_branches r b) h p step no_branches rs (omega (arith, start))
        ∙ omega (arith, start)

-- For fewer than 2 ^ 64 records, the counters of checks 1, 5 and 6, and that of the flags feature, are the
-- numbers of records: with bit 0 and with bit 1 of byte 1 of `reserved` set, of branch type 3, 4 or 5
-- (direct call, indirect call, return) with `is_branch` 0, and with register 25 among the sources and
-- among the destinations.
pub walk_branches-count :
    (rs : List InstrV2)
    → length rs < 2 ^ 64
    → ((walk_branches rs).explicit_bt_records ≡ count (λ r. get_or r.reserved 1 0 % 2 == 1) rs)
      × ((walk_branches rs).flags_feature_records
          ≡ count (λ r. get_or r.reserved 1 0 / 2 % 2 == 1) rs)
      × ((walk_branches rs).call_ret_not_flagged
          ≡ count
              (λ r.
                (get_or r.reserved 0 0 == 3
                  || get_or r.reserved 0 0 == 4
                  || get_or r.reserved 0 0 == 5)
                && r.is_branch == 0)
              rs)
      × ((walk_branches rs).flags_in_src ≡ count (λ r. contains 25 r.source_registers) rs)
      × ((walk_branches rs).flags_in_dst ≡ count (λ r. contains 25 r.destination_registers) rs)
walk_branches-count rs small =
    let (explicit, flags, unflagged, src, dst) = walk_branches-tests rs small in
    (
      explicit ∙ count-ext (λ r. ground (arith)) rs,
      flags ∙ count-ext (λ r. ground (arith)) rs,
      unflagged ∙ count-ext (λ r. ground (arith)) rs,
      src,
      dst,
    )
