-- ===== src/Sanity/Checks.antt =====
-- `run_checks`: the acceptance checks. Its arithmetic on double is a parameter.
pub mod Doubles
pub mod Accepts
use champsim_infra.Prelude.{
  ℕ, zero, suc, ◌+◌, ◌%◌, ◌^◌, ◌&&◌, ◌||◌, not, Bool, true, false, List, [], ◌∷◌, ltb, leb, ◌==◌,
  get_or, if◌then◌else◌,
}
use champsim_infra.Sanity.Stats.Groups.{Stats, Branches}
use champsim_infra.Sanity.Stats.Step.{
  truthy, bt_direct_jump, bt_indirect, bt_conditional, bt_direct_call, bt_indirect_call, bt_return,
}
use Doubles.{Double}

unfoldable pub is_unconditional_transfer : ℕ → Bool
is_unconditional_transfer bt =
    bt == bt_direct_jump
    || bt == bt_indirect
    || bt == bt_direct_call
    || bt == bt_indirect_call
    || bt == bt_return

-- The loop of check 2, from the histogram's entry 0 on.
unfoldable pub count_distinct : List ℕ → ℕ
count_distinct [] = 0
count_distinct (n ∷ ns) = (if truthy n then 1 else 0) + count_distinct ns

-- The loop of check 4, over the types from `i` on: `n` is added for the unconditional ones.
unfoldable pub sum_unconditional : ℕ → List ℕ → ℕ → ℕ
unfolding is_unconditional_transfer
sum_unconditional i [] acc = acc
sum_unconditional i (n ∷ ns) acc =
    sum_unconditional (i + 1) ns (if is_unconditional_transfer i then (acc + n) % 2 ^ 64 else acc)

module _ (d : Double) where
  -- 100.0 * n / d, and 0 where d is 0.
  unfoldable pub pct : ℕ → ℕ → d.F
  pct n m = if truthy m then d.div (d.mul (d.of_ℕ 100) (d.of_ℕ n)) (d.of_ℕ m) else d.of_ℕ 0

  -- The conditions of the six checks, in the order of the code.
  unfoldable pub check_results : Stats → List Bool
  unfolding pct count_distinct sum_unconditional
  check_results s =
      let b : Branches = s.branches in
      let conditionals : ℕ = get_or b.btype_hist bt_conditional 0 in
      let cond_taken : d.F = pct (get_or b.btype_taken bt_conditional 0) conditionals in
      let uncond : ℕ = sum_unconditional 0 b.btype_hist 0 in
      let uncond_taken : ℕ = sum_unconditional 0 b.btype_taken 0 in
      (ltb 0 s.counts.records && b.explicit_bt_records == s.counts.records)
      ∷ leb 2 (count_distinct b.btype_hist)
      ∷ (ltb 0 conditionals && d.lt (d.of_ℕ 0) cond_taken && d.lt cond_taken (d.of_ℕ 100))
      ∷ (ltb 0 uncond && uncond_taken == uncond)
      ∷ (b.call_ret_not_flagged == 0)
      ∷ (ltb 0 b.flags_in_src && ltb 0 b.flags_in_dst)
      ∷ []

  -- `report`, for each check.
  unfoldable pub count_failures : List Bool → ℕ
  count_failures [] = 0
  count_failures (ok ∷ oks) = (if ok then 0 else 1) + count_failures oks

  -- The number of failed checks.
  unfoldable pub run_checks : Stats → ℕ
  unfolding check_results count_failures
  run_checks s = if not s.v2 then 1 else count_failures (check_results s)
