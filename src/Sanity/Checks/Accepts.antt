-- ===== src/Sanity/Checks/Accepts.antt =====
-- When `run_checks` finds nothing: the conditions, with the percentages read as counts.
use champsim_infra.Prelude.{
  ℕ, ◌*◌, ◌^◌, ◌≤◌, ◌<◌, ◌≡◌, ◌↔◌, sym, ap, ◌∙◌, ◌&&◌, not, Bool, true, [], ◌∷◌, ltb, ◌==◌, get_or,
  arith, inl, inr, Bool-cases, leb→le, le→leb, ==_iff, if◌then◌else◌,
}
use champsim_infra.Sanity.Stats.Groups.{Stats}
use champsim_infra.Sanity.Stats.Step.{bt_conditional}
use champsim_infra.Sanity.Checks.{
  count_distinct, sum_unconditional, pct, check_results, count_failures, run_checks,
}
use champsim_infra.Sanity.Checks.Doubles.{Double, DoubleLaws}

-- The six acceptance conditions on the statistics of a v2 trace.
pub record Accepts (s : Stats) : Type 0 where
  pub some_record : 0 < s.counts.records
  pub all_explicit : s.branches.explicit_bt_records ≡ s.counts.records
  pub varied : 2 ≤ count_distinct s.branches.btype_hist
  pub some_taken : 0 < get_or s.branches.btype_taken bt_conditional 0
  pub some_not_taken :
      get_or s.branches.btype_taken bt_conditional 0 < get_or s.branches.btype_hist bt_conditional 0
  pub some_unconditional : 0 < sum_unconditional 0 s.branches.btype_hist 0
  pub all_taken :
      sum_unconditional 0 s.branches.btype_taken 0 ≡ sum_unconditional 0 s.branches.btype_hist 0
  pub all_flagged : s.branches.call_ret_not_flagged ≡ 0
  pub flags_read : 0 < s.branches.flags_in_src
  pub flags_written : 0 < s.branches.flags_in_dst

both_lt_eq : (a b : ℕ) → (ltb 0 a && b == a) ≡ true → (0 < a) × (b ≡ a)
both_lt_eq a b h = ground arith

lt_eq_both : (a b : ℕ) → 0 < a → b ≡ a → (ltb 0 a && b == a) ≡ true
lt_eq_both a b h e = ground arith

both_lt : (a b : ℕ) → (ltb 0 a && ltb a b) ≡ true → (0 < a) × (a < b)
both_lt a b h = ground arith

lt_both : (a b : ℕ) → 0 < a → a < b → (ltb 0 a && ltb a b) ≡ true
lt_both a b h k = ground arith

both_pos : (a b : ℕ) → (ltb 0 a && ltb 0 b) ≡ true → (0 < a) × (0 < b)
both_pos a b h = ground arith

pos_both : (a b : ℕ) → 0 < a → 0 < b → (ltb 0 a && ltb 0 b) ≡ true
pos_both a b h k = ground arith

module _ (d : Double) (laws : DoubleLaws d) where
  pct-eq-div :
      (n m : ℕ) → 0 < m → 100 * n < 2 ^ 53 → pct d n m ≡ d.div (d.of_ℕ (100 * n)) (d.of_ℕ m)
  unfolding pct
  pct-eq-div n m h hn =
      ap (λ (b : Bool). if b then d.div (d.mul (d.of_ℕ 100) (d.of_ℕ n)) (d.of_ℕ m) else d.of_ℕ 0)
        {y = true} (ground arith)
      ∙ ap (λ x. d.div x (d.of_ℕ m)) (laws.mul_exact 100 n hn)

  -- Check 3: the rate is strictly between 0 and 100 if some but not all are taken.
  rate_in_range :
      (taken all : ℕ)
      → taken < 2 ^ 46
      → all < 2 ^ 46
      → (ltb 0 all && d.lt (d.of_ℕ 0) (pct d taken all) && d.lt (pct d taken all) (d.of_ℕ 100))
        ≡ (ltb 0 taken && ltb taken all)
  rate_in_range taken all ht ha = elim (Bool-cases (ltb 0 all)) [
    | inl e ↦ ground (
      arith,
      pct-eq-div taken all (ground arith) (omega arith),
      laws.lt_div (100 * taken) all 0 (ground arith) (omega arith) (omega arith) (omega arith),
      laws.div_lt (100 * taken) all 100 (ground arith) (omega arith) (omega arith) (omega arith),
    )
    | inr e ↦ ground arith
  ]

  none_failed :
      (b₁ b₂ b₃ b₄ b₅ b₆ : Bool)
      → (count_failures d (b₁ ∷ b₂ ∷ b₃ ∷ b₄ ∷ b₅ ∷ b₆ ∷ []) ≡ 0)
        ↔ ((b₁ ≡ true) × (b₂ ≡ true) × (b₃ ≡ true) × (b₄ ≡ true) × (b₅ ≡ true) × (b₆ ≡ true))
  unfolding count_failures
  none_failed b₁ b₂ b₃ b₄ b₅ b₆ = ground arith

  -- For a v2 trace of fewer than 2 ^ 46 conditional branches, `run_checks` counts no failure exactly
  -- if the six conditions hold, whatever double is, as long as it follows IEEE 754.
  pub run_checks-Accepts :
      (s : Stats)
      → s.v2 ≡ true
      → get_or s.branches.btype_hist bt_conditional 0 < 2 ^ 46
      → get_or s.branches.btype_taken bt_conditional 0 < 2 ^ 46
      → (run_checks d s ≡ 0) ↔ Accepts s
  unfolding run_checks check_results
  run_checks-Accepts s e ha ht = (forward, backward)
    where
      taken : ℕ
      taken = get_or s.branches.btype_taken bt_conditional 0

      all : ℕ
      all = get_or s.branches.btype_hist bt_conditional 0

      gate : run_checks d s ≡ count_failures d (check_results d s)
      gate = ap (λ b. if not b then 1 else count_failures d (check_results d s)) e

      rate :
          (ltb 0 all && d.lt (d.of_ℕ 0) (pct d taken all) && d.lt (pct d taken all) (d.of_ℕ 100))
          ≡ (ltb 0 taken && ltb taken all)
      rate = rate_in_range taken all ht ha

      forward : run_checks d s ≡ 0 → Accepts s
      forward z =
          let (c₁, c₂, c₃, c₄, c₅, c₆) = (none_failed _ _ _ _ _ _).0 (sym gate ∙ z) in
          let (c₁', c₁'') = both_lt_eq _ _ c₁ in
          let (c₃', c₃'') = both_lt taken all (sym rate ∙ c₃) in
          let (c₄', c₄'') = both_lt_eq _ _ c₄ in
          let (c₆', c₆'') = both_pos s.branches.flags_in_src s.branches.flags_in_dst c₆ in
          record {
            some_record = c₁';
            all_explicit = c₁'';
            varied = leb→le 2 _ c₂;
            some_taken = c₃';
            some_not_taken = c₃'';
            some_unconditional = c₄';
            all_taken = c₄'';
            all_flagged = (==_iff _ 0).0 c₅;
            flags_read = c₆';
            flags_written = c₆'';
          }

      backward : Accepts s → run_checks d s ≡ 0
      backward a =
          gate
          ∙ (none_failed _ _ _ _ _ _).1 (
            lt_eq_both _ _ a.some_record a.all_explicit,
            le→leb 2 _ a.varied,
            rate ∙ lt_both taken all a.some_taken a.some_not_taken,
            lt_eq_both _ _ a.some_unconditional a.all_taken,
            (==_iff _ 0).1 a.all_flagged,
            pos_both s.branches.flags_in_src s.branches.flags_in_dst a.flags_read a.flags_written,
          )
