-- ===== src/Sanity/Checks/Doubles.antt =====
-- What `run_checks` uses of double: IEEE 754 arithmetic, with what it guarantees below 2 ^ 53, where
-- integers and their products are exact and a quotient is rounded to the nearest.
use champsim_infra.Prelude.{ℕ, ◌*◌, ◌^◌, ◌<◌, ◌≡◌, Bool, ltb}

pub record Double : Type 1 where
  pub F : Type 0
  pub of_ℕ : ℕ → F
  pub mul : F → F → F
  pub div : F → F → F
  pub lt : F → F → Bool

pub record DoubleLaws (d : Double) : Type 0 where
  pub mul_exact : (a b : ℕ) → a * b < 2 ^ 53 → d.mul (d.of_ℕ a) (d.of_ℕ b) ≡ d.of_ℕ (a * b)
  pub of_lt : (a b : ℕ) → a < 2 ^ 53 → b < 2 ^ 53 → d.lt (d.of_ℕ a) (d.of_ℕ b) ≡ ltb a b
  -- rounding a quotient does not carry it to or past an integer
  pub div_lt :
      (a b c : ℕ)
      → 0 < b
      → a < 2 ^ 53
      → b < 2 ^ 53
      → c * b < 2 ^ 53
      → d.lt (d.div (d.of_ℕ a) (d.of_ℕ b)) (d.of_ℕ c) ≡ ltb a (c * b)
  pub lt_div :
      (a b c : ℕ)
      → 0 < b
      → a < 2 ^ 53
      → b < 2 ^ 53
      → c * b < 2 ^ 53
      → d.lt (d.of_ℕ c) (d.div (d.of_ℕ a) (d.of_ℕ b)) ≡ ltb (c * b) a
