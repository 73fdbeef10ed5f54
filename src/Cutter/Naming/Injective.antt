-- ===== src/Cutter/Naming/Injective.antt =====
-- Different chunks are written to different files.
use mathlib.Core.List.{append_cancel_left, append_cancel_right}
use native.Mathlib.Nat.{pow-suc}
use champsim_infra.Prelude.{
  append_assoc, ℕ, zero, suc, ◌+◌, ◌-◌, ◌*◌, ◌/◌, ◌%◌, ◌^◌, ◌<◌, ◌≡◌, ◌≢◌, refl, sym, ap, ◌∙◌, List,
  [], ◌∷◌, ◌++◌, length, replicate, ltb, arith, inl, inr, Bool-cases, codes, is_empty, decimal,
  decimal_padded, if◌then◌else◌,
}
use champsim_infra.Cutter.Args.{Args}
use champsim_infra.Cutter.Naming.{filename, join, strip_ext, suffix, output_path}

-- The number that a text of digits stands for.
value : ℕ → List ℕ → ℕ
value acc [] = acc
value acc (c ∷ s) = value (acc * 10 + (c - b'0')) s

value-append : (acc : ℕ) (xs ys : List ℕ) → value acc (xs ++ ys) ≡ value (value acc xs) ys
unfolding value
value-append acc [] ys = refl
value-append acc (c ∷ xs) ys = value-append (acc * 10 + (c - b'0')) xs ys

value-zeros : (n : ℕ) → value 0 (replicate n b'0') ≡ 0
unfolding value
value-zeros zero = refl
value-zeros (suc n) = value-zeros n

value-decimal : (fuel n : ℕ) → n < 10 ^ fuel → value 0 (decimal fuel n) ≡ n
unfolding value decimal
value-decimal zero n h = omega arith
value-decimal (suc fuel) n h = elim (Bool-cases (ltb n 10)) [
  | inl e ↦ rw (e, decimal) (omega arith)
  | inr e ↦
      rw (e, decimal)
        (value-append 0 (decimal fuel (n / 10)) _
          ∙ ap (λ v. v * 10 + (n % 10 + b'0' - b'0'))
              (value-decimal fuel (n / 10) (omega (arith, pow-suc 10 fuel)))
          ∙ omega arith)
]

value-decimal_padded : (n : ℕ) → n < 2 ^ 32 → value 0 (decimal_padded n) ≡ n
unfolding decimal_padded
value-decimal_padded n h =
    value-append 0 (replicate (3 - length (decimal 10 n)) b'0') (decimal 10 n)
    ∙ ap (λ v. value v (decimal 10 n)) (value-zeros (3 - length (decimal 10 n)))
    ∙ value-decimal 10 n (omega arith)

join-injective : (dir x y : List ℕ) → join dir x ≡ join dir y → x ≡ y
unfolding join
join-injective dir x y e = elim (Bool-cases (is_empty (filename dir))) [
  | inl b ↦ append_cancel_left dir x y (rw (b, if◌then◌else◌) at e)
  | inr b ↦ append_cancel_left (dir ++ b'/' ∷ []) x y (
      append_assoc dir (b'/' ∷ []) x
      ∙ (rw (b, if◌then◌else◌) at e)
      ∙ sym (append_assoc dir (b'/' ∷ []) y))
]

output_path-injective :
    (a : Args) (i j : ℕ) → i < 2 ^ 32 → j < 2 ^ 32 → output_path a i ≡ output_path a j → i ≡ j
unfolding output_path suffix
output_path-injective a i j hi hj e =
    sym (value-decimal_padded i hi) ∙ ap (value 0) digits ∙ value-decimal_padded j hj
  where
    suffixes : suffix i ≡ suffix j
    suffixes =
        append_cancel_left (strip_ext (filename a.input)) (suffix i) (suffix j)
          (join-injective a.outdir _ _ e)

    digits : decimal_padded i ≡ decimal_padded j
    digits =
        append_cancel_right (decimal_padded i) (decimal_padded j) (codes ".zst")
          (append_cancel_left (codes "_part") _ _ suffixes)

-- Two parts of one run with different numbers, both below 2 ^ 32, have different paths: no chunk
-- overwrites another.
pub output_path-ne :
    (a : Args) (i j : ℕ) → i < 2 ^ 32 → j < 2 ^ 32 → i ≢ j → ¬ (output_path a i ≡ output_path a j)
output_path-ne a i j hi hj ne e = ne (output_path-injective a i j hi hj e)
