-- ===== src/Sanity/Stats/Counting.antt =====
-- The counters are counts: each is the number of records with a property, as long as the trace has
-- fewer than 2 ^ 64 records.
use mathlib.Core.List.{foldl}
use champsim_infra.Prelude.{
  ℕ, zero, suc, ◌+◌, ◌^◌, ◌≤◌, ◌<◌, ◌≡◌, refl, ap, ap₂, ◌∙◌, Bool, List, [], ◌∷◌, length, ◌==◌,
  get_or, arith, inl, inr, Bool-cases, if◌then◌else◌, bump,
}
use champsim_infra.Sanity.Stats.Step.{inc_if}

-- How many elements pass a test.
abbrev pub count {ℓ} : {A : Type ℓ} → (A → Bool) → List A → ℕ
count p [] = 0
count p (x ∷ xs) = (if p x then 1 else 0) + count p xs

module _ {ℓ} {A : Type ℓ} where
  pub count-le-length : (p : A → Bool) (xs : List A) → count p xs ≤ length xs
  count-le-length p [] = omega arith
  count-le-length p (x ∷ xs) = ground (arith, count-le-length p xs)

  pub count-ext : {p q : A → Bool} → ((x : A) → p x ≡ q x) → (xs : List A) → count p xs ≡ count q xs
  count-ext same [] = refl
  count-ext same (x ∷ xs) =
      ap₂ (λ (b : Bool) n. (if b then 1 else 0) + n) (same x) (count-ext same xs)

  -- A value that each step of a walk counts up by a test.
  pub foldl-count {κ} :
      {S : Type κ} (f : S → A → S) (h : S → ℕ) (p : A → Bool)
      → ((s : S) (x : A) → h (f s x) ≡ inc_if (p x) (h s))
      → (s : S) (xs : List A) → h s + length xs < 2 ^ 64
      → h (foldl f s xs) ≡ h s + count p xs
  foldl-count f h p step s [] small = omega arith
  foldl-count f h p step s (x ∷ xs) small = elim (Bool-cases (p x)) [
    | inl e ↦
        let now : h (f s x) ≡ h s + 1 = step s x ∙ ap (λ b. inc_if b (h s)) e ∙ omega arith in
        let one : count p (x ∷ xs) ≡ 1 + count p xs =
          ap (λ (b : Bool). (if b then 1 else 0) + count p xs) e in
        omega (arith, foldl-count f h p step (f s x) xs (omega (arith, now)), now, one)
    | inr e ↦
        let now : h (f s x) ≡ h s = step s x ∙ ap (λ b. inc_if b (h s)) e in
        let none : count p (x ∷ xs) ≡ count p xs =
          ap (λ (b : Bool). (if b then 1 else 0) + count p xs) e ∙ omega arith in
        omega (arith, foldl-count f h p step (f s x) xs (omega (arith, now)), now, none)
  ]

  -- The same where the step counts only while an invariant holds.
  pub foldl-count_inv {κ} :
      {S : Type κ} (I : S → Type 0) (f : S → A → S) (h : S → ℕ) (p : A → Bool)
      → ((s : S) (x : A) → I s → I (f s x))
      → ((s : S) (x : A) → I s → h (f s x) ≡ inc_if (p x) (h s))
      → (s : S) (xs : List A) → I s
      → h s + length xs < 2 ^ 64
      → h (foldl f s xs) ≡ h s + count p xs
  foldl-count_inv I f h p keep step s [] i small = omega arith
  foldl-count_inv I f h p keep step s (x ∷ xs) i small = elim (Bool-cases (p x)) [
    | inl e ↦
        let now : h (f s x) ≡ h s + 1 = step s x i ∙ ap (λ b. inc_if b (h s)) e ∙ omega arith in
        let one : count p (x ∷ xs) ≡ 1 + count p xs =
          ap (λ (b : Bool). (if b then 1 else 0) + count p xs) e in
        omega (
          arith,
          foldl-count_inv I f h p keep step (f s x) xs (keep s x i) (omega (arith, now)),
          now,
          one,
        )
    | inr e ↦
        let now : h (f s x) ≡ h s = step s x i ∙ ap (λ b. inc_if b (h s)) e in
        let none : count p (x ∷ xs) ≡ count p xs =
          ap (λ (b : Bool). (if b then 1 else 0) + count p xs) e ∙ omega arith in
        omega (
          arith,
          foldl-count_inv I f h p keep step (f s x) xs (keep s x i) (omega (arith, now)),
          now,
          none,
        )
  ]

-- `bump` counts up one entry of an array.
pub length-bump : (h : List ℕ) (i : ℕ) → length (bump h i) ≡ length h
unfolding bump
length-bump [] i = refl
length-bump (x ∷ h) zero = refl
length-bump (x ∷ h) (suc i) = ap suc (length-bump h i)

pub get_or-bump :
    (h : List ℕ) (i j : ℕ) → j < length h → get_or (bump h i) j 0 ≡ inc_if (i == j) (get_or h j 0)
unfolding bump
get_or-bump [] i j m = elim m [ ]
get_or-bump (x ∷ h) zero zero m = refl
get_or-bump (x ∷ h) zero (suc j) m = ground arith
get_or-bump (x ∷ h) (suc i) zero m = ground arith
get_or-bump (x ∷ h) (suc i) (suc j) m = ground (arith, get_or-bump h i j)
