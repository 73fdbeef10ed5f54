-- ===== src/Tracer/Threads/Slots.antt =====
-- The registry as a list of slots.
use champsim_infra.Prelude.{
  ℕ, zero, suc, ◌+◌, ◌<◌, ◌≤◌, ◌≡◌, ◌≢◌, refl, sym, ap, Option, none, some, List, [], ◌∷◌, length,
  set, get_or, arith,
}
use champsim_infra.Tracer.State.{SampleFile, ThreadState}
use champsim_infra.Tracer.Threads.Callbacks.{one_if}

module _ {ℓ} {A : Type ℓ} where
  pub get_or-set_self :
      (xs : List A) (i : ℕ) (v d : A) → i < length xs → get_or (set xs i v) i d ≡ v
  get_or-set_self [] i v d h = absurd (omega arith)
  get_or-set_self (x ∷ xs) zero v d h = refl
  get_or-set_self (x ∷ xs) (suc i) v d h = get_or-set_self xs i v d (omega arith)

  pub get_or-set_ne :
      (xs : List A) (i j : ℕ) (v d : A) → i ≢ j → get_or (set xs i v) j d ≡ get_or xs j d
  get_or-set_ne [] i j v d h = refl
  get_or-set_ne (x ∷ xs) zero zero v d h = absurd (h refl)
  get_or-set_ne (x ∷ xs) zero (suc j) v d h = refl
  get_or-set_ne (x ∷ xs) (suc i) zero v d h = refl
  get_or-set_ne (x ∷ xs) (suc i) (suc j) v d h = get_or-set_ne xs i j v d (omega arith)

module _ (f : SampleFile) where
  abbrev pub one_if_traced : Option (ThreadState f) → ℕ
  one_if_traced none = 0
  one_if_traced (some t) = one_if t.phase

  -- The number of threads that are tracing.
  abbrev pub tracing_threads : List (Option (ThreadState f)) → ℕ
  tracing_threads [] = 0
  tracing_threads (o ∷ os) = one_if_traced o + tracing_threads os

  pub tracing_threads-le : (os : List (Option (ThreadState f))) → tracing_threads os ≤ length os
  tracing_threads-le [] = omega arith
  tracing_threads-le (none ∷ os) = omega (arith, tracing_threads-le os)
  tracing_threads-le (some t ∷ os) = ground (arith, tracing_threads-le os)

  pub tracing_threads-set :
      (os : List (Option (ThreadState f))) (i : ℕ) (v : Option (ThreadState f))
      → i < length os
      → tracing_threads (set os i v) + one_if_traced (get_or os i none)
        ≡ tracing_threads os + one_if_traced v
  tracing_threads-set [] i v h = absurd (omega arith)
  tracing_threads-set (o ∷ os) zero v h = omega arith
  tracing_threads-set (o ∷ os) (suc i) v h = omega (arith, tracing_threads-set os i v (omega arith))

  pub in_range :
      (os : List (Option (ThreadState f))) (i : ℕ) (t : ThreadState f)
      → get_or os i none ≡ some t
      → i < length os
  in_range [] i t e = ground (arith)
  in_range (o ∷ os) zero t e = omega arith
  in_range (o ∷ os) (suc i) t e = omega (arith, in_range os i t e)

  pub set-same :
      (os : List (Option (ThreadState f))) (i : ℕ) → get_or os i none ≡ none → set os i none ≡ os
  set-same [] i e = refl
  set-same (o ∷ os) zero e = ap (λ o. o ∷ os) (sym e)
  set-same (o ∷ os) (suc i) e = ap (λ os. o ∷ os) (set-same os i e)
