-- ===== src/Prelude/Containers.antt =====
-- uint64_t counters, std::array as a list, std::unordered_set and std::unordered_map as lists of
-- keys with no order that a program relies on.
use Prim.Native.Nat.{ℕ, zero, suc, ◌+◌, ◌%◌, ◌^◌}
use mathlib.Core.Bool.{Bool, false, ◌||◌}
use mathlib.Core.List.{List, [], ◌∷◌}
use mathlib.Core.Option.{Option, none, some}
use champsim_infra.Prelude.Tests.{◌==◌, if◌then◌else◌}

-- `n++` and `n += k` on a uint64_t.
abbrev pub inc : ℕ → ℕ
inc n = (n + 1) % 2 ^ 64

-- `h[i]++`; an index out of range changes nothing.
unfoldable pub bump : List ℕ → ℕ → List ℕ
bump [] i = []
bump (x ∷ xs) zero = inc x ∷ xs
bump (x ∷ xs) (suc i) = x ∷ bump xs i

unfoldable pub contains : ℕ → List ℕ → Bool
contains x [] = false
contains x (y ∷ ys) = x == y || contains x ys

unfoldable pub set_insert : ℕ → List ℕ → List ℕ
unfolding contains
set_insert x s = if contains x s then s else x ∷ s

module _ {ℓ} {V : Type ℓ} where
  unfoldable pub map_find : ℕ → List (ℕ × V) → Option V
  map_find k [] = none
  map_find k ((j, v) ∷ m) = if j == k then some v else map_find k m

  -- `m[k] = f(m[k])`, where a missing key starts from `d`.
  unfoldable pub map_update : ℕ → V → (V → V) → List (ℕ × V) → List (ℕ × V)
  map_update k d f [] = (k, f d) ∷ []
  map_update k d f ((j, v) ∷ m) = if j == k then (j, f v) ∷ m else (j, v) ∷ map_update k d f m
