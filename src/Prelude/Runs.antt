-- ===== src/Prelude/Runs.antt =====
-- What a run of a C++ program comes to: a value, `std::exit` (or a return from `main`) with a
-- status, or a loop that has used up the fuel of its model.
use Prim.Native.Nat.{ℕ}
use mathlib.Core.Path.{◌≡◌}
use mathlib.Core.Option.{Option, none, some}
use mathlib.Core.Bool.{Bool, true, false}
use champsim_infra.Prelude.Tests.{if◌then◌else◌}

pub data Outcome {ℓ} (A : Type ℓ) : Type ℓ where
  done : A → Outcome A
  exit : ℕ → Outcome A
  stuck : Outcome A

-- `abbrev`, so that `done a >>= f` computes wherever it stands.
infixl 5 ◌>>=◌
abbrev pub ◌>>=◌ {ℓ κ} : {A : Type ℓ} {B : Type κ} → Outcome A → (A → Outcome B) → Outcome B
done a >>= f = f a
exit c >>= f = exit c
stuck >>= f = stuck

-- Total correctness: the run ends, with a value for which `P` holds, or by an exit that `Q` allows.
abbrev pub Ends {ℓ} : {A : Type ℓ} → (A → Type 0) → Type 0 → Outcome A → Type 0
Ends P Q (done a) = P a
Ends P Q (exit c) = Q
Ends P Q stuck = ⊥

pub Ends->>= {ℓ κ} :
    {A : Type ℓ} {B : Type κ} (P : A → Type 0) (R : B → Type 0) (Q : Type 0) (m : Outcome A)
    (f : A → Outcome B)
    → Ends P Q m
    → ((a : A) → P a → Ends R Q (f a))
    → Ends R Q (m >>= f)
Ends->>= P R Q (done a) f h k = k a h
Ends->>= P R Q (exit c) f h k = h
Ends->>= P R Q stuck f h k = absurd h

-- The use of a pointer: a null one has no model but `stuck`.
abbrev pub require {ℓ κ} : {A : Type ℓ} {B : Type κ} → Option A → (A → Outcome B) → Outcome B
require none f = stuck
require (some a) f = f a

pub Ends-require {ℓ κ} :
    {A : Type ℓ} {B : Type κ} (P : B → Type 0) (Q : Type 0) (o : Option A) (a : A)
    (f : A → Outcome B)
    → o ≡ some a
    → Ends P Q (f a)
    → Ends P Q (require o f)
Ends-require P Q o a f e h = rw e h

-- A branch that is known.
pub Ends-then {ℓ} :
    {A : Type ℓ} (P : A → Type 0) (Q : Type 0) (b : Bool) (x y : Outcome A)
    → b ≡ true
    → Ends P Q x
    → Ends P Q (if b then x else y)
Ends-then P Q b x y e h = rw e h

pub Ends-else {ℓ} :
    {A : Type ℓ} (P : A → Type 0) (Q : Type 0) (b : Bool) (x y : Outcome A)
    → b ≡ false
    → Ends P Q y
    → Ends P Q (if b then x else y)
Ends-else P Q b x y e h = rw e h

-- A weaker postcondition.
pub Ends-mono {ℓ} :
    {A : Type ℓ} (P R : A → Type 0) (Q : Type 0) (m : Outcome A)
    → Ends P Q m
    → ((a : A) → P a → R a)
    → Ends R Q m
Ends-mono P R Q (done a) h k = k a h
Ends-mono P R Q (exit c) h k = h
Ends-mono P R Q stuck h k = absurd h
