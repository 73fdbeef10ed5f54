-- ===== src/Tracer/Record/Registers.antt =====
-- The register slots of a record.
use mathlib.Core.List.{foldl}
use champsim_infra.Prelude.{
  ℕ, zero, suc, ◌+◌, ◌-◌, ◌%◌, ◌^◌, ◌<◌, ◌≡◌, ◌≢◌, refl, sym, ap, subst, ◌∙◌, not, true, Option,
  none, some, List, [], ◌∷◌, ◌++◌, append-nil, map, length, replicate, set, take, take-nil,
  append_assoc, if◌then◌else◌, arith,
}
use champsim_infra.Tracer.State.{Knobs, SampleFile, is_tracing}
use champsim_infra.Tracer.Record.{Losses, Building, first_free, record_reg_read, source_slot}

-- No entry is 0.
abbrev pub AllUsed : List ℕ → Type 0
AllUsed [] = Unit
AllUsed (x ∷ xs) = (x ≢ 0) × AllUsed xs

first_free-used : (i : ℕ) (xs : List ℕ) → AllUsed xs → first_free i xs ≡ none
unfolding first_free
first_free-used i [] u = refl
first_free-used i (x ∷ xs) u = ground (arith, u.0, first_free-used (i + 1) xs u.1)

first_free-free :
    (i : ℕ) (xs ys : List ℕ) → AllUsed xs → first_free i (xs ++ 0 ∷ ys) ≡ some (i + length xs)
unfolding first_free
first_free-free i [] ys u = ap some (omega arith)
first_free-free i (x ∷ xs) ys u = ground (
  arith,
  u.0,
  first_free-free (i + 1) xs ys u.1,
  ap some {x = i + 1 + length xs} {y = i + (1 + length xs)} (omega arith),
)

set-at_length : (xs ys : List ℕ) (v : ℕ) → set (xs ++ 0 ∷ ys) (length xs) v ≡ xs ++ v ∷ ys
set-at_length [] ys v = refl
set-at_length (x ∷ xs) ys v = ap (λ zs. x ∷ zs) (set-at_length xs ys v)

AllUsed-snoc : (xs : List ℕ) (v : ℕ) → AllUsed xs → v ≢ 0 → AllUsed (xs ++ v ∷ [])
AllUsed-snoc [] v u h = (h, tt)
AllUsed-snoc (x ∷ xs) v u h = (u.0, AllUsed-snoc xs v u.1 h)

module _ (k : Knobs) (f : SampleFile) where
  -- The registers that an instruction reads, one call each.
  abbrev pub read_all : List ℕ → Building k f → Building k f
  read_all regs p = foldl (λ p r. record_reg_read k f r p) p regs

  abbrev pub dropped : Losses → ℕ
  dropped l = l.dropped_src_regs + l.dropped_src_flags

  read_slot :
      (r : ℕ) (p : Building k f) (o : Option ℕ)
      → is_tracing p.1.phase ≡ true
      → first_free 0 p.1.curr_instr.source_registers ≡ o
      → record_reg_read k f r p ≡ source_slot k f r p o
  unfolding record_reg_read
  read_slot r p o t e =
      ap
        (λ b.
          if not b then p else source_slot k f r p (first_free 0 p.1.curr_instr.source_registers))
        t
      ∙ ap (source_slot k f r p) e

  drop_counts :
      (r : ℕ) (p : Building k f)
      → dropped p.0 + 1 < 2 ^ 64
      → dropped (source_slot k f r p none).0 ≡ dropped p.0 + 1
  drop_counts r p h = ground (arith)

  -- Calls that all find the slots full.
  read_all-full :
      (regs : List ℕ) (p : Building k f)
      → is_tracing p.1.phase ≡ true
      → AllUsed p.1.curr_instr.source_registers
      → dropped p.0 + length regs < 2 ^ 64
      → ((read_all regs p).1 ≡ p.1) × (dropped (read_all regs p).0 ≡ dropped p.0 + length regs)
  read_all-full [] p t u h = (refl, omega arith)
  read_all-full (r ∷ regs) p t u h =
      let step = read_slot r p none t (first_free-used 0 p.1.curr_instr.source_registers u) in
      let one = drop_counts r p (omega arith) in
      let rest = read_all-full regs (source_slot k f r p none) t u (omega (arith, one)) in
      (
        ap (λ q. (read_all regs q).1) step ∙ rest.0,
        omega (arith, ap (λ q. dropped (read_all regs q).0) step, rest.1, one),
      )

  -- If no register number is 0 modulo 256 and the counters do not wrap, the source registers fill the
  -- free slots of the record of a tracing thread in order, truncated to a byte, and each one that
  -- finds no slot is counted once, as a register or as the flags.
  pub read_all-slots :
      (regs : List ℕ) (p : Building k f) (xs : List ℕ) (m : ℕ)
      → is_tracing p.1.phase ≡ true
      → p.1.curr_instr.source_registers ≡ xs ++ replicate m 0
      → AllUsed xs
      → AllUsed (map (λ r. r % 256) regs)
      → dropped p.0 + length regs < 2 ^ 64
      → ((read_all regs p).1.curr_instr.source_registers
          ≡ xs ++ (take m (map (λ r. r % 256) regs) ++ replicate (m - length regs) 0))
        × (dropped (read_all regs p).0 ≡ dropped p.0 + (length regs - m))
  read_all-slots [] p xs m t e u v h = (
    e
        ∙ ap (λ zs. xs ++ zs) {x = replicate m 0} {y = take m [] ++ replicate (m - 0) 0}
            (ap (λ j. replicate j 0) {x = m} {y = m - 0} (omega arith)
              ∙ ap (λ zs. zs ++ replicate (m - 0) 0) (sym (take-nil m))),
    omega arith,
  )
  read_all-slots (r ∷ regs) p xs zero t e u v h =
      let used = subst AllUsed (sym (e ∙ append-nil xs)) u in
      let rest = read_all-full (r ∷ regs) p t used h in
      (
        ap (λ t. t.curr_instr.source_registers) rest.0
            ∙ e
            ∙ ap (λ j. xs ++ replicate j 0) {x = 0} {y = 0 - suc (length regs)} (omega arith),
        omega (arith, rest.1),
      )
  read_all-slots (r ∷ regs) p xs (suc m) t e u v h =
      let b : ℕ = r % 256 in
      let ys : List ℕ = replicate m 0 in
      let free = ap (first_free 0) e ∙ first_free-free 0 xs ys u in
      let q : Building k f = source_slot k f r p (some (0 + length xs)) in
      let step = read_slot r p (some (0 + length xs)) t free in
      let placed : q.1.curr_instr.source_registers ≡ (xs ++ b ∷ []) ++ ys =
        ap (λ zs. set zs (0 + length xs) b) e
        ∙ ap (λ j. set (xs ++ 0 ∷ ys) j b) {x = 0 + length xs} {y = length xs} (omega arith)
        ∙ set-at_length xs ys b
        ∙ sym (append_assoc xs (b ∷ []) ys) in
      let rest =
        read_all-slots regs q (xs ++ b ∷ []) m t placed (AllUsed-snoc xs b u v.0) v.1
          (omega arith) in
      (
        ap (λ q. (read_all regs q).1.curr_instr.source_registers) step
            ∙ rest.0
            ∙ append_assoc xs (b ∷ []) _
            ∙ ap (λ j. xs ++ (b ∷ (take m (map (λ r. r % 256) regs) ++ replicate j 0)))
                {x = m - length regs} {y = suc m - suc (length regs)} (omega arith),
        omega (arith, ap (λ q. dropped (read_all regs q).0) step, rest.1),
      )
