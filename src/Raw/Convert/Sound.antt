-- ===== src/Raw/Convert/Sound.antt =====
-- The branch information of the converter's records, as trace_sanity_check counts it.
use champsim_infra.Prelude.{
  ◌⊎◌, ℕ, ◌+◌, ◌%◌, ◌^◌, ◌<◌, ◌≡◌, refl, sym, ap, ap₂, suc, subst, ◌∙◌, ◌&&◌, not, Bool, true,
  false, Bool-cases, inl, inr, Option, none, some, List, [], ◌∷◌, length, get_or, ◌==◌,
  if◌then◌else◌, arith,
}
use champsim_infra.Trace.{InstrV2}
use champsim_infra.Sanity.Stats.Step.{has_explicit_type, is_call_or_return, branch_type, truthy}
use champsim_infra.Sanity.Stats.Totals.{
  walk_branches, walk_branches-tests, walk_branches-hist, walk_branches-HasTypes,
}
use champsim_infra.Sanity.Checks.{is_unconditional_transfer, sum_unconditional}
use champsim_infra.Sanity.Stats.Counting.{count}
use champsim_infra.Raw.Record.{Insn, MemOp, is_write}
use champsim_infra.Raw.Convert.Parse.{Header}
use champsim_infra.Raw.Convert.Build.{
  Decoded, Prev, Slots, put_write, put_read, put_mem_ops, build, directed, last_record, is_nonzero,
  direction_is_known_taken, with_registers, with_branch_type, blank_record, with_taken,
}
use champsim_infra.Raw.Convert.Writer.{Sink}
use champsim_infra.Raw.Convert.Program.{prev_of}
use champsim_infra.Raw.Convert.Program.Stream.{records_of}

-- The operands leave the branch fields alone.
Kept : Slots → Slots → Type 0
Kept s t = (t.rec.is_branch ≡ s.rec.is_branch) × (t.rec.reserved ≡ s.rec.reserved)

put_write-Kept : (m : MemOp) (s : Slots) → Kept s (put_write m s)
unfolding Kept
put_write-Kept m s = ground (arith)

put_read-Kept : (m : MemOp) (s : Slots) → Kept s (put_read m s)
unfolding Kept
put_read-Kept m s = ground (arith)

put_mem_ops-Kept : (ms : List MemOp) (s : Slots) → Kept s (put_mem_ops ms s)
unfolding Kept put_mem_ops
put_mem_ops-Kept [] s = (refl, refl)
put_mem_ops-Kept (m ∷ ms) s =
    let s' : Slots = if is_write m then put_write m s else put_read m s in
    let (b, v) = put_mem_ops-Kept ms s' in
    let first : Kept s s' = elim (Bool-cases (is_write m)) [
      | inl e ↦
          subst (λ (b : Bool). Kept s (if b then put_write m s else put_read m s)) (sym e)
            (put_write-Kept m s)
      | inr e ↦
          subst (λ (b : Bool). Kept s (if b then put_write m s else put_read m s)) (sym e)
            (put_read-Kept m s)
    ] in
    (b ∙ first.0, v ∙ first.1)

-- A branch is flagged, and has a type; anything else has the type NOT_BRANCH.
record Typed (r : InstrV2) : Type 0 where
  explicit : get_or r.reserved 1 0 ≡ 3
  flagged : (is_nonzero r.is_branch ≡ true) ⊎ (branch_type r ≡ 7)

build-Typed : (d : Decoded) (i : Insn) → Typed (build d i).rec
unfolding build Kept
build-Typed d i =
    let first : InstrV2 = with_branch_type d (with_registers d (blank_record i.ip i.privilege)) in
    let (b, v) =
      put_mem_ops-Kept i.mem_ops (record { rec = first; src = 0; dst = 0; overflow = 0 }) in
    record {
      explicit = ap (λ v. get_or v 1 0) v;
      flagged = elim (Bool-cases (d.ok && is_nonzero d.branch_code)) [
        | inl t ↦ inl (ap (λ b. is_nonzero b) b ∙ ground (arith, t))
        | inr f ↦ inr (ap (λ v. get_or v 0 0) v ∙ ground (arith, f))
      ];
    }

-- What trace_sanity_check demands of a record with an explicit branch type.
record Sound (r : InstrV2) : Type 0 where
  explicit : has_explicit_type r ≡ true
  calls_flagged : (is_call_or_return (branch_type r) && not (truthy r.is_branch)) ≡ false
  transfers_taken :
      (direction_is_known_taken (branch_type r) && not (truthy r.branch_taken)) ≡ false

calls_of :
    (r : InstrV2)
    → (is_nonzero r.is_branch ≡ true) ⊎ (branch_type r ≡ 7)
    → (is_call_or_return (branch_type r) && not (truthy r.is_branch)) ≡ false
calls_of r (inl e) = ground (arith, e)
calls_of r (inr e) = ground (arith, e)

with_taken-Sound :
    (r : InstrV2) (taken : ℕ)
    → Typed r
    → (direction_is_known_taken (branch_type r) && not (truthy taken)) ≡ false
    → Sound (with_taken taken r)
with_taken-Sound r taken t e = record {
  explicit = ap (λ n. truthy (n % 2)) t.explicit;
  calls_flagged = calls_of r t.flagged;
  transfers_taken = e;
}

abbrev taken_of : Prev → ℕ → ℕ
taken_of p ip =
    if direction_is_known_taken (branch_type p.rec)
    then 1
    else if not (ip == (p.ip + p.size) % 2 ^ 64)
    then 1
    else 0

known_taken :
    (p : Prev) (ip : ℕ)
    → (direction_is_known_taken (branch_type p.rec) && not (truthy (taken_of p ip))) ≡ false
known_taken p ip = elim (Bool-cases (direction_is_known_taken (branch_type p.rec))) [
  | inl e ↦
      subst
        (λ (b : Bool).
          (b
            && not
                (truthy (if b then 1 else if not (ip == (p.ip + p.size) % 2 ^ 64) then 1 else 0)))
          ≡ false)
        (sym e) refl
  | inr e ↦ ap (λ (b : Bool). b && not (truthy (taken_of p ip))) e
]

unflagged :
    (r : InstrV2)
    → (is_nonzero r.is_branch ≡ true) ⊎ (branch_type r ≡ 7)
    → is_nonzero r.is_branch ≡ false
    → (direction_is_known_taken (branch_type r) && not (truthy r.branch_taken)) ≡ false
unflagged r (inl t) e = absurd (ground (arith, t, e))
unflagged r (inr t) e = ap (λ n. direction_is_known_taken n && not (truthy r.branch_taken)) t

plain-Sound : (r : InstrV2) → Typed r → is_nonzero r.is_branch ≡ false → Sound r
plain-Sound r t e = record {
  explicit = ap (λ n. truthy (n % 2)) t.explicit;
  calls_flagged = calls_of r t.flagged;
  transfers_taken = unflagged r t.flagged e;
}

directed-Sound : (p : Prev) (ip : ℕ) → Typed p.rec → Sound (directed p ip)
unfolding directed
directed-Sound p ip t = elim (Bool-cases (is_nonzero p.rec.is_branch)) [
  | inl e ↦
      subst (λ (b : Bool). Sound (if b then with_taken (taken_of p ip) p.rec else p.rec)) (sym e)
        (with_taken-Sound p.rec (taken_of p ip) t (known_taken p ip))
  | inr e ↦
      subst (λ (b : Bool). Sound (if b then with_taken (taken_of p ip) p.rec else p.rec)) (sym e)
        (plain-Sound p.rec t e)
]

abbrev AllSound : List InstrV2 → Type 0
AllSound [] = Unit
AllSound (r ∷ rs) = Sound r × AllSound rs

abbrev of_last : Option InstrV2 → List InstrV2
of_last none = []
of_last (some r) = r ∷ []

same : (o : Option InstrV2) → of_last o ≡ elim o [ none ↦ [] | some r ↦ r ∷ [] ]
same none = refl
same (some r) = refl

last-Sound : (p : Prev) → Typed p.rec → AllSound (of_last (last_record p))
unfolding last_record
last-Sound p t = elim (Bool-cases (is_nonzero p.rec.is_branch)) [
  | inl e ↦
      subst (λ (b : Bool). AllSound (of_last (if b then branch else some p.rec))) (sym e)
        (elim (Bool-cases (direction_is_known_taken (branch_type p.rec))) [
          | inl k ↦
              subst
                (λ (b : Bool). AllSound (of_last (if b then some (with_taken 1 p.rec) else none)))
                (sym k) (with_taken-Sound p.rec 1 t (ap (λ (b : Bool). b && false) k), tt)
          | inr k ↦
              subst
                (λ (b : Bool). AllSound (of_last (if b then some (with_taken 1 p.rec) else none)))
                (sym k) tt
        ])
  | inr e ↦
      subst (λ (b : Bool). AllSound (of_last (if b then branch else some p.rec))) (sym e)
        (plain-Sound p.rec t e, tt)
]
  where
    branch : Option InstrV2
    branch =
        if direction_is_known_taken (branch_type p.rec) then some (with_taken 1 p.rec) else none

module _ (z : Sink) (decode : ℕ → List ℕ → Decoded) (h : Header) where
  abbrev TypedPrev : Option Prev → Type 0
  TypedPrev none = Unit
  TypedPrev (some p) = Typed p.rec

  records_of-Sound :
      (p : Option Prev) (is : List Insn) → TypedPrev p → AllSound (records_of z decode h p is)
  records_of-Sound none [] t = tt
  records_of-Sound (some p) [] t = subst AllSound (same (last_record p)) (last-Sound p t)
  records_of-Sound none (i ∷ is) t =
      records_of-Sound (some (prev_of z decode h i)) is (build-Typed (decode h.arch i.bytes) i)
  records_of-Sound (some p) (i ∷ is) t = (
    directed-Sound p i.ip t,
    records_of-Sound (some (prev_of z decode h i)) is (build-Typed (decode h.arch i.bytes) i),
  )

-- A record of an unconditional type is taken.
taken_of_type :
    (j : ℕ) (r : InstrV2)
    → is_unconditional_transfer j ≡ true
    → Sound r
    → (branch_type r == j && truthy r.branch_taken) ≡ (branch_type r == j)
unfolding is_unconditional_transfer
taken_of_type j r u s = ground (arith, u, s.transfers_taken)

count-taken :
    (j : ℕ) (rs : List InstrV2)
    → is_unconditional_transfer j ≡ true
    → AllSound rs
    → count (λ r. branch_type r == j && truthy r.branch_taken) rs
      ≡ count (λ r. branch_type r == j) rs
count-taken j [] u s = refl
count-taken j (r ∷ rs) u s =
    ap₂ (λ (b : Bool) n. (if b then 1 else 0) + n) (taken_of_type j r u s.0)
      (count-taken j rs u s.1)

-- The sums of check 4 depend on the entries of the unconditional types only.
sum_unconditional-same :
    (i : ℕ) (xs ys : List ℕ) (acc : ℕ)
    → length xs ≡ length ys
    → ((j : ℕ)
        → j < length xs
        → is_unconditional_transfer (i + j) ≡ true
        → get_or xs j 0 ≡ get_or ys j 0)
    → sum_unconditional i xs acc ≡ sum_unconditional i ys acc
unfolding sum_unconditional
sum_unconditional-same i [] [] acc e same = refl
sum_unconditional-same i [] (y ∷ ys) acc e same = absurd (omega (arith, e))
sum_unconditional-same i (x ∷ xs) [] acc e same = absurd (omega (arith, e))
sum_unconditional-same i (x ∷ xs) (y ∷ ys) acc e same =
    ap (sum_unconditional (i + 1) xs) (added (is_unconditional_transfer i) refl)
    ∙ sum_unconditional-same (i + 1) xs ys
        (if is_unconditional_transfer i then (acc + y) % 2 ^ 64 else acc) (omega (arith, e))
        (λ j m u. same (suc j) (omega (arith, m)) (ap is_unconditional_transfer (shifted j) ∙ u))
  where
    shifted : (j : ℕ) → i + suc j ≡ i + 1 + j
    shifted j = omega arith

    first : i + 0 ≡ i
    first = omega arith

    added :
        (b : Bool)
        → is_unconditional_transfer i ≡ b
        → (if b then (acc + x) % 2 ^ 64 else acc) ≡ (if b then (acc + y) % 2 ^ 64 else acc)
    added true u =
        ap (λ v. (acc + v) % 2 ^ 64) (same 0 (omega arith) (ap is_unconditional_transfer first ∙ u))
    added false u = refl

count-Sound :
    (rs : List InstrV2)
    → AllSound rs
    → (count has_explicit_type rs ≡ length rs)
      × (count (λ r. is_call_or_return (branch_type r) && not (truthy r.is_branch)) rs ≡ 0)
count-Sound [] s = (refl, refl)
count-Sound (r ∷ rs) s =
    let (a, b) = count-Sound rs s.1 in
    (
      ap (λ (b : Bool). (if b then 1 else 0) + count has_explicit_type rs) s.0.explicit
          ∙ omega (arith, a),
      ap
            (λ (b : Bool).
              (if b then 1 else 0)
              + count (λ r. is_call_or_return (branch_type r) && not (truthy r.is_branch)) rs)
            s.0.calls_flagged
          ∙ omega (arith, b),
    )

-- Check 4 of a list of such records.
walk_branches-Sound :
    (rs : List InstrV2)
    → length rs < 2 ^ 64
    → AllSound rs
    → sum_unconditional 0 (walk_branches rs).btype_taken 0
      ≡ sum_unconditional 0 (walk_branches rs).btype_hist 0
walk_branches-Sound rs small s =
    let (hist, taken) = walk_branches-HasTypes rs in
    sum_unconditional-same 0 (walk_branches rs).btype_taken (walk_branches rs).btype_hist 0
      (taken ∙ sym hist)
      (λ j m u.
        let (all, some_taken) = walk_branches-hist rs j small (omega (arith, m, taken)) in
        some_taken ∙ count-taken j rs (ap is_unconditional_transfer (from_zero j) ∙ u) s ∙ sym all)
  where
    from_zero : (j : ℕ) → j ≡ 0 + j
    from_zero j = omega arith

module _ (z : Sink) (decode : ℕ → List ℕ → Decoded) (h : Header) where
  -- Whatever the decoder finds, the records that the converter makes of fewer than 2 ^ 64 instructions
  -- meet what the checks 1, 5 and 4 of trace_sanity_check demand of the branches: all count as records
  -- with an explicit type, none as a call or return that is not flagged, and over the types that the
  -- checker takes for unconditional transfers as many are taken as there are.
  pub walk_branches-records_of :
      (is : List Insn)
      → length (records_of z decode h none is) < 2 ^ 64
      → let rs : List InstrV2 = records_of z decode h none is in
        ((walk_branches rs).explicit_bt_records ≡ length rs)
        × ((walk_branches rs).call_ret_not_flagged ≡ 0)
        × (sum_unconditional 0 (walk_branches rs).btype_taken 0
            ≡ sum_unconditional 0 (walk_branches rs).btype_hist 0)
  walk_branches-records_of is small =
      let rs : List InstrV2 = records_of z decode h none is in
      let sound : AllSound rs = records_of-Sound z decode h none is tt in
      let (a, b) = count-Sound rs sound in
      let walks = walk_branches-tests rs small in
      (walks.0 ∙ a, walks.2 ∙ b, walk_branches-Sound rs small sound)
