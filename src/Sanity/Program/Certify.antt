-- ===== src/Sanity/Program/Certify.antt =====
-- What an exit status of 0 certifies.
use mathlib.Core.List.{foldl}
use native.Mathlib.Nat.{div-le_self}
use champsim_infra.Prelude.{
  ℕ, zero, suc, ◌/◌, ◌%◌, ◌^◌, ◌<◌, ◌≡◌, ◌≢◌, ◌↔◌, refl, sym, ap, ◌∙◌, ◌&&◌, not, Bool, true, false,
  Option, none, some, List, [], ◌∷◌, drop, get_or, map, length, ◌==◌, arith, if◌then◌else◌, ℤ, pos,
  negsuc, Outcome, done, exit, stuck, ◌>>=◌,
}
use champsim_infra.Trace.{InstrV2, size_v2, decode_v2}
use champsim_infra.Sanity.Args.{Args, v2}
use champsim_infra.Sanity.Reader.{TraceReader, Source, finish, finish_status, is_zero, fresh}
use champsim_infra.Sanity.Stats.Groups.{Stats, Indirect, no_stats}
use champsim_infra.Sanity.Stats.Step.{
  update_v2, update_common, update_counts, update_branches, settle_pending, bt_conditional,
  branch_type, truthy,
}
use champsim_infra.Sanity.Stats.Totals.{walk_counts, walk_branches, walk_branches-hist}
use champsim_infra.Sanity.Stats.Counting.{count-le-length}
use champsim_infra.Sanity.Run.{run_format, run_v2}
use champsim_infra.Sanity.Run.Whole.{records, Exhausted, read_loop-records}
use champsim_infra.Sanity.Checks.{run_checks}
use champsim_infra.Sanity.Checks.Doubles.{Double, DoubleLaws}
use champsim_infra.Sanity.Checks.Accepts.{Accepts, run_checks-Accepts}
use champsim_infra.Sanity.Program.{verdict, check_trace}

-- The statistics of the v2 records `rs`.
abbrev pub v2_stats : Args → List (List ℕ) → Stats
v2_stats a rs = settle_pending (
    foldl (λ s bs. update_v2 a.no_unique (decode_v2 bs) s)
      (record no_stats { v2 = true; want_ind_targets = a.ind_targets }) rs)

-- The whole records of a v2 file.
abbrev pub v2_records : Source → List (List ℕ)
v2_records src = records size_v2 (length src.bytes / size_v2) src.bytes

-- The stored status is 0 exactly if nothing went wrong, on a pipe and on a file.
finish_status-zero :
    (read_error piped : Bool) (close : ℤ) (partial_bytes : ℕ) (fp : Option Source) (bytes : List ℕ)
    (fails : Bool)
    → (is_zero (
          finish_status
            (record {
              fp = fp;
              piped = piped;
              partial_bytes = partial_bytes;
              read_error = read_error;
              status = pos 0;
            })
            (record { bytes = bytes; fails = fails; close_status = close }))
        ≡ true)
      ↔ ((read_error ≡ false) × (is_zero close ≡ true))
finish_status-zero err piped (pos zero) n fp b f = ground arith
finish_status-zero err piped (pos (suc k)) n fp b f = ground arith
finish_status-zero err piped (negsuc k) n fp b f = ground arith

finish-open :
    (tr : TraceReader) (src : Source) → tr.fp ≡ some src → (finish tr).0 ≡ finish_status tr src
unfolding finish
finish-open tr src e =
    ap (λ (p : ℤ × TraceReader). p.0)
      (ap
        (λ (o : Option Source). elim o as (λ x. ℤ × TraceReader) [
          | none ↦ (tr.status, tr)
          | some src ↦
              (finish_status tr src, record tr { status = finish_status tr src; fp = none })
        ])
        e)

finish-zero :
    (tr : TraceReader) (src : Source)
    → tr.fp ≡ some src
    → tr.status ≡ pos 0
    → (is_zero (finish tr).0 ≡ true) ↔ ((tr.read_error ≡ false) × (is_zero src.close_status ≡ true))
finish-zero tr src e st =
    let eq : is_zero (finish tr).0 ≡ is_zero (finish_status (record tr { status = pos 0 }) src) =
      ap is_zero (finish-open tr src e)
      ∙ ap (λ (z : ℤ). is_zero (finish_status (record tr { status = z }) src)) st in
    let iff =
      finish_status-zero tr.read_error tr.piped src.close_status tr.partial_bytes tr.fp src.bytes
        src.fails in
    (λ h. iff.0 (sym eq ∙ h), λ h. eq ∙ iff.1 h)

-- The tests that end `main`, on `n` records, `p` bytes left over and `k` failed checks.
abbrev exit_code : ℕ → ℕ → ℕ → Bool → Bool → ℕ
exit_code n p k ok check =
    if n == 0
    then 1
    else if not ok
    then 1
    else if not (p == 0)
    then 1
    else if check
    then (if k == 0 then 0 else 2)
    else 0

exit_code-zero :
    (n p k : ℕ) (ok : Bool)
    → (exit_code n p k ok true ≡ 0) ↔ ((n ≢ 0) × (ok ≡ true) × (p ≡ 0) × (k ≡ 0))
exit_code-zero n p k ok = ground arith

module _ (d : Double) where
  verdict-zero :
      (a : Args) (s : Stats) (p : ℕ) (st : ℤ)
      → a.check ≡ true
      → (verdict d a s p st ≡ 0)
        ↔ ((s.counts.records ≢ 0) × (is_zero st ≡ true) × (p ≡ 0) × (run_checks d s ≡ 0))
  unfolding verdict
  verdict-zero a s p st c =
      let e : verdict d a s p st ≡ exit_code s.counts.records p (run_checks d s) (is_zero st) true =
        ap (λ (b : Bool). exit_code s.counts.records p (run_checks d s) (is_zero st) b) c in
      let iff = exit_code-zero s.counts.records p (run_checks d s) (is_zero st) in
      (λ h. iff.0 (sym e ∙ h), λ h. e ∙ iff.1 h)

-- A walk seen through a projection.
foldl-project {ℓ κ μ} :
    {S : Type ℓ} {T : Type κ} {A B : Type μ} (f : S → A → S) (g : T → B → T) (h : S → T) (e : A → B)
    → ((s : S) (x : A) → h (f s x) ≡ g (h s) (e x))
    → (s : S) (xs : List A) → h (foldl f s xs) ≡ foldl g (h s) (map e xs)
foldl-project f g h e step s [] = refl
foldl-project f g h e step s (x ∷ xs) =
    foldl-project f g h e step (f s x) xs ∙ ap (λ t. foldl g t (map e xs)) (step s x)

either {ℓ κ} :
    {S : Type ℓ} {T : Type κ} (h : S → T) (b : Bool) (x y : S)
    → h x ≡ h y
    → h (if b then x else y) ≡ h y
either h true x y e = e
either h false x y e = refl

-- `settle_pending` changes only the indirect group.
settle-keeps {ℓ} :
    {T : Type ℓ} (h : Stats → T)
    → ((s : Stats) (i : Indirect) → h (record s { indirect = i }) ≡ h s)
    → (s : Stats) → h (settle_pending s) ≡ h s
unfolding settle_pending
settle-keeps h k s = either h s.indirect.ind_pending _ s (k s _)

constant {ℓ κ} : {A : Type ℓ} {B : Type κ} (x : B) (xs : List A) → foldl (λ v r. v) x xs ≡ x
constant x [] = refl
constant x (y ∷ xs) = constant x xs

module _ (no_unique : Bool) (s : Stats) (r : InstrV2) where
  update-counts : (update_v2 no_unique r s).counts ≡ update_counts r.base s.counts
  unfolding update_v2 update_common
  update-counts = refl

  update-branches : (update_v2 no_unique r s).branches ≡ update_branches r s.branches
  unfolding update_v2
  update-branches = refl

  update-v2 : (update_v2 no_unique r s).v2 ≡ s.v2
  unfolding update_v2 update_common
  update-v2 = refl

module _ (a : Args) (rs : List (List ℕ)) where
  abbrev start : Stats
  start = record no_stats { v2 = true; want_ind_targets = a.ind_targets }

  abbrev step : Stats → List ℕ → Stats
  step s bs = update_v2 a.no_unique (decode_v2 bs) s

  pub v2_stats-counts : (v2_stats a rs).counts ≡ walk_counts (map (λ bs. (decode_v2 bs).base) rs)
  v2_stats-counts =
      settle-keeps (λ s. s.counts) (λ s i. refl) (foldl step start rs)
      ∙ foldl-project step (λ c r. update_counts r c) (λ s. s.counts) (λ bs. (decode_v2 bs).base)
          (λ s bs. update-counts a.no_unique s (decode_v2 bs)) start rs

  pub v2_stats-branches : (v2_stats a rs).branches ≡ walk_branches (map decode_v2 rs)
  v2_stats-branches =
      settle-keeps (λ s. s.branches) (λ s i. refl) (foldl step start rs)
      ∙ foldl-project step (λ b r. update_branches r b) (λ s. s.branches) decode_v2
          (λ s bs. update-branches a.no_unique s (decode_v2 bs)) start rs

  pub v2_stats-v2 : (v2_stats a rs).v2 ≡ true
  v2_stats-v2 =
      settle-keeps (λ s. s.v2) (λ s i. refl) (foldl step start rs)
      ∙ foldl-project step (λ v r. v) (λ s. s.v2) (λ bs. bs)
          (λ s bs. update-v2 a.no_unique s (decode_v2 bs)) start rs
      ∙ constant true (map (λ bs. bs) rs)

length-records : (size n : ℕ) (bs : List ℕ) → length (records size n bs) ≡ n
unfolding records
length-records size zero bs = refl
length-records size (suc n) bs = omega (arith, length-records size n (drop size bs))

length-map {ℓ κ} :
    {A : Type ℓ} {B : Type κ} (f : A → B) (xs : List A) → length (map f xs) ≡ length xs
length-map f [] = refl
length-map f (x ∷ xs) = omega (arith, length-map f xs)

leftover : (l : ℕ) → ((if l == 0 then 0 else l) ≡ 0) ↔ (l ≡ 0)
leftover l = ground arith

done_inj : {m n : ℕ} → done m ≡ done n → m ≡ n
done_inj {m = m} e = ap (elim [ done n ↦ n | exit n ↦ m | stuck ↦ m ]) e

module _ (a : Args) (src : Source) where
  abbrev whole : List (List ℕ)
  whole = v2_records src

  -- Fewer than 2 ^ 46 conditional branches, taken or not.
  few :
      length src.bytes < 2 ^ 46
      → (get_or (v2_stats a whole).branches.btype_hist bt_conditional 0 < 2 ^ 46)
        × (get_or (v2_stats a whole).branches.btype_taken bt_conditional 0 < 2 ^ 46)
  few h =
      let small : length (map decode_v2 whole) < 2 ^ 46 = omega (
        arith,
        length-map decode_v2 whole,
        length-records size_v2 (length src.bytes / size_v2) src.bytes,
        div-le_self (length src.bytes) size_v2,
      ) in
      let (hist, taken) =
        walk_branches-hist (map decode_v2 whole) bt_conditional (omega arith) (omega arith) in
      let e : (v2_stats a whole).branches ≡ walk_branches (map decode_v2 whole) =
        v2_stats-branches a whole in
      (
        omega (
          arith,
          ap (λ b. get_or b.btype_hist bt_conditional 0) e,
          hist,
          count-le-length (λ r. branch_type r == bt_conditional) (map decode_v2 whole),
        ),
        omega (
          arith,
          ap (λ b. get_or b.btype_taken bt_conditional 0) e,
          taken,
          count-le-length (λ r. branch_type r == bt_conditional && truthy r.branch_taken)
              (map decode_v2 whole),
        ),
      )

  -- The run on a trace is that of its verdict.
  check_trace-verdict :
      (d : Double) (piped : Bool)
      → a.format ≡ v2
      → (tr : TraceReader) × (check_trace d a (fresh src piped)
          ≡ done (verdict d a (v2_stats a whole) tr.partial_bytes (finish tr).0))
        × Exhausted (fresh src piped) src size_v2 tr
  unfolding check_trace run_format run_v2
  check_trace-verdict d piped v =
      let start : Stats = record no_stats { v2 = true; want_ind_targets = a.ind_targets } in
      let (tr, run, ends) =
        read_loop-records size_v2 (omega arith) (λ bs. update_v2 a.no_unique (decode_v2 bs))
          (length src.bytes / size_v2) (suc (length src.bytes)) (fresh src piped) src start refl
          refl (omega (arith, div-le_self (length src.bytes) size_v2)) in
      let settled : Stats × TraceReader → Outcome (Stats × TraceReader) =
        λ p. done (settle_pending p.0, p.1) in
      let judged : Stats × TraceReader → Outcome ℕ =
        λ p. done (verdict d a p.0 p.1.partial_bytes (finish p.1).0) in
      (
        tr,
        ap (λ f. run_format f (fresh src piped) a no_stats >>= judged) v
            ∙ ap (λ o. (o >>= settled) >>= judged) run,
        ends,
      )

  module _ (d : Double) (laws : DoubleLaws d) where
    -- With `-f v2 --check`, on a trace of fewer than 2 ^ 46 bytes and with the double of IEEE 754, the tool
    -- exits with 0 exactly if reading and closing the trace went well, it has no record cut short, and
    -- its statistics meet the conditions of the six checks.
    pub check_trace-Accepts :
        (piped : Bool)
        → a.format ≡ v2
        → a.check ≡ true
        → length src.bytes < 2 ^ 46
        → (check_trace d a (fresh src piped) ≡ done 0) ↔ (
            (src.fails ≡ false)
            × (is_zero src.close_status ≡ true)
            × (length src.bytes % size_v2 ≡ 0)
            × Accepts (v2_stats a (v2_records src)))
    check_trace-Accepts piped v c small =
        let s : Stats = v2_stats a whole in
        let (tr, run, (fp, is_piped, status, err, left)) = check_trace-verdict d piped v in
        let (hist, taken) = few small in
        let judge = verdict-zero d a s tr.partial_bytes (finish tr).0 c in
        let closed = finish-zero tr (record src { bytes = [] }) fp status in
        let checks = run_checks-Accepts d laws s (v2_stats-v2 a whole) hist taken in
        let partial = leftover (length src.bytes % size_v2) in
        (
          (λ h.
              let (n, ok, p, k) = judge.0 (done_inj (sym run ∙ h)) in
              let (e, z) = closed.0 ok in (sym err ∙ e, z, partial.0 (sym left ∙ p), checks.0 k)),
          λ (e, z, p, acc).
              run
              ∙ ap done (
                  judge.1 (
                    omega (arith, acc.some_record),
                    closed.1 (err ∙ e, z),
                    left ∙ partial.1 p,
                    checks.1 acc,
                  )),
        )
