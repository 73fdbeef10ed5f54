-- ===== src/Sanity/Run/Whole.antt =====
-- The read loop sees every whole record, in order, and what is left over is reported.
use mathlib.Core.List.{foldl}
use native.Mathlib.Nat.{
  div-lt_iff_lt-mul, le-div_iff_mul-le, div-eq-sub-div, mod-eq-sub-mod, mod-eq_of_lt,
}
use champsim_infra.Prelude.{
  ℕ, zero, suc, ◌-◌, ◌/◌, ◌%◌, ◌≤◌, ◌<◌, ◌≡◌, refl, sym, ap, ◌∙◌, ◌||◌, Option, none, some, List,
  [], ◌∷◌, length, length-take, length-drop, drop-length, take, drop, ◌==◌, arith, if◌then◌else◌,
  ==_iff, ==_false, Outcome, done,
}
use champsim_infra.Sanity.Reader.{TraceReader, Source, read}
use champsim_infra.Sanity.Run.{read_loop}

-- The whole records of a file.
unfoldable pub records : ℕ → ℕ → List ℕ → List (List ℕ)
records size zero bs = []
records size (suc n) bs = take size bs ∷ records size n (drop size bs)

-- The reader at the end of a stream that had `bytes` left.
abbrev pub Exhausted : TraceReader → Source → ℕ → TraceReader → Type 0
Exhausted tr src size tr' =
    (tr'.fp ≡ some (record src { bytes = [] }))
    × (tr'.piped ≡ tr.piped)
    × (tr'.status ≡ tr.status)
    × (tr'.read_error ≡ (tr.read_error || src.fails))
    × (tr'.partial_bytes
        ≡ (if length src.bytes % size == 0 then tr.partial_bytes else length src.bytes % size))

-- A read from an open stream.
abbrev got : ℕ → TraceReader → Source → TraceReader
got n tr src = record tr { fp = some (record src { bytes = drop n src.bytes }) }

abbrev short : ℕ → TraceReader → Source → TraceReader
short n tr src = record tr {
  fp = some (record src { bytes = drop n src.bytes });
  partial_bytes =
      if length (take n src.bytes) == 0 then tr.partial_bytes else length (take n src.bytes);
  read_error = tr.read_error || src.fails;
}

read-open :
    (n : ℕ) (tr : TraceReader) (src : Source)
    → tr.fp ≡ some src
    → read n tr ≡ (
        if length (take n src.bytes) == n
        then (some (take n src.bytes), got n tr src)
        else (none, short n tr src))
unfolding read
read-open n tr src e =
    ap
      (λ (o : Option Source). elim o as (λ x. Option (List ℕ) × TraceReader) [
        | none ↦ (none, tr)
        | some src ↦
            (if length (take n src.bytes) == n
              then (some (take n src.bytes), got n tr src)
              else (none, short n tr src))
      ])
      e

read-whole :
    (n : ℕ) (tr : TraceReader) (src : Source)
    → tr.fp ≡ some src
    → n ≤ length src.bytes
    → read n tr ≡ (some (take n src.bytes), got n tr src)
read-whole n tr src e h =
    read-open n tr src e
    ∙ ap (λ b. if b then (some (take n src.bytes), got n tr src) else (none, short n tr src))
        ((==_iff _ n).1 (omega (arith, length-take n src.bytes)))

read-short :
    (n : ℕ) (tr : TraceReader) (src : Source)
    → tr.fp ≡ some src
    → length src.bytes < n
    → read n tr ≡ (none, short n tr src)
read-short n tr src e h =
    read-open n tr src e
    ∙ ap (λ b. if b then (some (take n src.bytes), got n tr src) else (none, short n tr src))
        (==_false _ n (omega (arith, length-take n src.bytes)))

module _ {ℓ} {S : Type ℓ} (size : ℕ) (pos : 0 < size) (body : List ℕ → S → S) where
  -- What the loop does with the result of a read.
  abbrev round : ℕ → S → Option (List ℕ) × TraceReader → Outcome (S × TraceReader)
  round fuel s p = elim p.0 as (λ x. Outcome (S × TraceReader)) [
    | none ↦ done (s, p.1)
    | some bs ↦ read_loop size body fuel p.1 (body bs s)
  ]

  -- With more fuel than whole records, the loop on an open stream ends, having handed every whole
  -- record to its body, in order; the reader is at the end of the stream, with the length of what is
  -- left over and the error of the stream.
  pub read_loop-records :
      (n fuel : ℕ) (tr : TraceReader) (src : Source) (s : S)
      → tr.fp ≡ some src
      → n ≡ length src.bytes / size
      → n < fuel
      → (tr' : TraceReader) × (read_loop size body fuel tr s
          ≡ done (foldl (λ s bs. body bs s) s (records size n src.bytes), tr'))
        × Exhausted tr src size tr'
  unfolding read_loop records
  read_loop-records n zero tr src s e k m = absurd (omega arith)
  read_loop-records zero (suc fuel) tr src s e k m =
      let less : length src.bytes < size = omega (
        arith,
        (div-lt_iff_lt-mul {k = size} {x = length src.bytes} {y = 1} pos).0 (omega arith),
      ) in
      let left : length (take size src.bytes) ≡ length src.bytes % size =
        omega (arith, length-take size src.bytes, mod-eq_of_lt less) in
      (
        short size tr src,
        ap (round fuel s) (read-short size tr src e less),
        (
          ap (λ b. some (record src { bytes = b })) (drop-length size src.bytes (omega arith)),
          refl,
          refl,
          refl,
          ap (λ l. if l == 0 then tr.partial_bytes else l) left,
        ),
      )
  read_loop-records (suc n) (suc fuel) tr src s e k m =
      let enough : size ≤ length src.bytes = omega (
        arith,
        (le-div_iff_mul-le {k = size} {x = 1} {y = length src.bytes} pos).0 (omega arith),
      ) in
      let rest : length (drop size src.bytes) ≡ length src.bytes - size =
        length-drop size src.bytes in
      let (tr', run, ends) =
        read_loop-records n fuel (got size tr src) (record src { bytes = drop size src.bytes })
          (body (take size src.bytes) s) refl
          (omega (arith, div-eq-sub-div pos enough, ap (λ l. l / size) rest)) (omega arith) in
      let same : length (drop size src.bytes) % size ≡ length src.bytes % size =
        ap (λ l. l % size) rest ∙ sym (mod-eq-sub-mod enough) in
      (
        tr',
        ap (round fuel s) (read-whole size tr src e enough) ∙ run,
        (
          ends.0,
          ends.1,
          ends.2,
          ends.3,
          ends.4 ∙ ap (λ l. if l == 0 then tr.partial_bytes else l) same,
        ),
      )
