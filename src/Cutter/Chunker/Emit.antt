-- ===== src/Cutter/Chunker/Emit.antt =====
-- `emit_records` and `consume_decompressed`: every record is counted and written once, in order.
use mathlib.Core.List.{flatten}
use champsim_infra.Prelude.{
  ℕ, zero, suc, ◌+◌, ◌-◌, ◌*◌, ◌%◌, ◌^◌, ◌≤◌, ◌<◌, ◌≡◌, refl, sym, ap, subst, subst₂, ◌∙◌, min,
  true, List, [], ◌++◌, append_assoc, append-nil, length, take, drop, ltb, ◌==◌, arith, done, Ends,
  Ends->>=, Ends-then, Ends-else, Ends-mono, inl, inr, Bool-cases, length-take, length-drop,
  length-append, take-add, lt→ltb, if◌then◌else◌,
}
use champsim_infra.Cutter.Codec.{Codec}
use champsim_infra.Cutter.Writer.{ChunkWriter}
use champsim_infra.Cutter.Args.{Args}
use champsim_infra.Cutter.Chunker.{
  State, record_size, heartbeat_records, finalize_current_chunk, room, emit_round, emit_from,
  emit_records,
}
use champsim_infra.Cutter.Chunker.Progress.{
  Writing, Counted, Progress, Settled, ensure_writer_open-Progress, finalize_full,
  maybe_heartbeat-Progress,
}

module _ (z : Codec) (a : Args) (Q : Type 0) (v : Writing z a Q)
    (fits : a.chunk_records < 2 ^ 64) where
  -- The test after the write closes a chunk that has all its records.
  close_if_full :
      (s : State z) (t : ℕ) (bytes : List ℕ)
      → Counted z a Q v s t bytes true (suc a.chunk_records) 0
      → 0 < s.chunk_records
      → 0 < a.chunk_records
      → Ends
          (λ s'.
            Counted z a Q v s' t bytes (ltb 0 s'.chunk_records) a.chunk_records 0
            × (s'.carry ≡ s.carry))
          Q
          (if s.chunk_records == a.chunk_records then finalize_current_chunk z a s else done s)
  close_if_full s t bytes h some_taken pos =
      elim (Bool-cases (s.chunk_records == a.chunk_records)) [
        | inl e ↦ Ends-then _ Q _ _ _ e (finalize_full z a Q v s t bytes h (ground arith) pos)
        | inr e ↦ Ends-else _ Q _ _ _ e (
          subst (λ o. Counted z a Q v s t bytes o a.chunk_records 0)
              (sym (lt→ltb 0 s.chunk_records some_taken))
              (record {
                total = h.total;
                full = h.full;
                split = h.split;
                below = ground (arith, h.below);
                list = h.list;
                part = h.part;
                opened = h.opened;
                ahead = h.ahead;
                near = h.near;
                raws = h.raws;
                cur = h.cur;
                count = h.count;
                sizes = h.sizes;
                size = h.size;
                content = h.content;
                written = h.written;
              }),
          refl,
        )
      ]

  -- One round counts and writes the records that it takes.
  emit_round-Settled :
      (p : List ℕ) (taken : ℕ) (s : State z) (t : ℕ) (bytes : List ℕ)
      → Progress z a Q v s t bytes true
      → 0 < taken
      → taken + s.chunk_records ≤ a.chunk_records
      → taken * record_size ≤ length p
      → t + taken + heartbeat_records < 2 ^ 64
      → Ends
          (λ s'.
            Settled z a Q v s' (t + taken) (bytes ++ take (taken * record_size) p)
            × (s'.carry ≡ s.carry))
          Q
          (emit_round z a p taken s)
  unfolding emit_round
  emit_round-Settled p taken s t bytes h pos fit enough small =
      Ends->>= (λ w. v.Holds w true h.raws (h.cur ++ src)) Post Q _ _
        (v.writes s.writer h.raws h.cur src h.written)
        (λ w held.
          Ends->>=
            (λ s''.
              Counted z a Q v s'' (t + taken) (bytes ++ src) (ltb 0 s''.chunk_records)
                a.chunk_records 0
              × (s''.carry ≡ s.carry))
            Post Q _ _ (close_if_full (after w) _ _ (midway w held) (omega arith) (omega arith))
            (λ s'' k.
              Ends-mono _ Post Q _ (maybe_heartbeat-Progress z a Q v s'' _ _ k.0 small)
                (λ s₃ k₃. (k₃.0, k₃.1 ∙ k.1))))
    where
      Post : State z → Type 0
      Post s' =
          Settled z a Q v s' (t + taken) (bytes ++ take (taken * record_size) p)
          × (s'.carry ≡ s.carry)

      src : List ℕ
      src = take (taken * record_size) p

      after : ChunkWriter z → State z
      after w = record s {
        writer = w;
        chunk_records = (s.chunk_records + taken) % 2 ^ 64;
        total_records = (s.total_records + taken) % 2 ^ 64;
      }

      midway :
          (w : ChunkWriter z)
          → v.Holds w true h.raws (h.cur ++ src)
          → Counted z a Q v (after w) (t + taken) (bytes ++ src) true (suc a.chunk_records) 0
      midway w held = record {
        total = omega (arith, h.total);
        full = h.full;
        split = omega (arith, h.split);
        below = omega arith;
        list = h.list;
        part = h.part;
        opened = h.opened;
        ahead = omega (arith, h.ahead);
        near = omega (arith, h.near);
        raws = h.raws;
        cur = h.cur ++ src;
        count = h.count;
        sizes = h.sizes;
        size = omega (arith, length-append h.cur src, length-take (taken * record_size) p, h.size);
        content = sym (append_assoc (flatten h.raws) h.cur src) ∙ ap (λ l. l ++ src) h.content;
        written = held;
      }

  -- `s'` is `s` after `n` records of `p`.
  abbrev pub Emitted : State z → ℕ → List ℕ → List ℕ → ℕ → State z → Type 0
  Emitted s t bytes p n s' =
      Settled z a Q v s' (t + n) (bytes ++ take (n * record_size) p) × (s'.carry ≡ s.carry)

  pub Emitted-none :
      (s : State z) (t n : ℕ) (bytes p : List ℕ)
      → n ≡ 0
      → Settled z a Q v s t bytes
      → Emitted s t bytes p n s
  Emitted-none s t n bytes p e h =
      let no_bytes : take (n * record_size) p ≡ [] = ap (λ k. take (k * record_size) p) e in
      (
        subst₂ (Settled z a Q v s) (omega arith) (sym (ap (◌++◌ bytes) no_bytes ∙ append-nil bytes))
            h,
        refl,
      )

  Emitted-trans :
      (s s₂ s₃ : State z) (t m n k : ℕ) (bytes p : List ℕ)
      → m + n ≡ k
      → Emitted s t bytes p m s₂
      → Emitted s₂ (t + m) (bytes ++ take (m * record_size) p) (drop (m * record_size) p) n s₃
      → Emitted s t bytes p k s₃
  Emitted-trans s s₂ s₃ t m n k bytes p e (h, c) (h', c') =
      let sum : m * record_size + n * record_size ≡ k * record_size = omega arith in
      let joined : take (m * record_size) p ++ take (n * record_size) (drop (m * record_size) p)
          ≡ take (k * record_size) p =
        sym (take-add (m * record_size) (n * record_size) p) ∙ ap (λ i. take i p) sum in
      (
        subst₂ (Settled z a Q v s₃) (omega arith)
            (append_assoc bytes (take (m * record_size) p) _ ∙ ap (◌++◌ bytes) joined) h',
        c' ∙ c,
      )

  -- The loop of `emit_records` ends, and takes all the records.
  emit_from-Emitted :
      (fuel : ℕ) (p : List ℕ) (nrec : ℕ) (s : State z) (t : ℕ) (bytes : List ℕ)
      → Settled z a Q v s t bytes
      → nrec < fuel
      → nrec * record_size ≤ length p
      → t + nrec + heartbeat_records < 2 ^ 64
      → Ends (Emitted s t bytes p nrec) Q (emit_from z fuel a p nrec s)
  unfolding emit_from
  emit_from-Emitted zero p nrec s t bytes h m enough small = absurd (omega arith)
  emit_from-Emitted (suc fuel) p nrec s t bytes h m enough small = elim (Bool-cases (nrec == 0)) [
    | inl e ↦ rw (e, emit_from) (Emitted-none s t nrec bytes p (ground arith) h)
    | inr e ↦
        rw (e, emit_from)
          (Ends->>=
            (λ s'.
              Progress z a Q v s' t bytes true
              × (s'.chunk_records ≡ s.chunk_records)
              × (s'.carry ≡ s.carry))
            (Emitted s t bytes p nrec) Q _ _
            (ensure_writer_open-Progress z a Q v (ltb 0 s.chunk_records) s t bytes h
              (λ e. ground arith))
            (λ s₁ k.
              let taken : ℕ = min nrec (room z a s₁) in
              let pos : 0 < nrec = ground arith in
              Ends->>= (Emitted s₁ t bytes p taken) (Emitted s t bytes p nrec) Q _ _
                (emit_round-Settled p taken s₁ t bytes k.0 (omega (arith, k.0.below))
                  (omega (arith, k.0.below)) (omega arith) (omega arith))
                (λ s₂ h₂.
                  Ends-mono _ (Emitted s t bytes p nrec) Q _
                    (emit_from-Emitted fuel (drop (taken * record_size) p) (nrec - taken) s₂
                      (t + taken) (bytes ++ take (taken * record_size) p) h₂.0
                      (omega (arith, k.0.below))
                      (omega (arith, length-drop (taken * record_size) p)) (omega arith))
                    (λ s₃ h₃.
                      Emitted-trans s s₂ s₃ t taken (nrec - taken) nrec bytes p (omega arith)
                        (h₂.0, h₂.1 ∙ k.2) h₃))))
  ]

  -- `emit_records` ends, and counts and writes all the records, in order.
  pub emit_records-Emitted :
      (p : List ℕ) (nrec : ℕ) (s : State z) (t : ℕ) (bytes : List ℕ)
      → Settled z a Q v s t bytes
      → nrec * record_size ≤ length p
      → t + nrec + heartbeat_records < 2 ^ 64
      → Ends (Emitted s t bytes p nrec) Q (emit_records z a p nrec s)
  unfolding emit_records
  emit_records-Emitted p nrec s t bytes h enough small =
      emit_from-Emitted (suc nrec) p nrec s t bytes h (omega arith) enough small
