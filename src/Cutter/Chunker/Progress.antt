-- ===== src/Cutter/Chunker/Progress.antt =====
-- The chunker over any writer: what `emit_records` and `consume_decompressed` keep true.
-- A writer enters through what its three calls guarantee, so a dry run is one more writer.
use mathlib.Core.List.{flatten}
use champsim_infra.Prelude.{
  ℕ, zero, suc, ◌+◌, ◌-◌, ◌*◌, ◌%◌, ◌^◌, ◌≤◌, ◌<◌, ◌≡◌, refl, sym, ap, subst, ◌∙◌, Bool, true,
  false, List, [], ◌∷◌, ◌++◌, map, append-nil, length, replicate, ltb, leb, arith, done, Ends,
  Ends->>=, inl, inr, Bool-cases, length-append, Ends-then, Ends-else, nil-of_length, not, ap₂,
  replicate-snoc, map-snoc, flatten-snoc,
}
use champsim_infra.Cutter.Codec.{Codec}
use champsim_infra.Cutter.Writer.{ChunkWriter, open_chunk, write_records, close_chunk}
use champsim_infra.Cutter.Args.{Args}
use champsim_infra.Cutter.Naming.{output_path}
use champsim_infra.Cutter.Chunker.{
  State, record_size, heartbeat_records, heartbeat, unless_dry, ensure_writer_open,
  finalize_current_chunk, maybe_heartbeat,
}

-- What a writer guarantees: `Holds w open raws cur` says that it has closed chunks of the bytes
-- `raws`, and that the open chunk has been given `cur`.
pub record Writing (z : Codec) (a : Args) (Q : Type 0) : Type 1 where
  pub Holds : ChunkWriter z → Bool → List (List ℕ) → List ℕ → Type 0
  pub opens :
      (w : ChunkWriter z) (raws : List (List ℕ)) (i : ℕ)
      → i ≡ length raws % 2 ^ 32
      → Holds w false raws []
      → Ends (λ w'. Holds w' true raws []) Q (unless_dry z a (open_chunk z (output_path a i)) w)
  pub writes :
      (w : ChunkWriter z) (raws : List (List ℕ)) (cur src : List ℕ)
      → Holds w true raws cur
      → Ends (λ w'. Holds w' true raws (cur ++ src)) Q (unless_dry z a (write_records z src) w)
  pub closes :
      (w : ChunkWriter z) (raws : List (List ℕ)) (cur : List ℕ)
      → Holds w true raws cur
      → Ends (λ w'. Holds w' false (raws ++ cur ∷ []) []) Q (unless_dry z a (close_chunk z) w)

-- `maybe_heartbeat` ends with the next heartbeat ahead of the records counted.
heartbeat-ahead :
    (fuel total next : ℕ)
    → next ≤ total + heartbeat_records
    → total + heartbeat_records < 2 ^ 64
    → total + 1 - next < fuel
    → (n : ℕ) × (heartbeat fuel total next ≡ done n) × (total < n) × (n ≤ total + heartbeat_records)
unfolding heartbeat
heartbeat-ahead zero total next h small m = absurd (omega arith)
heartbeat-ahead (suc fuel) total next h small m = elim (Bool-cases (leb next total)) [
  | inl e ↦
      let due : next ≤ total = ground arith in
      let step : (next + heartbeat_records) % 2 ^ 64 ≡ next + heartbeat_records = omega arith in
      rw (e, heartbeat)
        (rw step
          (heartbeat-ahead fuel total (next + heartbeat_records) (omega arith) small (omega arith)))
  | inr e ↦ rw (e, heartbeat) (next, refl, ground arith, h)
]

module _ (z : Codec) (a : Args) (Q : Type 0) (v : Writing z a Q) where
  -- The chunker after `t` records, whose bytes are `bytes`: `top` and `floor` bound the current
  -- chunk and the next heartbeat.
  pub record Counted (s : State z) (t : ℕ) (bytes : List ℕ) (is_open : Bool) (top floor : ℕ)
      : Type 0 where
    pub total : s.total_records ≡ t
    -- the number of chunks closed so far
    pub full : ℕ
    pub split : full * a.chunk_records + s.chunk_records ≡ t
    pub below : s.chunk_records < top
    pub list : s.chunk_records_list ≡ replicate full a.chunk_records
    pub part : s.part_idx ≡ full % 2 ^ 32
    pub opened : s.writer_open ≡ is_open
    pub ahead : floor < s.next_heartbeat
    pub near : s.next_heartbeat ≤ t + heartbeat_records
    pub raws : List (List ℕ)
    pub cur : List ℕ
    pub count : length raws ≡ full
    pub sizes : map length raws ≡ replicate full (a.chunk_records * record_size)
    pub size : length cur ≡ s.chunk_records * record_size
    pub content : flatten raws ++ cur ≡ bytes
    pub written : v.Holds s.writer is_open raws cur

  abbrev pub Progress : State z → ℕ → List ℕ → Bool → Type 0
  Progress s t bytes is_open = Counted s t bytes is_open a.chunk_records t

  -- Between rounds a chunk is open exactly if it holds a record.
  abbrev pub Settled : State z → ℕ → List ℕ → Type 0
  Settled s t bytes = Progress s t bytes (ltb 0 s.chunk_records)

  pub ensure_writer_open-Progress :
      (is_open : Bool) (s : State z) (t : ℕ) (bytes : List ℕ)
      → Progress s t bytes is_open
      → (is_open ≡ false → s.chunk_records ≡ 0)
      → Ends
          (λ s'.
            Progress s' t bytes true × (s'.chunk_records ≡ s.chunk_records) × (s'.carry ≡ s.carry))
          Q
          (ensure_writer_open z a s)
  unfolding ensure_writer_open
  ensure_writer_open-Progress true s t bytes p h =
      Ends-then _ Q s.writer_open _ _ p.opened (p, refl, refl)
  ensure_writer_open-Progress false s t bytes p h =
      let none_yet : p.cur ≡ [] = nil-of_length p.cur (omega (arith, p.size, h refl)) in
      Ends-else _ Q s.writer_open _ _ p.opened (
        Ends->>= (λ w. v.Holds w true p.raws []) _ Q _ _
          (v.opens s.writer p.raws s.part_idx (omega (arith, p.part, p.count))
            (subst (v.Holds s.writer false p.raws) none_yet p.written))
          (λ w held. (
            record {
              total = p.total;
              full = p.full;
              split = p.split;
              below = p.below;
              list = p.list;
              part = p.part;
              opened = refl;
              ahead = p.ahead;
              near = p.near;
              raws = p.raws;
              cur = [];
              count = p.count;
              sizes = p.sizes;
              size = omega (arith, h refl);
              content = ap (◌++◌ (flatten p.raws)) (sym none_yet) ∙ p.content;
              written = held;
            },
            refl,
            refl,
          )))

  -- `finalize_current_chunk` at a chunk that has all its records.
  pub finalize_full :
      (s : State z) (t : ℕ) (bytes : List ℕ)
      → Counted s t bytes true (suc a.chunk_records) 0
      → s.chunk_records ≡ a.chunk_records
      → 0 < a.chunk_records
      → Ends
          (λ s'.
            Counted s' t bytes (ltb 0 s'.chunk_records) a.chunk_records 0 × (s'.carry ≡ s.carry))
          Q
          (finalize_current_chunk z a s)
  unfolding finalize_current_chunk
  finalize_full s t bytes p e pos = Ends-else _ Q (not s.writer_open) _ _ (ap not p.opened) (
      Ends->>= (λ w. v.Holds w false (p.raws ++ p.cur ∷ []) []) _ Q _ _
        (v.closes s.writer p.raws p.cur p.written)
        (λ w held. (
          record {
            total = p.total;
            full = suc p.full;
            split = omega (arith, p.split);
            below = pos;
            list = ap₂ (λ l n. l ++ n ∷ []) p.list e ∙ replicate-snoc p.full a.chunk_records;
            part = omega (arith, p.part);
            opened = refl;
            ahead = p.ahead;
            near = p.near;
            raws = p.raws ++ p.cur ∷ [];
            cur = [];
            count = omega (arith, length-append p.raws (p.cur ∷ []), p.count);
            sizes =
                map-snoc length p.raws p.cur
                ∙ ap₂ (λ l n. l ++ n ∷ []) p.sizes (p.size ∙ ap (λ n. n * record_size) e)
                ∙ replicate-snoc p.full (a.chunk_records * record_size);
            size = omega arith;
            content =
                append-nil (flatten (p.raws ++ p.cur ∷ [])) ∙ flatten-snoc p.raws p.cur ∙ p.content;
            written = held;
          },
          refl,
        )))

  pub maybe_heartbeat-Progress :
      (s : State z) (t : ℕ) (bytes : List ℕ)
      → Counted s t bytes (ltb 0 s.chunk_records) a.chunk_records 0
      → t + heartbeat_records < 2 ^ 64
      → Ends (λ s'. Settled s' t bytes × (s'.carry ≡ s.carry)) Q (maybe_heartbeat z s)
  unfolding maybe_heartbeat
  maybe_heartbeat-Progress s t bytes p small =
      let (n, e, above, near) =
        heartbeat-ahead (suc s.total_records) s.total_records s.next_heartbeat
          (omega (arith, p.near, p.total)) (omega (arith, p.total)) (omega (arith, p.ahead)) in
      rw e (
        record {
          total = p.total;
          full = p.full;
          split = p.split;
          below = p.below;
          list = p.list;
          part = p.part;
          opened = p.opened;
          ahead = omega (arith, p.total);
          near = omega (arith, p.total);
          raws = p.raws;
          cur = p.cur;
          count = p.count;
          sizes = p.sizes;
          size = p.size;
          content = p.content;
          written = p.written;
        },
        refl,
      )
