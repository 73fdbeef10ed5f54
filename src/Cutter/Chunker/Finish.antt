-- ===== src/Cutter/Chunker/Finish.antt =====
-- The end of the input: the last chunk is closed, and the cut is complete.
use mathlib.Core.List.{flatten}
use champsim_infra.Prelude.{
  ℕ, zero, suc, ◌+◌, ◌*◌, ◌%◌, ◌^◌, ◌<◌, ◌≡◌, refl, sym, ap, ap₂, subst, ◌∙◌, Bool, true, false,
  not, List, [], ◌∷◌, ◌++◌, map, append-nil, length, replicate, length-replicate, flatten-snoc,
  map-snoc, length-append, nil-of_length, ltb, arith, if◌then◌else◌, Ends, Ends->>=, Ends-then,
  Ends-else,
}
use champsim_infra.Cutter.Codec.{Codec}
use champsim_infra.Cutter.Args.{Args}
use champsim_infra.Cutter.Chunker.{State, record_size, finalize_current_chunk}
use champsim_infra.Cutter.Chunker.Progress.{Writing, Counted}
use champsim_infra.Cutter.Chunker.Blocks.{Fed}

-- What the run has cut: `raws` are the bytes of the chunks. All but the last hold `n` records and
-- the last at least one; less than a record is left over in the carry.
pub record Cut (z : Codec) (n : ℕ) (input : List ℕ) (s : State z) (raws : List (List ℕ))
    : Type 0 where
  pub content : flatten raws ++ s.carry ≡ input
  pub left_over : length s.carry < record_size
  pub sizes : map length raws ≡ map (λ k. k * record_size) s.chunk_records_list
  pub full : ℕ
  pub rest : ℕ
  pub rest_below : rest < n
  pub shape : s.chunk_records_list ≡ replicate full n ++ (if ltb 0 rest then rest ∷ [] else [])
  pub total : s.total_records ≡ full * n + rest
  pub number : s.part_idx ≡ length s.chunk_records_list % 2 ^ 32

map-replicate : (f : ℕ → ℕ) (k n : ℕ) → map f (replicate k n) ≡ replicate k (f n)
map-replicate f zero n = refl
map-replicate f (suc k) n = ap (◌∷◌ (f n)) (map-replicate f k n)

module _ (z : Codec) (a : Args) (Q : Type 0) (v : Writing z a Q)
    (fits : a.chunk_records < 2 ^ 64) where
  -- The final call of `finalize_current_chunk` closes the chunk that is open, if there is one.
  abbrev pub Finished : List ℕ → State z → Type 0
  Finished input s =
      (raws : List (List ℕ)) × Cut z a.chunk_records input s raws × v.Holds s.writer false raws []

  finish-open :
      (s : State z) (t : ℕ) (bytes : List ℕ) (is_open : Bool)
      → Counted z a Q v s t bytes is_open a.chunk_records t
      → is_open ≡ ltb 0 s.chunk_records
      → length s.carry < record_size
      → Ends (Finished (bytes ++ s.carry)) Q (finalize_current_chunk z a s)
  unfolding finalize_current_chunk
  finish-open s t bytes true h e short = Ends-else _ Q (not s.writer_open) _ _ (ap not h.opened) (
      Ends->>= (λ w. v.Holds w false (h.raws ++ h.cur ∷ []) []) (Finished (bytes ++ s.carry)) Q _ _
        (v.closes s.writer h.raws h.cur h.written)
        (λ w held. (
          h.raws ++ h.cur ∷ [],
          record {
            content = ap (λ l. l ++ s.carry) (flatten-snoc h.raws h.cur ∙ h.content);
            left_over = short;
            sizes =
                map-snoc length h.raws h.cur
                ∙ ap₂ (λ l n. l ++ n ∷ [])
                    (h.sizes ∙ sym (map-replicate (λ k. k * record_size) h.full a.chunk_records))
                    h.size
                ∙ sym (
                    map-snoc (λ k. k * record_size) (replicate h.full a.chunk_records)
                      s.chunk_records)
                ∙ ap (λ l. map (λ k. k * record_size) (l ++ s.chunk_records ∷ [])) (sym h.list);
            full = h.full;
            rest = s.chunk_records;
            rest_below = h.below;
            shape = ap₂ (λ l b. l ++ (if b then s.chunk_records ∷ [] else [])) h.list e;
            total = omega (arith, h.total, h.split);
            number = omega (
              arith,
              h.part,
              length-append s.chunk_records_list (s.chunk_records ∷ []),
              ap length h.list,
              length-replicate h.full a.chunk_records,
            );
          },
          held,
        )))
  finish-open s t bytes false h e short =
      let none_open : s.chunk_records ≡ 0 = ground (arith, e) in
      let nothing : h.cur ≡ [] = nil-of_length h.cur (omega (arith, h.size)) in
      Ends-then _ Q (not s.writer_open) _ _ (ap not h.opened) (
        h.raws,
        record {
          content =
              ap (λ l. l ++ s.carry)
                (sym (append-nil (flatten h.raws))
                  ∙ ap (◌++◌ (flatten h.raws)) (sym nothing)
                  ∙ h.content);
          left_over = short;
          sizes =
              h.sizes
              ∙ sym (map-replicate (λ k. k * record_size) h.full a.chunk_records)
              ∙ ap (map (λ k. k * record_size)) (sym h.list);
          full = h.full;
          rest = 0;
          rest_below = omega (arith, h.below);
          shape = h.list ∙ sym (append-nil (replicate h.full a.chunk_records));
          total = omega (arith, h.total, h.split);
          number = omega (arith, h.part, ap length h.list, length-replicate h.full a.chunk_records);
        },
        subst (v.Holds s.writer false h.raws) nothing h.written,
      )

  pub finish :
      (s : State z) (input : List ℕ)
      → Fed z a Q v fits input s
      → Ends (Finished input) Q (finalize_current_chunk z a s)
  finish s input f =
      subst (λ l. Ends (Finished l) Q (finalize_current_chunk z a s)) f.joined
        (finish-open s f.records f.bytes (ltb 0 s.chunk_records) f.settled refl f.short)
