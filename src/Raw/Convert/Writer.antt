-- ===== src/Raw/Convert/Writer.antt =====
-- `TraceWriter`: the records are collected in `in_buf`, and go compressed to the file.
pub mod Over
use champsim_infra.Prelude.{
  ℕ, ◌+◌, ◌*◌, ◌%◌, ◌^◌, ◌&&◌, not, Bool, true, false, Option, none, some, List, [], ◌∷◌, ◌++◌,
  length, leb, ltb, is_empty, if◌then◌else◌, ◌≡◌, refl, sym, ap, ◌∙◌, append_assoc, append-nil, inl,
  inr, Bool-cases, arith, ◌≤◌, length-append,
}
use champsim_infra.Trace.{InstrV2, bytes_of}

abbrev pub words_of : List ℕ → List ℕ
words_of [] = []
words_of (v ∷ vs) = bytes_of 8 v ++ words_of vs

abbrev pub concat : List (List ℕ) → List ℕ
concat [] = []
concat (xs ∷ xss) = xs ++ concat xss

-- The 512 bytes of the packed struct `input_instr_v2`.
unfoldable pub encode_v2 : InstrV2 → List ℕ
unfolding bytes_of
encode_v2 r =
    bytes_of 8 r.ip
    ++ (r.is_branch
        ∷ r.branch_taken
        ∷ (r.destination_registers
            ++ (r.source_registers
                ++ (words_of r.destination_memory
                    ++ (words_of r.source_memory
                        ++ (words_of r.destination_memory_pa
                            ++ (words_of r.source_memory_pa
                                ++ (r.source_memory_size
                                    ++ (r.destination_memory_size
                                        ++ (r.privilege
                                            ∷ r.instr_type
                                            ∷ (r.reserved
                                                ++ (concat r.source_memory_value
                                                    ++ concat r.destination_memory_value))))))))))))

-- The compressed file, for the buffer above it: `feed` and `finish` are the do loop of `writer_flush`,
-- with ZSTD_e_continue and ZSTD_e_end; `none` is a failure. `sink_of` in Over fills it with the loop.
pub record Sink : Type 1 where
  pub W : Type 0
  pub feed : List ℕ → W → Option W
  pub finish : List ℕ → W → Option W

abbrev pub writer_buf_size : ℕ
writer_buf_size = 8 * 1024 * 1024

module _ (z : Sink) where
  pub record TraceWriter : Type 0 where
    pub in_buf : List ℕ
    pub sink : z.W
    pub total_written : ℕ

  abbrev pub with_sink : TraceWriter → Option z.W → Option TraceWriter
  with_sink w none = none
  with_sink w (some s) = some (record w { in_buf = []; sink = s })

  unfoldable pub writer_flush : Bool → TraceWriter → Option TraceWriter
  writer_flush final w =
      if is_empty w.in_buf && not final
      then some w
      else with_sink w (if final then z.finish w.in_buf w.sink else z.feed w.in_buf w.sink)

  abbrev pub with_buffered : List ℕ → TraceWriter → TraceWriter
  with_buffered bs w = record w { in_buf = w.in_buf ++ bs }

  -- After the flush; a piece that is too large for the buffer goes straight through.
  unfoldable pub write_flushed : List ℕ → Option TraceWriter → Option TraceWriter
  unfolding writer_flush
  write_flushed bs none = none
  write_flushed bs (some w) =
      if ltb writer_buf_size (length bs)
      then writer_flush false (record w { in_buf = bs })
      else some (with_buffered bs w)

  unfoldable pub writer_write : List ℕ → TraceWriter → Option TraceWriter
  unfolding writer_flush write_flushed
  writer_write bs w =
      let w' = record w { total_written = (w.total_written + length bs) % 2 ^ 64 } in
      if leb (length w.in_buf + length bs) writer_buf_size
      then some (with_buffered bs w')
      else write_flushed bs (writer_flush false w')

  -- What the file holds, decompressed, if nothing fails.
  pub record SinkLaws : Type 0 where
    pub fed : z.W → List ℕ
    pub feeds :
        (bs : List ℕ) (s : z.W)
        → length bs ≤ writer_buf_size
        → (s' : z.W) × (z.feed bs s ≡ some s') × (fed s' ≡ fed s ++ bs)
    pub decoded : z.W → Option (List ℕ)
    pub finishes :
        (bs : List ℕ) (s : z.W)
        → (s' : z.W) × (z.finish bs s ≡ some s') × (decoded s' ≡ some (fed s ++ bs))

  module _ (laws : SinkLaws) where
    -- What was written, in the file or not yet.
    abbrev pub view : TraceWriter → List ℕ
    view w = laws.fed w.sink ++ w.in_buf

    -- The buffer is not overrun.
    abbrev pub HasRoom : TraceWriter → Type 0
    HasRoom w = length w.in_buf ≤ writer_buf_size

    pub flush-view :
        (w : TraceWriter)
        → HasRoom w
        → (w' : TraceWriter) × (writer_flush false w ≡ some w')
          × (view w' ≡ view w)
          × (w'.in_buf ≡ [])
    unfolding writer_flush
    flush-view w room = elim (Bool-cases (is_empty w.in_buf && true)) [
      | inl e ↦ (w, ap (λ b. if b then some w else fed_to) e, refl, none_left w.in_buf e)
      | inr e ↦
          (let (s, ran, fed) = laws.feeds w.in_buf w.sink room in
            (
              record w { in_buf = []; sink = s },
              ap (λ b. if b then some w else fed_to) e ∙ ap (with_sink w) ran,
              append-nil (laws.fed s) ∙ fed,
              refl,
            ))
    ]
      where
        fed_to : Option TraceWriter
        fed_to = with_sink w (z.feed w.in_buf w.sink)

        none_left : (xs : List ℕ) → (is_empty xs && true) ≡ true → xs ≡ []
        none_left [] e = refl
        none_left (x ∷ xs) e = ground (arith)

    -- The last flush.
    pub flush-decoded :
        (w : TraceWriter)
        → (w' : TraceWriter) × (writer_flush true w ≡ some w')
          × (laws.decoded w'.sink ≡ some (view w))
    unfolding writer_flush
    flush-decoded w =
        let (s, ran, ends) = laws.finishes w.in_buf w.sink in
        (
          record w { in_buf = []; sink = s },
          ap (λ b. if b then some w else with_sink w (z.finish w.in_buf w.sink))
                (never (is_empty w.in_buf))
              ∙ ap (with_sink w) ran,
          ends,
        )
      where
        never : (b : Bool) → (b && false) ≡ false
        never true = refl
        never false = refl

    pub write-view :
        (bs : List ℕ) (w : TraceWriter)
        → length bs ≤ writer_buf_size
        → HasRoom w
        → (w' : TraceWriter) × (writer_write bs w ≡ some w') × (view w' ≡ view w ++ bs) × HasRoom w'
    unfolding writer_write write_flushed
    write-view bs w short room =
        elim (Bool-cases (leb (length w.in_buf + length bs) writer_buf_size)) [
          | inl e ↦ (
            with_buffered bs (grown w),
            ap
                (λ b.
                  if b
                  then some (with_buffered bs (grown w))
                  else write_flushed bs (writer_flush false (grown w)))
                e,
            sym (append_assoc (laws.fed w.sink) w.in_buf bs),
            ground (arith, e, length-append w.in_buf bs),
          )
          | inr e ↦
              (let (w₁, ran₁, same₁, empty₁) = flush-view (grown w) room in
                (
                  with_buffered bs w₁,
                  ap
                        (λ b.
                          if b
                          then some (with_buffered bs (grown w))
                          else write_flushed bs (writer_flush false (grown w)))
                        e
                      ∙ ap (write_flushed bs) ran₁
                      ∙ ap
                          (λ b.
                            if b
                            then writer_flush false (record w₁ { in_buf = bs })
                            else some (with_buffered bs w₁))
                          small,
                  sym (append_assoc (laws.fed w₁.sink) w₁.in_buf bs) ∙ ap (λ v. v ++ bs) same₁,
                  omega (arith, short, length-append w₁.in_buf bs, ap (λ xs. length xs) empty₁),
                ))
        ]
      where
        grown : TraceWriter → TraceWriter
        grown w = record w { total_written = (w.total_written + length bs) % 2 ^ 64 }

        small : ltb writer_buf_size (length bs) ≡ false
        small = ground (arith, short)
