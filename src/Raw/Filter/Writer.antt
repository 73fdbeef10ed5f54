-- ===== src/Raw/Filter/Writer.antt =====
-- `TraceWriter` of trace_filter.c: `inbuf` is the first inbuf_pos bytes of the buffer.
pub mod Over
use champsim_infra.Prelude.{
  ℕ, ◌+◌, ◌*◌, Option, some, List, [], ◌∷◌, ◌++◌, length, ltb, is_empty, if◌then◌else◌, ◌≡◌, refl,
  sym, ap, ◌∙◌, append_assoc, append-nil, inl, inr, Bool-cases,
}

-- The compressed file, for the buffer above it: `feed` is the loop with ZSTD_e_continue, `finish` that
-- with ZSTD_e_end; an error is reported to the user only. `compressor_of` in Over fills it with the loops.
pub record Compressor : Type 1 where
  pub W : Type 0
  pub feed : List ℕ → W → W
  pub finish : W → W

abbrev pub writer_inbuf_size : ℕ
writer_inbuf_size = 4 * 1024 * 1024

module _ (z : Compressor) where
  pub record FilterWriter : Type 0 where
    pub inbuf : List ℕ
    pub sink : z.W

  unfoldable pub flush_inbuf : FilterWriter → FilterWriter
  flush_inbuf w =
      if is_empty w.inbuf then w else record { inbuf = []; sink = z.feed w.inbuf w.sink }

  unfoldable pub writer_append : List ℕ → FilterWriter → FilterWriter
  unfolding flush_inbuf
  writer_append bs w =
      let w' = flush_inbuf w in
      if ltb writer_inbuf_size (length w.inbuf + length bs)
      then (if ltb writer_inbuf_size (length bs)
          then record w' { sink = z.feed bs w'.sink }
          else record w' { inbuf = w'.inbuf ++ bs })
      else record w { inbuf = w.inbuf ++ bs }

  unfoldable pub writer_finish : FilterWriter → FilterWriter
  unfolding flush_inbuf
  writer_finish w = let w' = flush_inbuf w in record w' { sink = z.finish w'.sink }

  -- The file's content: what zstd reads back from it.
  pub record Keeps : Type 0 where
    pub fed : z.W → List ℕ
    pub fed-feed : (bs : List ℕ) (w : z.W) → fed (z.feed bs w) ≡ fed w ++ bs
    pub decoded : z.W → Option (List ℕ)
    pub decoded-finish : (w : z.W) → decoded (z.finish w) ≡ some (fed w)

  module _ (laws : Keeps) where
    abbrev pub written : FilterWriter → List ℕ
    written w = laws.fed w.sink ++ w.inbuf

    flush_inbuf-both :
        (bs : List ℕ) (s : z.W)
        → let w : FilterWriter = record { inbuf = bs; sink = s } in
          ((flush_inbuf w).inbuf ≡ []) × (written (flush_inbuf w) ≡ written w)
    unfolding flush_inbuf
    flush_inbuf-both [] s = (refl, refl)
    flush_inbuf-both (b ∷ bs) s =
        (refl, append-nil (laws.fed (z.feed (b ∷ bs) s)) ∙ laws.fed-feed (b ∷ bs) s)

    flush_inbuf-empty : (w : FilterWriter) → (flush_inbuf w).inbuf ≡ []
    flush_inbuf-empty w = (flush_inbuf-both w.inbuf w.sink).0

    flush_inbuf-written : (w : FilterWriter) → written (flush_inbuf w) ≡ written w
    flush_inbuf-written w = (flush_inbuf-both w.inbuf w.sink).1

    pub flushed : (w : FilterWriter) → laws.fed (flush_inbuf w).sink ≡ written w
    flushed w =
        sym (append-nil (laws.fed (flush_inbuf w).sink))
        ∙ ap (λ bs. laws.fed (flush_inbuf w).sink ++ bs) (sym (flush_inbuf-empty w))
        ∙ flush_inbuf-written w

    pub writer_append-written :
        (bs : List ℕ) (w : FilterWriter) → written (writer_append bs w) ≡ written w ++ bs
    unfolding writer_append
    writer_append-written bs w =
        elim (Bool-cases (ltb writer_inbuf_size (length w.inbuf + length bs))) [
          | inl e ↦
              ap (λ b. written (if b then full else record w { inbuf = w.inbuf ++ bs })) e
              ∙ elim (Bool-cases (ltb writer_inbuf_size (length bs))) [
                | inl e ↦
                    ap (λ b. written (if b then straight else buffered)) e
                    ∙ ap (λ v. laws.fed (z.feed bs w'.sink) ++ v) (flush_inbuf-empty w)
                    ∙ append-nil (laws.fed (z.feed bs w'.sink))
                    ∙ laws.fed-feed bs w'.sink
                    ∙ ap (λ v. v ++ bs) (flushed w)
                | inr e ↦
                    ap (λ b. written (if b then straight else buffered)) e
                    ∙ sym (append_assoc (laws.fed w'.sink) w'.inbuf bs)
                    ∙ ap (λ v. v ++ bs) (flush_inbuf-written w)
              ]
          | inr e ↦
              ap (λ b. written (if b then full else record w { inbuf = w.inbuf ++ bs })) e
              ∙ sym (append_assoc (laws.fed w.sink) w.inbuf bs)
        ]
      where
        w' : FilterWriter
        w' = flush_inbuf w

        straight : FilterWriter
        straight = record w' { sink = z.feed bs w'.sink }

        buffered : FilterWriter
        buffered = record w' { inbuf = w'.inbuf ++ bs }

        full : FilterWriter
        full = if ltb writer_inbuf_size (length bs) then straight else buffered

    pub writer_finish-written :
        (w : FilterWriter) → laws.decoded (writer_finish w).sink ≡ some (written w)
    unfolding writer_finish
    writer_finish-written w =
        laws.decoded-finish (flush_inbuf w).sink ∙ ap (λ v. some v) (flushed w)
