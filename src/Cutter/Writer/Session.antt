-- ===== src/Cutter/Writer/Session.antt =====
-- The writer's calls against the codec's documented behaviour: what a session writes to its file
-- decodes to what it was fed.
use native.Mathlib.Nat.{mul-le-mul_right}
use champsim_infra.Prelude.{
  ℕ, zero, suc, ◌+◌, ◌*◌, ◌≤◌, ◌<◌, ◌≡◌, ◌≢◌, refl, sym, ap, ap₂, subst, ◌∙◌, ◌⊎◌, inl, inr, true,
  false, none, some, List, [], ◌∷◌, ◌++◌, append_assoc, append-nil, length, take, drop, arith, ◌==◌,
  Ends, Ends->>=, Ends-require, Bool-cases, Option-cases, take-length, take-append-drop,
  length-drop,
}
use champsim_infra.Cutter.Codec.{Codec, CodecLaws, Call}
use champsim_infra.Cutter.Writer.{
  ChunkWriter, open_chunk, feed, feed_fuel, write_records, flush, close_chunk, appended, advance,
  wrote, shut,
}

-- What each failing call is allowed to lead to.
pub record Faults (z : Codec) (Q : Type 0) : Type 0 where
  pub open_failed : (p : List ℕ) → z.can_open p ≡ false → Q
  pub continue_failed : (c : z.Ctx) (src : List ℕ) → z.continue c src ≡ none → Q
  pub end_failed : (c : z.Ctx) → z.end c ≡ none → Q

-- No write is short.
abbrev pub WritesAll : Codec → Type 0
WritesAll z = (file out : List ℕ) → z.fwrite file out ≡ length out

-- An open file that holds what the context has emitted, after it was fed `raw`.
pub record Session (z : Codec) (laws : CodecLaws z) (w : ChunkWriter z) (raw : List ℕ)
    : Type 0 where
  pub file : List ℕ
  pub ctx : z.Ctx
  pub fp-file : w.fp ≡ some file
  pub cctx-ctx : w.cctx ≡ some ctx
  pub emitted-file : laws.emitted ctx ≡ file
  pub fed-raw : laws.fed ctx ≡ raw

-- A round that reads a byte or flushes one brings the loop nearer to its end.
pub measure-lt :
    (l l' p p' b fuel : ℕ)
    → 0 < l
    → p' ≤ b
    → (l' < l) ⊎ ((l' ≤ l) × (p' < p))
    → l * suc b + p < suc fuel
    → l' * suc b + p' < fuel
measure-lt l l' p p' b fuel pos bound (inl fewer) h =
    omega (arith, mul-le-mul_right {m = suc l'} {n = l} (suc b) fewer)
measure-lt l l' p p' b fuel pos bound (inr (most, less)) h =
    omega (arith, mul-le-mul_right {m = l'} {n = l} (suc b) most)

module _ (z : Codec) (laws : CodecLaws z) (Q : Type 0) (faults : Faults z Q)
    (full : WritesAll z) where
  appended-full : (file out : List ℕ) → appended z file out ≡ file ++ out
  appended-full file out = rw (full file out, take-length out)

  wrote-full : (file out : List ℕ) → wrote z file out ≡ true
  wrote-full file out = rw (full file out) (ground arith)

  -- What `feed` and the other calls leave alone.
  abbrev Same : ChunkWriter z → ChunkWriter z → Type 0
  Same w w' = (w'.path ≡ w.path) × (w'.disk ≡ w.disk)

  nearer :
      (src : List ℕ) (c : z.Ctx) (r : Call z.Ctx)
      → z.continue c src ≡ some r
      → src ≢ []
      → (length (drop r.consumed src) < length src)
        ⊎ ((length (drop r.consumed src) ≤ length src) × (laws.pending r.ctx < laws.pending c))
  nearer [] c r e ne = absurd (ne refl)
  nearer (b ∷ bs) c r e ne =
      ground (arith, laws.progress-continue c (b ∷ bs) r e ne, length-drop r.consumed (b ∷ bs))

  feed-Session :
      (fuel : ℕ) (src raw file : List ℕ) (c : z.Ctx) (w : ChunkWriter z)
      → w.fp ≡ some file
      → w.cctx ≡ some c
      → laws.emitted c ≡ file
      → laws.fed c ≡ raw
      → length src * suc z.most_pending + laws.pending c < fuel
      → Ends (λ w'. Session z laws w' (raw ++ src) × Same w w') Q (feed z fuel src file c w)
  unfolding feed
  feed-Session zero src raw file c w hf hc he hr m = absurd (omega arith)
  feed-Session (suc fuel) [] raw file c w hf hc he hr m = (
    record {
      file = file;
      ctx = c;
      fp-file = hf;
      cctx-ctx = hc;
      emitted-file = he;
      fed-raw = rw append-nil hr;
    },
    (refl, refl),
  )
  feed-Session (suc fuel) (b ∷ bs) raw file c w hf hc he hr m =
      elim (Option-cases (z.continue c (b ∷ bs))) [
        | inl e ↦ rw (e, feed) (faults.continue_failed c (b ∷ bs) e)
        | inr (r, e) ↦
            rw (e, feed)
              (rw (wrote-full file r.produced) (
                subst
                  (λ bytes.
                    Ends (λ w'. Session z laws w' bytes × Same w w') Q
                      (feed z fuel (drop r.consumed (b ∷ bs)) (appended z file r.produced) r.ctx
                        (advance z w r.ctx file r.produced)))
                  (append_assoc raw (take r.consumed (b ∷ bs)) (drop r.consumed (b ∷ bs))
                    ∙ ap (◌++◌ raw) (take-append-drop r.consumed (b ∷ bs)))
                  (feed-Session fuel (drop r.consumed (b ∷ bs)) (raw ++ take r.consumed (b ∷ bs))
                    (appended z file r.produced) r.ctx (advance z w r.ctx file r.produced) refl refl
                    (laws.emitted-continue c (b ∷ bs) r e
                      ∙ ap (λ f. f ++ r.produced) he
                      ∙ sym (appended-full file r.produced))
                    (laws.fed-continue c (b ∷ bs) r e ∙ ap (λ f. f ++ take r.consumed (b ∷ bs)) hr)
                    (measure-lt (length (b ∷ bs)) (length (drop r.consumed (b ∷ bs)))
                      (laws.pending c) (laws.pending r.ctx) z.most_pending fuel (omega arith)
                      (laws.pending_bound r.ctx) (nearer (b ∷ bs) c r e (λ nil. cc)) m))))
      ]

  -- `write_records` ends; what the session was fed grows by the records.
  pub write_records-Session :
      (src raw : List ℕ) (w : ChunkWriter z)
      → Session z laws w raw
      → Ends (λ w'. Session z laws w' (raw ++ src) × Same w w') Q (write_records z src w)
  unfolding write_records
  write_records-Session src raw w s = Ends-require _ Q w.fp s.file _ s.fp-file (
      Ends-require _ Q w.cctx s.ctx _ s.cctx-ctx (
        feed-Session (feed_fuel z src) src raw s.file s.ctx w s.fp-file s.cctx-ctx s.emitted-file
          s.fed-raw (omega (arith, laws.pending_bound s.ctx))))

  -- `open_chunk` starts a session at a file that is empty.
  pub open_chunk-Session :
      (p : List ℕ) (c : z.Ctx) (w : ChunkWriter z)
      → w.cctx ≡ some c
      → Ends (λ w'. Session z laws w' [] × (w'.path ≡ p) × (w'.disk ≡ w.disk)) Q (open_chunk z p w)
  unfolding open_chunk
  open_chunk-Session p c w hc = elim (Bool-cases (z.can_open p)) [
    | inl e ↦
        rw (e, hc)
          (
            record {
              file = [];
              ctx = z.reset c;
              fp-file = refl;
              cctx-ctx = refl;
              emitted-file = laws.emitted-reset c;
              fed-raw = laws.fed-reset c;
            },
            refl,
            refl,
          )
    | inr e ↦ rw e (faults.open_failed p e)
  ]

  -- A session whose frame is complete.
  abbrev Complete : ChunkWriter z → List ℕ → Type 0
  Complete w raw = (s : Session z laws w raw) × (laws.decode s.file ≡ some raw)

  flush-Complete :
      (fuel : ℕ) (raw file : List ℕ) (c : z.Ctx) (w : ChunkWriter z)
      → laws.emitted c ≡ file
      → laws.fed c ≡ raw
      → laws.pending c < fuel
      → Ends (λ w'. Complete w' raw × Same w w') Q (flush z fuel file c w)
  unfolding flush
  flush-Complete zero raw file c w he hr m = absurd (omega arith)
  flush-Complete (suc fuel) raw file c w he hr m = elim (Option-cases (z.end c)) [
    | inl e ↦ rw (e, flush) (faults.end_failed c e)
    | inr (r, e) ↦
        let emits : laws.emitted r.ctx ≡ appended z file r.produced =
          laws.emitted-end c r e
          ∙ ap (λ f. f ++ r.produced) he
          ∙ sym (appended-full file r.produced) in
        let feeds : laws.fed r.ctx ≡ raw = laws.fed-end c r e ∙ hr in
        elim (Bool-cases (r.rc == 0)) [
          | inl last ↦
              rw (e, flush)
                (rw last (
                  (
                    record {
                      file = appended z file r.produced;
                      ctx = r.ctx;
                      fp-file = refl;
                      cctx-ctx = refl;
                      emitted-file = emits;
                      fed-raw = feeds;
                    },
                    sym (ap laws.decode emits)
                        ∙ laws.decode-end c r e (ground arith)
                        ∙ ap some feeds,
                  ),
                  (refl, refl),
                ))
          | inr more ↦
              rw (e, flush)
                (rw more (
                  flush-Complete fuel raw (appended z file r.produced) r.ctx
                    (advance z w r.ctx file r.produced) emits feeds
                    (omega (arith, laws.progress-end c r e (ground arith)))))
        ]
  ]

  -- `close_chunk` ends; the file that it adds to the disk decodes to what the session was fed.
  pub close_chunk-decode :
      (raw : List ℕ) (w : ChunkWriter z)
      → Session z laws w raw
      → Ends
          (λ w'.
            (c : z.Ctx) × (bytes : List ℕ) × (w'.cctx ≡ some c)
            × (w'.disk ≡ w.disk ++ record { path = w.path; bytes = bytes } ∷ [])
            × (laws.decode bytes ≡ some raw))
          Q
          (close_chunk z w)
  unfolding close_chunk
  close_chunk-decode raw w s = Ends-require _ Q w.fp s.file _ s.fp-file (
      Ends-require _ Q w.cctx s.ctx _ s.cctx-ctx (
        Ends->>= (λ w'. Complete w' raw × Same w w') _ Q
          (flush z (suc z.most_pending) s.file s.ctx w) (shut z)
          (flush-Complete (suc z.most_pending) raw s.file s.ctx w s.emitted-file s.fed-raw
            (omega (arith, laws.pending_bound s.ctx)))
          (λ w' h. Ends-require _ Q w'.fp h.0.0.file _ h.0.0.fp-file (
            h.0.0.ctx,
            h.0.0.file,
            h.0.0.cctx-ctx,
            ap₂ (λ d (f : List ℕ). d ++ record { path = f; bytes = h.0.0.file } ∷ []) h.1.1 h.1.0,
            h.0.1,
          ))))
