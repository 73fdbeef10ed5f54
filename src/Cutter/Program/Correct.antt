-- ===== src/Cutter/Program/Correct.antt =====
-- The whole run of trace_cutter: the chunks are the input, cut after every N records.
use mathlib.Core.List.{flatten}
use champsim_infra.Prelude.{
  ℕ, zero, suc, ◌+◌, ◌*◌, ◌^◌, ◌≤◌, ◌<◌, ◌≡◌, ◌≢◌, ◌⊎◌, refl, sym, ap, subst, ◌∙◌, inl, inr, false,
  none, some, List, [], ◌∷◌, ◌++◌, append_assoc, append-nil, length, take, drop, length-drop,
  take-append-drop, arith, is_empty, if◌then◌else◌, done, Ends, Ends->>=, Option-cases, some_inj,
}
use champsim_infra.Cutter.Codec.{Codec}
use champsim_infra.Cutter.Writer.{ChunkWriter, fresh, init_once}
use champsim_infra.Cutter.Writer.Session.{measure-lt}
use champsim_infra.Cutter.Args.{Args}
use champsim_infra.Cutter.Chunker.{State, start, heartbeat_records, consume_decompressed}
use champsim_infra.Cutter.Chunker.Progress.{Writing}
use champsim_infra.Cutter.Chunker.Blocks.{Fed, consume_decompressed-Fed}
use champsim_infra.Cutter.Chunker.Finish.{Finished, finish}
use champsim_infra.Cutter.Program.{decompress, decompress_fuel, cut}
use champsim_infra.Cutter.Program.Stream.{Decoder, DecoderLaws, Output}

module _ (z : Codec) (a : Args) (Q : Type 0) (v : Writing z a Q) (fits : a.chunk_records < 2 ^ 64)
    (d : Decoder) (laws : DecoderLaws d)
    (bad : (c : d.DCtx) (src : List ℕ) → d.step c src ≡ none → Q) where
  nearer :
      (src : List ℕ) (c : d.DCtx) (r : Output d.DCtx)
      → d.step c src ≡ some r
      → src ≢ []
      → (length (drop r.consumed src) < length src)
        ⊎ ((length (drop r.consumed src) ≤ length src) × (laws.pending r.ctx < laws.pending c))
  nearer [] c r e ne = absurd (ne refl)
  nearer (b ∷ bs) c r e ne =
      ground (arith, laws.progress c (b ∷ bs) r e ne, length-drop r.consumed (b ∷ bs))

  -- A block of output, if there is any.
  consume_block :
      (out : List ℕ) (s : State z) (input : List ℕ)
      → Fed z a Q v fits input s
      → length (input ++ out) + heartbeat_records < 2 ^ 64
      → Ends
          (Fed z a Q v fits (input ++ out))
          Q
          (if is_empty out then done s else consume_decompressed z a out s)
  consume_block [] s input f small = subst (λ l. Fed z a Q v fits l s) (sym (append-nil input)) f
  consume_block (b ∷ out) s input f small =
      consume_decompressed-Fed z a Q v fits s input (b ∷ out) f small

  -- The input `whole` is taken up to `src`, and what it gave was fed to the chunker. Once all is
  -- taken the decoder has given everything.
  decompress-Fed :
      (whole plain : List ℕ)
      → laws.decode whole ≡ some plain
      → length plain + heartbeat_records < 2 ^ 64
      → (fuel : ℕ) (src : List ℕ) (c : d.DCtx) (s : State z) → laws.taken c ++ src ≡ whole
      → ((src ≡ []) → laws.given c ≡ plain)
      → Fed z a Q v fits (laws.given c) s
      → length src * suc d.most_pending + laws.pending c < fuel
      → Ends (Fed z a Q v fits plain) Q (decompress z d fuel a src c s)
  unfolding decompress
  decompress-Fed whole plain dec small zero src c s t g f m = absurd (omega arith)
  decompress-Fed whole plain dec small (suc fuel) [] c s t g f m =
      subst (λ l. Fed z a Q v fits l s) (g refl) f
  decompress-Fed whole plain dec small (suc fuel) (b ∷ bs) c s t g f m =
      elim (Option-cases (d.step c (b ∷ bs))) [
        | inl e ↦ rw (e, decompress) (bad c (b ∷ bs) e)
        | inr (r, e) ↦
            let rest : List ℕ = drop r.consumed (b ∷ bs) in
            let t' : laws.taken r.ctx ++ rest ≡ whole =
              ap (λ l. l ++ rest) (laws.taken-step c (b ∷ bs) r e)
              ∙ append_assoc (laws.taken c) (take r.consumed (b ∷ bs)) rest
              ∙ ap (◌++◌ (laws.taken c)) (take-append-drop r.consumed (b ∷ bs))
              ∙ t in
            let given : laws.given r.ctx ≡ laws.given c ++ r.produced =
              laws.given-step c (b ∷ bs) r e in
            rw (e, decompress)
              (Ends->>= (Fed z a Q v fits (laws.given c ++ r.produced)) (Fed z a Q v fits plain) Q _
                _
                (consume_block r.produced s (laws.given c) f (
                  omega (
                    arith,
                    ap length given,
                    laws.within r.ctx rest plain (ap laws.decode t' ∙ dec),
                  )))
                (λ s' f'.
                  decompress-Fed whole plain dec small fuel rest r.ctx s' t'
                    (λ last. some_inj (
                      sym (laws.flushed c (b ∷ bs) r e (λ nil. cc) last)
                      ∙ ap laws.decode (
                          sym (append-nil (laws.taken r.ctx))
                          ∙ ap (◌++◌ (laws.taken r.ctx)) (sym last)
                          ∙ t')
                      ∙ dec))
                    (subst (λ l. Fed z a Q v fits l s') (sym given) f')
                    (measure-lt (length (b ∷ bs)) (length rest) (laws.pending c)
                      (laws.pending r.ctx) d.most_pending fuel (omega arith)
                      (laws.pending_bound r.ctx) (nearer (b ∷ bs) c r e (λ nil. cc)) m)))
      ]

  start-Fed :
      (w : ChunkWriter z)
      → 0 < a.chunk_records
      → v.Holds w false [] []
      → Fed z a Q v fits [] (start z w)
  unfolding flatten
  start-Fed w pos held = record {
    records = 0;
    bytes = [];
    settled = record {
      total = refl;
      full = 0;
      split = omega arith;
      below = pos;
      list = refl;
      part = refl;
      opened = refl;
      ahead = omega arith;
      near = omega arith;
      raws = [];
      cur = [];
      count = refl;
      sizes = refl;
      size = refl;
      content = refl;
      written = held;
    };
    exact = refl;
    joined = refl;
    short = omega arith;
  }

  -- `cut` over a writer that is set up.
  pub cut-Finished :
      (input plain : List ℕ)
      → 0 < a.chunk_records
      → input ≢ []
      → laws.decode input ≡ some plain
      → length plain + heartbeat_records < 2 ^ 64
      → (d.create ≡ none → Q)
      → Ends
          (λ w. v.Holds w false [] [])
          Q
          (if a.dry_run then done (fresh z) else init_once z a.level a.workers (fresh z))
      → Ends (Finished z a Q v fits plain) Q (cut z d a input)
  unfolding cut
  cut-Finished input plain pos ne dec small no_ctx ready = elim (Option-cases d.create) [
    | inl e ↦ rw (e, cut) (no_ctx e)
    | inr (c, e) ↦
        rw (e, cut)
          (Ends->>= (λ w. v.Holds w false [] []) (Finished z a Q v fits plain) Q _ _ ready
            (λ w held.
              Ends->>= (Fed z a Q v fits plain) (Finished z a Q v fits plain) Q _ _
                (decompress-Fed input plain dec small (decompress_fuel z d input) input c
                  (start z w) (ap (λ l. l ++ input) (laws.taken-create c e))
                  (λ nil. absurd (ne nil))
                  (subst (λ l. Fed z a Q v fits l (start z w)) (sym (laws.given-create c e))
                    (start-Fed w pos held))
                  (omega (arith, laws.pending_bound c)))
                (λ s f. finish z a Q v fits s plain f)))
  ]
