-- ===== src/Cutter/Chunker/Writers.antt =====
-- The two writers of the chunker: a dry run, which writes nothing, and `ChunkWriter` over a codec
-- that behaves as documented.
use champsim_infra.Prelude.{
  ℕ, zero, suc, ◌%◌, ◌^◌, ◌≡◌, sym, ap, ap₂, ◌∙◌, Bool, true, false, some, List, [], ◌∷◌, ◌++◌, map,
  map-snoc, length, length-append, arith, Ends, Ends-then, Ends-else, Ends-mono,
}
use champsim_infra.Cutter.Codec.{Codec, CodecLaws}
use champsim_infra.Cutter.Writer.{ChunkWriter, Closed, open_chunk, write_records, close_chunk}
use champsim_infra.Cutter.Writer.Session.{
  Session, Faults, WritesAll, open_chunk-Session, write_records-Session, close_chunk-decode,
}
use champsim_infra.Cutter.Args.{Args}
use champsim_infra.Cutter.Naming.{output_path}
use champsim_infra.Cutter.Chunker.Progress.{Writing}

-- A dry run cannot fail.
abbrev pub dry : (z : Codec) (a : Args) → a.dry_run ≡ true → Writing z a ⊥
dry z a e = record {
  Holds = λ w o raws cur. Unit {0};
  opens = λ w raws i k h. Ends-then _ ⊥ a.dry_run _ _ e tt;
  writes = λ w raws cur src h. Ends-then _ ⊥ a.dry_run _ _ e tt;
  closes = λ w raws cur h. Ends-then _ ⊥ a.dry_run _ _ e tt;
}

-- The paths of the first `n` chunks.
abbrev pub paths : Args → ℕ → List (List ℕ)
paths a zero = []
paths a (suc n) = paths a n ++ output_path a (n % 2 ^ 32) ∷ []

module _ (z : Codec) (laws : CodecLaws z) (a : Args) where
  abbrev pub Live : Bool → ChunkWriter z → List ℕ → ℕ → Type 0
  Live true w cur n = Session z laws w cur × (w.path ≡ output_path a (n % 2 ^ 32))
  Live false w cur n = (c : z.Ctx) × (w.cctx ≡ some c)

  -- The files on disk decode to the closed chunks, and have their paths.
  pub record Written (w : ChunkWriter z) (o : Bool) (raws : List (List ℕ)) (cur : List ℕ)
      : Type 0 where
    pub decoded : map (λ (f : Closed). laws.decode f.bytes) w.disk ≡ map some raws
    pub named : map (λ (f : Closed). f.path) w.disk ≡ paths a (length raws)
    pub live : Live o w cur (length raws)

module _ (z : Codec) (laws : CodecLaws z) (a : Args) (Q : Type 0) (faults : Faults z Q)
    (full : WritesAll z) where
  pub opens_file :
      (w : ChunkWriter z) (raws : List (List ℕ)) (i : ℕ)
      → i ≡ length raws % 2 ^ 32
      → Written z laws a w false raws []
      → Ends (λ w'. Written z laws a w' true raws []) Q (open_chunk z (output_path a i) w)
  opens_file w raws i e h =
      Ends-mono _ (λ w'. Written z laws a w' true raws []) Q _
        (open_chunk-Session z laws Q faults full (output_path a i) h.live.0 w h.live.1)
        (λ w' k. record {
          decoded = ap (map (λ (f : Closed). laws.decode f.bytes)) k.2 ∙ h.decoded;
          named = ap (map (λ (f : Closed). f.path)) k.2 ∙ h.named;
          live = (k.0, k.1 ∙ ap (output_path a) e);
        })

  pub writes_file :
      (w : ChunkWriter z) (raws : List (List ℕ)) (cur src : List ℕ)
      → Written z laws a w true raws cur
      → Ends (λ w'. Written z laws a w' true raws (cur ++ src)) Q (write_records z src w)
  writes_file w raws cur src h =
      Ends-mono _ (λ w'. Written z laws a w' true raws (cur ++ src)) Q _
        (write_records-Session z laws Q faults full src cur w h.live.0)
        (λ w' k. record {
          decoded = ap (map (λ (f : Closed). laws.decode f.bytes)) k.1.1 ∙ h.decoded;
          named = ap (map (λ (f : Closed). f.path)) k.1.1 ∙ h.named;
          live = (k.0, k.1.0 ∙ h.live.1);
        })

  pub closes_file :
      (w : ChunkWriter z) (raws : List (List ℕ)) (cur : List ℕ)
      → Written z laws a w true raws cur
      → Ends (λ w'. Written z laws a w' false (raws ++ cur ∷ []) []) Q (close_chunk z w)
  closes_file w raws cur h =
      Ends-mono _ (λ w'. Written z laws a w' false (raws ++ cur ∷ []) []) Q _
        (close_chunk-decode z laws Q faults full cur w h.live.0)
        (λ w' (c, bytes, hc, hd, he).
          let one_more : suc (length raws) ≡ length (raws ++ cur ∷ []) =
            omega (arith, length-append raws (cur ∷ [])) in
          record {
            decoded =
                ap (map (λ (f : Closed). laws.decode f.bytes)) hd
                ∙ map-snoc (λ (f : Closed). laws.decode f.bytes) w.disk _
                ∙ ap₂ (λ l o. l ++ o ∷ []) h.decoded he
                ∙ sym (map-snoc some raws cur);
            named =
                ap (map (λ (f : Closed). f.path)) hd
                ∙ map-snoc (λ (f : Closed). f.path) w.disk _
                ∙ ap₂ (λ l p. l ++ p ∷ []) h.named h.live.1
                ∙ ap (paths a) one_more;
            live = (c, hc);
          })

  -- The real writer.
  abbrev pub real : a.dry_run ≡ false → Writing z a Q
  real e = record {
    Holds = Written z laws a;
    opens = λ w raws i k h. Ends-else _ Q a.dry_run _ _ e (opens_file w raws i k h);
    writes = λ w raws cur src h. Ends-else _ Q a.dry_run _ _ e (writes_file w raws cur src h);
    closes = λ w raws cur h. Ends-else _ Q a.dry_run _ _ e (closes_file w raws cur h);
  }
