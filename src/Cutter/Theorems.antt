-- ===== src/Cutter/Theorems.antt =====
-- What a run of trace_cutter promises its user.
use champsim_infra.Prelude.{
  ℕ, ◌+◌, ◌^◌, ◌<◌, ◌≡◌, ◌≢◌, ap, true, false, none, some, List, [], map, length, Ends, Ends-then,
  Ends-else, Ends-mono,
}
use champsim_infra.Cutter.Codec.{Codec, CodecLaws}
use champsim_infra.Cutter.Writer.{Closed, fresh}
use champsim_infra.Cutter.Writer.Setup.{init_once-cctx}
use champsim_infra.Cutter.Writer.Session.{Faults, WritesAll}
use champsim_infra.Cutter.Args.{Args}
use champsim_infra.Cutter.Chunker.{heartbeat_records}
use champsim_infra.Cutter.Chunker.Writers.{dry, real, Written, paths}
use champsim_infra.Cutter.Chunker.Finish.{Cut, Finished}
use champsim_infra.Cutter.Program.{cut}
use champsim_infra.Cutter.Program.Correct.{cut-Finished}
use champsim_infra.Cutter.Program.Stream.{Decoder, DecoderLaws}

-- Nothing fails: the contexts are created, the options are accepted, the files open, and no call
-- of the codec reports an error.
pub record Works (z : Codec) (a : Args) : Type 0 where
  pub creates : z.create ≢ none
  pub levels : (c : z.Ctx) → z.set_level a.level c ≢ none
  pub faults : Faults z ⊥

-- The input decompresses to `plain`, which is small enough for the counters, without an error.
pub record Reads (d : Decoder) (laws : DecoderLaws d) (input plain : List ℕ) : Type 0 where
  pub creates : d.create ≢ none
  pub steps : (c : d.DCtx) (src : List ℕ) → d.step c src ≢ none
  pub not_empty : input ≢ []
  pub decodes : laws.decode input ≡ some plain
  pub small : length plain + heartbeat_records < 2 ^ 64

-- With --dry-run and 0 < N < 2 ^ 64, a run on a readable input ends with no error, and reports the cut of the input
-- after every N records: all chunks but the last count N records and the last at least one, a
-- record of bytes each, in order, and less than a record of bytes is left over.
pub dry_run-Cut :
    (z : Codec) (a : Args) (d : Decoder) (laws : DecoderLaws d) (input plain : List ℕ)
    → a.dry_run ≡ true
    → 0 < a.chunk_records
    → a.chunk_records < 2 ^ 64
    → Reads d laws input plain
    → Ends (λ s. (raws : List (List ℕ)) × Cut z a.chunk_records plain s raws) ⊥ (cut z d a input)
dry_run-Cut z a d laws input plain e pos fits r =
    Ends-mono _ (λ s. (raws : List (List ℕ)) × Cut z a.chunk_records plain s raws) ⊥ _
      (cut-Finished z a ⊥ (dry z a e) fits d laws r.steps input plain pos r.not_empty r.decodes
        r.small r.creates (Ends-then _ ⊥ a.dry_run _ _ e tt))
      (λ s (raws, c, held). (raws, c))

-- Without --dry-run, for 0 < N < 2 ^ 64 and a readable input, if nothing fails and no write is short,
-- the run ends with no error. The files
-- closed are as many as the chunks, file i is at `output_path` i (modulo 2 ^ 32), and
-- decompressed one after another they are the input less what does not fill a record: the files
-- decode to the chunks of the same cut that a dry run reports.
pub run-Cut :
    (z : Codec) (zl : CodecLaws z) (a : Args) (d : Decoder) (laws : DecoderLaws d)
    (input plain : List ℕ)
    → a.dry_run ≡ false
    → 0 < a.chunk_records
    → a.chunk_records < 2 ^ 64
    → WritesAll z
    → Works z a
    → Reads d laws input plain
    → Ends
        (λ s.
          (raws : List (List ℕ)) × Cut z a.chunk_records plain s raws
          × (map (λ (f : Closed). zl.decode f.bytes) s.writer.disk ≡ map some raws)
          × (map (λ (f : Closed). f.path) s.writer.disk ≡ paths a (length raws)))
        ⊥
        (cut z d a input)
run-Cut z zl a d laws input plain e pos fits full w r =
    Ends-mono (Finished z a ⊥ (real z zl a ⊥ w.faults full e) fits plain) _ ⊥ _
      (cut-Finished z a ⊥ (real z zl a ⊥ w.faults full e) fits d laws r.steps input plain pos
        r.not_empty r.decodes r.small r.creates
        (Ends-else _ ⊥ a.dry_run _ _ e (
          Ends-mono _ (λ w'. Written z zl a w' false [] []) ⊥ _
            (init_once-cctx z a.level a.workers (fresh z) ⊥ w.creates w.levels)
            (λ w' k. record {
              decoded = ap (map (λ (f : Closed). zl.decode f.bytes)) k.1;
              named = ap (map (λ (f : Closed). f.path)) k.1;
              live = k.0;
            }))))
      (λ s (raws, c, held). (raws, c, held.decoded, held.named))
