-- ===== src/Raw/Convert/Writer/Over.antt =====
-- The writer of raw2champsim.c over zstd.
use champsim_infra.Prelude.{
  ℕ, ◌≡◌, ◌≤◌, length, ap, ◌∙◌, false, some, List, [], ◌++◌, take, append-nil,
}
use champsim_infra.Cutter.Codec.{Call}
use champsim_infra.Raw.Zstd.{Zstd, ZstdLaws, NoFailure, OutFile, continue_once, end_all}
use champsim_infra.Raw.Zstd.Session.{IsSound, continue_once-Fed, end_all-Ended}
use champsim_infra.Raw.Zstd.Content.{content, decoded, content_sound, content-Fed, decoded-Ended}
use champsim_infra.Raw.Convert.Writer.{Sink, SinkLaws, TraceWriter, view, writer_buf_size}

-- The do loop of writer_flush: one call with ZSTD_e_continue, and all that are needed with ZSTD_e_end.
abbrev pub sink_of : Zstd → Sink
sink_of z = record { W = OutFile z; feed = continue_once z; finish = end_all z }

-- Every call with ZSTD_e_continue takes its whole input, if that is no more than the 8 MB of `in_buf`;
-- the output buffer has ZSTD_compressBound of them. writer_flush relies on it: it drops what such a call
-- leaves.
abbrev pub TakesAll : Zstd → Type 0
TakesAll z =
    (c : z.Ctx) (src : List ℕ) (r : Call z.Ctx)
    → length src ≤ writer_buf_size
    → z.compress false c src ≡ some r
    → take r.consumed src ≡ src

module _ (z : Zstd) (laws : ZstdLaws z) where
  -- A new output: nothing is buffered, fed or written.
  pub record IsNew (w : TraceWriter (sink_of z)) : Type 0 where
    pub no_bytes : w.in_buf ≡ []
    pub nothing_fed : laws.fed w.sink.ctx ≡ []
    pub sound : IsSound z laws w.sink

  module _ (fine : NoFailure z) (takes : TakesAll z) (m : ℕ) where
    abbrev pub sink_laws_of : SinkLaws (sink_of z)
    sink_laws_of = record {
      fed = content z laws m;
      decoded = decoded z laws m;
      feeds = λ bs f short.
          let (f', ran, h) = continue_once-Fed z laws fine bs f (λ r. takes f.ctx bs r short) in
          (f', ran, content-Fed z laws m f bs f' h);
      finishes = λ bs f.
          let (f', ran, h) = end_all-Ended z laws fine bs f in
          (f', ran, decoded-Ended z laws m f bs f' h);
    }

    pub new-view : (w : TraceWriter (sink_of z)) → IsNew w → view (sink_of z) sink_laws_of w ≡ []
    new-view w new =
        ap (λ v. content z laws m w.sink ++ v) new.no_bytes
        ∙ append-nil (content z laws m w.sink)
        ∙ content_sound z laws m w.sink new.sound
        ∙ new.nothing_fed
