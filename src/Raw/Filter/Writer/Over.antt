-- ===== src/Raw/Filter/Writer/Over.antt =====
-- The writer of trace_filter.c over zstd.
use champsim_infra.Prelude.{ℕ, ◌≡◌, ap, ◌∙◌, some, [], ◌++◌, append-nil}
use champsim_infra.Raw.Zstd.{Zstd, ZstdLaws, NoFailure, OutFile, feed_all, finish_all}
use champsim_infra.Raw.Zstd.Session.{IsSound, feed_all-Fed, finish_all-Ended}
use champsim_infra.Raw.Zstd.Content.{content, decoded, content_sound, content-Fed, decoded-Ended}
use champsim_infra.Raw.Filter.Writer.{Compressor, FilterWriter, Keeps, written}

-- The loop of writer_flush and of writer_append's large piece, and that of writer_finish.
abbrev pub compressor_of : Zstd → Compressor
compressor_of z = record {
  W = OutFile z;
  feed = λ bs f. (feed_all z bs f).0;
  finish = λ f. (finish_all z f).0;
}

module _ (z : Zstd) (laws : ZstdLaws z) where
  -- A new output: nothing is buffered, fed or written.
  pub record IsNewOutput (w : FilterWriter (compressor_of z)) : Type 0 where
    pub no_bytes : w.inbuf ≡ []
    pub nothing_fed : laws.fed w.sink.ctx ≡ []
    pub sound : IsSound z laws w.sink

  module _ (fine : NoFailure z) (m : ℕ) where
    abbrev pub keeps_of : Keeps (compressor_of z)
    keeps_of = record {
      fed = content z laws m;
      decoded = decoded z laws m;
      fed-feed = λ bs f. content-Fed z laws m f bs _ (feed_all-Fed z laws fine bs f);
      decoded-finish = λ f.
          decoded-Ended z laws m f [] _ (finish_all-Ended z laws fine f)
          ∙ ap (λ v. some v) (append-nil (content z laws m f));
    }

    pub new-written :
        (w : FilterWriter (compressor_of z))
        → IsNewOutput w
        → written (compressor_of z) keeps_of w ≡ []
    new-written w new =
        ap (λ v. content z laws m w.sink ++ v) new.no_bytes
        ∙ append-nil (content z laws m w.sink)
        ∙ content_sound z laws m w.sink new.sound
        ∙ new.nothing_fed
