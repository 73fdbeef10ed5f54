-- ===== src/Raw/Plugin/Over.antt =====
-- The files of the plugin over zstd.
use champsim_infra.Prelude.{ℕ, ◌≡◌, refl, sym, ap, subst, ◌∙◌, Option, none, some, [], append-nil}
use champsim_infra.Raw.Zstd.{Zstd, ZstdLaws, NoFailure, OutFile, feed_all, finish_all}
use champsim_infra.Raw.Zstd.Session.{feed_all-Fed, finish_all-Ended}
use champsim_infra.Raw.Zstd.Content.{content, decoded, content_sound, content-Fed, decoded-Ended}
use champsim_infra.Raw.Plugin.State.{ChunkFiles}
use champsim_infra.Raw.Plugin.Contents.{ChunkLaws}

module _ (z : Zstd) where
  -- A file that was just created is empty.
  abbrev pub created : Option z.Ctx → Option (OutFile z)
  created none = none
  created (some c) = some (record { ctx = c; bytes = [] })

  -- The loops of flush_buffer and flush_final; `make` is fopen and ZSTD_createCCtx.
  abbrev pub chunk_files_of : (ℕ → Option ℕ → Option z.Ctx) → ChunkFiles
  chunk_files_of make = record {
    W = OutFile z;
    create = λ id chunk. created (make id chunk);
    feed = feed_all z;
    finish = finish_all z;
  }

module _ (z : Zstd) (laws : ZstdLaws z) where
  -- A new context has read and given out nothing.
  abbrev pub NewContexts : (ℕ → Option ℕ → Option z.Ctx) → Type 0
  NewContexts make =
      (id : ℕ) (chunk : Option ℕ) (c : z.Ctx)
      → make id chunk ≡ some c
      → (laws.fed c ≡ []) × (laws.emitted c ≡ [])

  module _ (fine : NoFailure z) (make : ℕ → Option ℕ → Option z.Ctx) (new : NewContexts make)
      (m : ℕ) where
    some-ne : (f : OutFile z) → none ≡ some f → ⊥
    some-ne f e = subst (λ o. elim o as (λ x. Type 0) [ none ↦ Unit {0} | some x ↦ ⊥ ]) e tt

    pub content-created :
        (id : ℕ) (chunk : Option ℕ) (f : OutFile z)
        → created z (make id chunk) ≡ some f
        → content z laws m f ≡ []
    content-created id chunk f e = by (make id chunk) refl e
      where
        by : (o : Option z.Ctx) → make id chunk ≡ o → created z o ≡ some f → content z laws m f ≡ []
        by none made e = absurd (some-ne f e)
        by (some c) made e =
            let start : OutFile z = record { ctx = c; bytes = [] } in
            let (nothing_fed, nothing_out) = new id chunk c made in
            ap (λ o. elim o [ none ↦ [] | some f ↦ content z laws m f ]) (sym e)
            ∙ content_sound z laws m start nothing_out
            ∙ nothing_fed

    abbrev pub chunk_laws_of : ChunkLaws (chunk_files_of z make)
    chunk_laws_of = record {
      fed = content z laws m;
      decoded = decoded z laws m;
      fed-create = content-created;
      fed-feed = λ bs f. content-Fed z laws m f bs _ (feed_all-Fed z laws fine bs f);
      decoded-finish = λ f.
          decoded-Ended z laws m f [] _ (finish_all-Ended z laws fine f)
          ∙ ap (λ v. some v) (append-nil (content z laws m f));
    }
