-- ===== src/Cutter/Writer/Setup.antt =====
-- `init_once` leaves a context, and no file written.
use champsim_infra.Prelude.{
  ℤ, is_positive, ◌≡◌, refl, none, some, Ends, inl, inr, Bool-cases, Option-cases, if◌then◌else◌,
}
use champsim_infra.Cutter.Codec.{Codec}
use champsim_infra.Cutter.Writer.{ChunkWriter, set_params, init_once}

module _ (z : Codec) (level workers : ℤ) (w : ChunkWriter z) (Q : Type 0) where
  abbrev pub Ready : ChunkWriter z → Type 0
  Ready w' = ((c : z.Ctx) × (w'.cctx ≡ some c)) × (w'.disk ≡ w.disk)

  set_params-Ready :
      (c : z.Ctx)
      → ((c : z.Ctx) → z.set_level level c ≡ none → Q)
      → Ends Ready Q (set_params z level workers w c)
  unfolding set_params
  set_params-Ready c no_level = elim (Option-cases (z.set_level level c)) [
    | inl e ↦ rw (e, set_params) (no_level c e)
    | inr (c', e) ↦ elim (Bool-cases (is_positive workers)) [
      | inl p ↦ elim (Option-cases (z.set_workers workers c')) [
        | inl e' ↦ rw (e, set_params) (rw (p, if◌then◌else◌) (rw e' ((c', refl), refl)))
        | inr (c'', e') ↦ rw (e, set_params) (rw (p, if◌then◌else◌) (rw e' ((c'', refl), refl)))
      ]
      | inr p ↦ rw (e, set_params) (rw (p, if◌then◌else◌) ((c', refl), refl))
    ]
  ]

  -- A context that cannot be created and a level that is refused end the run.
  pub init_once-cctx :
      (z.create ≡ none → Q)
      → ((c : z.Ctx) → z.set_level level c ≡ none → Q)
      → Ends Ready Q (init_once z level workers w)
  unfolding init_once
  init_once-cctx no_ctx no_level = elim (Option-cases z.create) [
    | inl e ↦ rw (e, init_once) (no_ctx e)
    | inr (c, e) ↦ rw (e, init_once) (set_params-Ready c no_level)
  ]
