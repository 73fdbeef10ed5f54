-- ===== src/Raw/Zstd/Content.antt =====
-- What a file holds, as the programs' proofs follow it. A file that does not hold what its context gave
-- out is marked by a byte `m` at the front, and a client takes an `m` that its own content does not
-- begin with.
use champsim_infra.Prelude.{
  ℕ, suc, ◌≡◌, refl, sym, ap, subst, ◌∙◌, arith, Option, none, some, List, [], ◌∷◌, ◌++◌,
}
use mathlib.Core.List.{List-discrete}
use native.Mathlib.Decide.{ℕ_discrete}
use champsim_infra.Raw.Zstd.{Zstd, ZstdLaws, OutFile}
use champsim_infra.Raw.Zstd.Session.{IsSound, Fed, Ended}

by_dec : {P A : Type 0} → Dec P → A → A → A
by_dec (yes p) a b = a
by_dec (no n) a b = b

by_dec-yes : {P A : Type 0} (d : Dec P) (a b : A) → P → by_dec d a b ≡ a
unfolding by_dec
by_dec-yes (yes p) a b h = refl
by_dec-yes (no n) a b h = absurd (n h)

by_dec-no : {P A : Type 0} (d : Dec P) (a b : A) → (P → ⊥) → by_dec d a b ≡ b
unfolding by_dec
by_dec-no (yes p) a b h = absurd (h p)
by_dec-no (no n) a b h = refl

module _ (z : Zstd) (laws : ZstdLaws z) (m : ℕ) where
  soundness : (f : OutFile z) → Dec (IsSound z laws f)
  soundness f = List-discrete ℕ_discrete (laws.emitted f.ctx) f.bytes

  pub content : OutFile z → List ℕ
  content f = by_dec (soundness f) (laws.fed f.ctx) (m ∷ laws.fed f.ctx)

  pub decoded : OutFile z → Option (List ℕ)
  decoded f = by_dec (soundness f) (laws.decode f.bytes) (some (m ∷ laws.fed f.ctx))

  pub content_sound : (f : OutFile z) → IsSound z laws f → content f ≡ laws.fed f.ctx
  unfolding content
  content_sound f s = by_dec-yes (soundness f) (laws.fed f.ctx) (m ∷ laws.fed f.ctx) s

  pub content-Fed :
      (f : OutFile z) (src : List ℕ) (f' : OutFile z)
      → Fed z laws f src f'
      → content f' ≡ content f ++ src
  unfolding content
  content-Fed f src f' h = elim (soundness f) [
    | yes s ↦
        by_dec-yes (soundness f') (laws.fed f'.ctx) (m ∷ laws.fed f'.ctx) (h.sound s)
        ∙ h.content
        ∙ ap (λ v. v ++ src)
            (sym (by_dec-yes (soundness f) (laws.fed f.ctx) (m ∷ laws.fed f.ctx) s))
    | no n ↦
        by_dec-no (soundness f') (laws.fed f'.ctx) (m ∷ laws.fed f'.ctx) (λ s. n (h.back s))
        ∙ ap (λ v. m ∷ v) h.content
        ∙ ap (λ v. v ++ src) (sym (by_dec-no (soundness f) (laws.fed f.ctx) (m ∷ laws.fed f.ctx) n))
  ]

  pub decoded-Ended :
      (f : OutFile z) (src : List ℕ) (f' : OutFile z)
      → Ended z laws f src f'
      → decoded f' ≡ some (content f ++ src)
  unfolding content decoded
  decoded-Ended f src f' h = elim (soundness f) [
    | yes s ↦
        by_dec-yes (soundness f') (laws.decode f'.bytes) (some (m ∷ laws.fed f'.ctx)) (h.sound s)
        ∙ h.decoded s
        ∙ ap (λ v. some v) h.content
        ∙ ap (λ v. some (v ++ src))
            (sym (by_dec-yes (soundness f) (laws.fed f.ctx) (m ∷ laws.fed f.ctx) s))
    | no n ↦
        by_dec-no (soundness f') (laws.decode f'.bytes) (some (m ∷ laws.fed f'.ctx))
          (λ s. n (h.back s))
        ∙ ap (λ v. some (m ∷ v)) h.content
        ∙ ap (λ v. some (v ++ src))
            (sym (by_dec-no (soundness f) (laws.fed f.ctx) (m ∷ laws.fed f.ctx) n))
  ]

-- A byte that the list does not begin with.
pub other_than : List ℕ → ℕ
other_than [] = 0
other_than (b ∷ bs) = suc b

module _ (z : Zstd) (laws : ZstdLaws z) where
  head_of : Option (List ℕ) → ℕ
  head_of none = 0
  head_of (some []) = 0
  head_of (some (b ∷ bs)) = b

  IsFilled : Option (List ℕ) → Type 0
  IsFilled none = ⊥
  IsFilled (some []) = ⊥
  IsFilled (some (b ∷ bs)) = Unit {0}

  marked-ne : (v fed : List ℕ) → some (other_than v ∷ fed) ≡ some v → ⊥
  unfolding other_than head_of IsFilled
  marked-ne [] fed e = subst IsFilled e tt
  marked-ne (b ∷ bs) fed e = absurd (omega (arith, ap head_of e))

  -- The marked file is none of the client's.
  pub unmarked :
      (f : OutFile z) (v : List ℕ)
      → decoded z laws (other_than v) f ≡ some v
      → laws.decode f.bytes ≡ some v
  unfolding decoded
  unmarked f v e = elim (soundness z laws (other_than v) f) [
    | yes s ↦
        sym (
          by_dec-yes (soundness z laws (other_than v) f) (laws.decode f.bytes)
            (some (other_than v ∷ laws.fed f.ctx)) s)
        ∙ e
    | no n ↦ absurd (
        marked-ne v (laws.fed f.ctx) (
          sym (
            by_dec-no (soundness z laws (other_than v) f) (laws.decode f.bytes)
              (some (other_than v ∷ laws.fed f.ctx)) n)
          ∙ e))
  ]
