-- ===== src/Raw/Zstd/Session.antt =====
-- What the loops come to if zstd does what it documents and nothing fails.
use champsim_infra.Prelude.{
  ℕ, zero, suc, ◌+◌, ◌*◌, ◌≤◌, ◌<◌, ◌≡◌, ◌≢◌, refl, sym, ap, subst, ◌∙◌, ◌⊎◌, inl, inr, Bool, true,
  false, Option, none, some, List, [], ◌∷◌, ◌++◌, append_assoc, append-nil, length, take, drop,
  arith, ◌==◌, Bool-cases, take-length, take-append-drop, length-drop,
}
use native.Mathlib.Nat.{mul-le-mul_right}
use mathlib.Core.List.{append_cancel_right}
use champsim_infra.Cutter.Codec.{Call}
use champsim_infra.Cutter.Writer.Session.{measure-lt}
use champsim_infra.Raw.Zstd.{
  Zstd, ZstdLaws, NoFailure, OutFile, put, feed_loop, rounds, feed_all, finish_loop, finish_all,
  wrote_all, continue_once, end_loop, end_all,
}

module _ (z : Zstd) (laws : ZstdLaws z) where
  -- The file holds what the context has given out.
  abbrev pub IsSound : OutFile z → Type 0
  IsSound f = laws.emitted f.ctx ≡ f.bytes

  -- After a loop: what was fed before and `src`.
  pub record Fed (f : OutFile z) (src : List ℕ) (f' : OutFile z) : Type 0 where
    pub content : laws.fed f'.ctx ≡ laws.fed f.ctx ++ src
    pub sound : IsSound f → IsSound f'
    pub back : IsSound f' → IsSound f

  -- After the last loop: the frame is complete.
  pub record Ended (f : OutFile z) (src : List ℕ) (f' : OutFile z) : Type 0 where
    pub content : laws.fed f'.ctx ≡ laws.fed f.ctx ++ src
    pub sound : IsSound f → IsSound f'
    pub back : IsSound f' → IsSound f
    pub decoded : IsSound f → laws.decode f'.bytes ≡ some (laws.fed f'.ctx)

  module _ (fine : NoFailure z) where
    put-Fed :
        (e : Bool) (f : OutFile z) (src : List ℕ) (r : Call z.Ctx)
        → z.compress e f.ctx src ≡ some r
        → Fed f (take r.consumed src) (put z r f)
    put-Fed e f src r ran = record {
      content = laws.fed-compress e f.ctx src r ran;
      sound = λ s.
          laws.emitted-compress e f.ctx src r ran
          ∙ ap (λ v. v ++ r.produced) s
          ∙ ap (λ out. f.bytes ++ out) (sym (written e f src r ran));
      back = λ s. append_cancel_right (laws.emitted f.ctx) f.bytes r.produced (
          sym (laws.emitted-compress e f.ctx src r ran)
          ∙ s
          ∙ ap (λ out. f.bytes ++ out) (written e f src r ran));
    }
      where
        written :
            (e : Bool) (f : OutFile z) (src : List ℕ) (r : Call z.Ctx)
            → z.compress e f.ctx src ≡ some r
            → take (z.fwrite f.bytes r.produced) r.produced ≡ r.produced
        written e f src r ran =
            ap (λ n. take n r.produced) (fine.no_short_write f.bytes r.produced)
            ∙ take-length r.produced

    wrote_all-true : (r : Call z.Ctx) (f : OutFile z) → wrote_all z r f ≡ true
    wrote_all-true r f = ground (arith, fine.no_short_write f.bytes r.produced)

    -- A loop that goes on after a call.
    Fed-rest :
        (f : OutFile z) (src : List ℕ) (r : Call z.Ctx) (f' : OutFile z)
        → Fed f (take r.consumed src) (put z r f)
        → Fed (put z r f) (drop r.consumed src) f'
        → Fed f src f'
    Fed-rest f src r f' a b = record {
      content =
          b.content
          ∙ ap (λ v. v ++ drop r.consumed src) a.content
          ∙ append_assoc (laws.fed f.ctx) (take r.consumed src) (drop r.consumed src)
          ∙ ap (λ v. laws.fed f.ctx ++ v) (take-append-drop r.consumed src);
      sound = λ s. b.sound (a.sound s);
      back = λ s. a.back (b.back s);
    }

    nearer :
        (src : List ℕ) (c : z.Ctx) (r : Call z.Ctx)
        → z.compress false c src ≡ some r
        → src ≢ []
        → (length (drop r.consumed src) < length src)
          ⊎ ((length (drop r.consumed src) ≤ length src) × (laws.pending r.ctx < laws.pending c))
    nearer [] c r e ne = absurd (ne refl)
    nearer (b ∷ bs) c r e ne =
        ground (arith, laws.progress-continue c (b ∷ bs) r e ne, length-drop r.consumed (b ∷ bs))

    feed_loop-Fed :
        (fuel : ℕ) (src : List ℕ) (f : OutFile z) (n : ℕ)
        → length src * suc z.most_pending + laws.pending f.ctx < fuel
        → Fed f src (feed_loop z fuel src f n).0
    unfolding feed_loop
    feed_loop-Fed zero src f n m = absurd (omega arith)
    feed_loop-Fed (suc fuel) [] f n m = record {
      content = sym (append-nil (laws.fed f.ctx));
      sound = λ s. s;
      back = λ s. s;
    }
    feed_loop-Fed (suc fuel) (b ∷ bs) f n m =
        let (r, ran) = fine.no_error false f.ctx (b ∷ bs) in
        subst
          (λ o.
            Fed f (b ∷ bs)
              (elim o as (λ x. OutFile z × ℕ) [
                | none ↦ (f, n)
                | some r ↦
                    feed_loop z fuel (drop r.consumed (b ∷ bs)) (put z r f) (n + length r.produced)
              ]).0)
          (sym ran)
          (Fed-rest f (b ∷ bs) r _ (put-Fed false f (b ∷ bs) r ran) (
            feed_loop-Fed fuel (drop r.consumed (b ∷ bs)) (put z r f) (n + length r.produced) (
              measure-lt (length (b ∷ bs)) (length (drop r.consumed (b ∷ bs))) (laws.pending f.ctx)
                (laws.pending r.ctx) z.most_pending fuel (omega arith) (laws.pending_bound r.ctx)
                (nearer (b ∷ bs) f.ctx r ran (λ nil. cc)) m)))

    pub feed_all-Fed : (src : List ℕ) (f : OutFile z) → Fed f src (feed_all z src f).0
    unfolding feed_all
    feed_all-Fed src f =
        feed_loop-Fed (rounds z src) src f 0 (omega (arith, laws.pending_bound f.ctx))

    -- A last call, with a return value of 0.
    last-Ended :
        (f : OutFile z) (src : List ℕ) (r : Call z.Ctx)
        → z.compress true f.ctx src ≡ some r
        → r.rc ≡ 0
        → Ended f src (put z r f)
    last-Ended f src r ran zero_rc =
        let p = put-Fed true f src r ran in
        let (whole, frame) = laws.complete-end f.ctx src r ran zero_rc in
        record {
          content = p.content ∙ ap (λ v. laws.fed f.ctx ++ v) whole;
          sound = p.sound;
          back = p.back;
          decoded = λ s. sym (ap laws.decode (p.sound s)) ∙ frame;
        }

    Ended-rest :
        (f : OutFile z) (src : List ℕ) (r : Call z.Ctx) (f' : OutFile z)
        → Fed f (take r.consumed src) (put z r f)
        → Ended (put z r f) (drop r.consumed src) f'
        → Ended f src f'
    Ended-rest f src r f' a b =
        let both =
          Fed-rest f src r f' a (record { content = b.content; sound = b.sound; back = b.back }) in
        record {
          content = both.content;
          sound = both.sound;
          back = both.back;
          decoded = λ s. b.decoded (a.sound s);
        }

    nearer_end :
        (src : List ℕ) (c : z.Ctx) (r : Call z.Ctx)
        → z.compress true c src ≡ some r
        → r.rc ≢ 0
        → length (drop r.consumed src) * suc z.most_pending + laws.pending r.ctx
          < length src * suc z.most_pending + laws.pending c
    nearer_end src c r ran more = elim (laws.progress-end c src r ran more) [
      | inl fewer ↦ omega (
        arith,
        mul-le-mul_right {m = suc (length (drop r.consumed src))} {n = length src}
            (suc z.most_pending) fewer,
        laws.pending_bound r.ctx,
      )
      | inr less ↦ omega (
        arith,
        less,
        mul-le-mul_right {m = length (drop r.consumed src)} {n = length src} (suc z.most_pending)
            most,
      )
    ]
      where
        most : length (drop r.consumed src) ≤ length src
        most = omega (arith, length-drop r.consumed src)

    end_loop-Ended :
        (fuel : ℕ) (src : List ℕ) (f : OutFile z)
        → length src * suc z.most_pending + laws.pending f.ctx < fuel
        → (f' : OutFile z) × (end_loop z fuel src f ≡ some f') × Ended f src f'
    unfolding end_loop
    end_loop-Ended zero src f m = absurd (omega arith)
    end_loop-Ended (suc fuel) src f m =
        let (r, ran) = fine.no_error true f.ctx src in
        let after : Bool → Option (OutFile z) = λ b. elim b as (λ x. Option (OutFile z)) [
          | true ↦ some (put z r f)
          | false ↦ end_loop z fuel (drop r.consumed src) (put z r f)
        ] in
        let first : end_loop z (suc fuel) src f ≡ after (r.rc == 0) =
          ap
            (λ o. elim o as (λ x. Option (OutFile z)) [
              | none ↦ none
              | some r ↦ elim (wrote_all z r f) as (λ x. Option (OutFile z)) [
                | true ↦ elim (r.rc == 0) as (λ x. Option (OutFile z)) [
                  | true ↦ some (put z r f)
                  | false ↦ end_loop z fuel (drop r.consumed src) (put z r f)
                ]
                | false ↦ none
              ]
            ])
            ran
          ∙ ap
              (λ b. elim b as (λ x. Option (OutFile z)) [ true ↦ after (r.rc == 0) | false ↦ none ])
              (wrote_all-true r f) in
        elim (Bool-cases (r.rc == 0)) [
          | inl last ↦
              (put z r f, first ∙ ap after last, last-Ended f src r ran (ground (arith, last)))
          | inr more ↦
              (let (f', rest, h) =
                  end_loop-Ended fuel (drop r.consumed src) (put z r f)
                    (omega (arith, m, nearer_end src f.ctx r ran (ground (arith, more)))) in
                (
                  f',
                  first ∙ ap after more ∙ rest,
                  Ended-rest f src r f' (put-Fed true f src r ran) h,
                ))
        ]

    pub end_all-Ended :
        (src : List ℕ) (f : OutFile z)
        → (f' : OutFile z) × (end_all z src f ≡ some f') × Ended f src f'
    unfolding end_all
    end_all-Ended src f =
        end_loop-Ended (rounds z src) src f (omega (arith, laws.pending_bound f.ctx))

    finish_loop-Ended :
        (fuel : ℕ) (f : OutFile z) (n : ℕ)
        → laws.pending f.ctx < fuel
        → Ended f [] (finish_loop z fuel f n).0
    unfolding finish_loop
    finish_loop-Ended zero f n m = absurd (omega arith)
    finish_loop-Ended (suc fuel) f n m =
        let (r, ran) = fine.no_error true f.ctx [] in
        let after : Bool → OutFile z × ℕ = λ b. elim b as (λ x. OutFile z × ℕ) [
          | true ↦ (put z r f, n + length r.produced)
          | false ↦ finish_loop z fuel (put z r f) (n + length r.produced)
        ] in
        subst
          (λ o.
            Ended f []
              (elim o as (λ x. OutFile z × ℕ) [
                | none ↦ (f, n)
                | some r ↦ elim (r.rc == 0) as (λ x. OutFile z × ℕ) [
                  | true ↦ (put z r f, n + length r.produced)
                  | false ↦ finish_loop z fuel (put z r f) (n + length r.produced)
                ]
              ]).0)
          (sym ran)
          (elim (Bool-cases (r.rc == 0)) [
            | inl last ↦
                subst (λ b. Ended f [] (after b).0) (sym last)
                  (last-Ended f [] r ran (ground (arith, last)))
            | inr more ↦
                subst (λ b. Ended f [] (after b).0) (sym more)
                  (Ended-rest f [] r _ (put-Fed true f [] r ran) (
                    subst (λ xs. Ended (put z r f) xs (after false).0) (sym (drop-nil r.consumed))
                      (finish_loop-Ended fuel (put z r f) (n + length r.produced)
                        (omega (arith, m, fewer r ran (ground (arith, more)))))))
          ])
      where
        drop-nil : (n : ℕ) → drop {A = ℕ} n [] ≡ []
        drop-nil zero = refl
        drop-nil (suc n) = refl

        fewer :
            (r : Call z.Ctx)
            → z.compress true f.ctx [] ≡ some r
            → r.rc ≢ 0
            → laws.pending r.ctx < laws.pending f.ctx
        fewer r ran ne =
            ground (arith, laws.progress-end f.ctx [] r ran ne, length-drop {A = ℕ} r.consumed [])

    pub finish_all-Ended : (f : OutFile z) → Ended f [] (finish_all z f).0
    unfolding finish_all
    finish_all-Ended f =
        finish_loop-Ended (suc z.most_pending) f 0 (omega (arith, laws.pending_bound f.ctx))

    -- One call that takes its whole input.
    pub continue_once-Fed :
        (src : List ℕ) (f : OutFile z)
        → ((r : Call z.Ctx) → z.compress false f.ctx src ≡ some r → take r.consumed src ≡ src)
        → (f' : OutFile z) × (continue_once z src f ≡ some f') × Fed f src f'
    unfolding continue_once
    continue_once-Fed src f takes =
        let (r, ran) = fine.no_error false f.ctx src in
        let p = put-Fed false f src r ran in
        (
          put z r f,
          ap
                (λ o. elim o as (λ x. Option (OutFile z)) [
                  | none ↦ none
                  | some r ↦ elim (wrote_all z r f) as (λ x. Option (OutFile z)) [
                    | true ↦ some (put z r f)
                    | false ↦ none
                  ]
                ])
                ran
              ∙ ap
                  (λ b. elim b as (λ x. Option (OutFile z)) [
                    | true ↦ some (put z r f)
                    | false ↦ none
                  ])
                  (wrote_all-true r f),
          record {
            content = p.content ∙ ap (λ v. laws.fed f.ctx ++ v) (takes r ran);
            sound = p.sound;
            back = p.back;
          },
        )
