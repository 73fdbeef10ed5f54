-- ===== src/Raw/Filter/Machine/Kept.antt =====
-- What the filter's machine writes for a list of records.
use champsim_infra.Prelude.{
  ℕ, ◌&&◌, Bool, true, false, Option, none, some, List, [], ◌∷◌, ◌++◌, map, append_assoc,
  append-nil, ◌==◌, is_empty, if◌then◌else◌, ◌≡◌, refl, sym, ap, ap₂, subst, ◌∙◌, inl, inr,
  Bool-cases, arith,
}
use champsim_infra.Raw.Convert.Writer.{concat}
use champsim_infra.Raw.Filter.Keep.{ends_idle, keep}
use champsim_infra.Raw.Filter.Idle.{idle_buffer_reset}
use champsim_infra.Raw.Filter.Idle.Slots.{
  Holds, concat-snoc, slots-Holds, idle_buffer_append-Holds, idle_buffer_reset-Holds,
}
use champsim_infra.Raw.Filter.Writer.{
  Compressor, FilterWriter, Keeps, written, writer_append-written,
}
use champsim_infra.Raw.Filter.Framing.{Rec}
use champsim_infra.Raw.Filter.Machine.{
  Mode, active, idle_candidate, Filter, emit, put_out, flush_slots, flush_idle, flush_rest,
  filter_step, move, begin_candidate, wake_up, buffer_kernel, discard, count_in, is_kernel,
}

abbrev pub hlt_of : Rec → Bool
hlt_of r = r.is_hlt

abbrev pub user_of : Rec → Bool
user_of r = r.priv == 0

abbrev pub waits : Mode → Bool
waits active = false
waits idle_candidate = true

-- The bytes of the records that are kept.
abbrev pub kept_bytes : Bool → List Rec → List ℕ
kept_bytes w rs = concat (map (λ r. r.bytes) (keep hlt_of user_of w rs))

-- The buffered bytes that the rest of the trace releases.
abbrev pub owed : Mode → List (List ℕ) → List Rec → List ℕ
owed active buf rs = []
owed idle_candidate buf rs = if ends_idle hlt_of user_of rs then [] else concat buf

abbrev released : List Rec → List ℕ → List ℕ
released rs bytes = if ends_idle hlt_of user_of rs then [] else bytes

kept_bytes-waiting :
    (w : Bool) (r : Rec) (rs : List Rec)
    → (if r.is_hlt then true else if r.priv == 0 then false else w) ≡ true
    → kept_bytes w (r ∷ rs) ≡ released rs r.bytes ++ kept_bytes true rs
kept_bytes-waiting w r rs e =
    ap
      (λ w'.
        let rest = keep hlt_of user_of w' rs in
        concat (map (λ r. r.bytes) (if w' && ends_idle hlt_of user_of rs then rest else r ∷ rest)))
      e
    ∙ elim (Bool-cases (ends_idle hlt_of user_of rs)) [
      | inl t ↦ subst Same (sym t) refl
      | inr f ↦ subst Same (sym f) refl
    ]
  where
    Same : Bool → Type 0
    Same b =
        let rest = keep hlt_of user_of true rs in
        concat (map (λ r. r.bytes) (if true && b then rest else r ∷ rest))
        ≡ (if b then [] else r.bytes) ++ concat (map (λ r. r.bytes) rest)

kept_bytes-active :
    (w : Bool) (r : Rec) (rs : List Rec)
    → (if r.is_hlt then true else if r.priv == 0 then false else w) ≡ false
    → kept_bytes w (r ∷ rs) ≡ r.bytes ++ kept_bytes false rs
kept_bytes-active w r rs e =
    ap
      (λ w'.
        let rest = keep hlt_of user_of w' rs in
        concat (map (λ r. r.bytes) (if w' && ends_idle hlt_of user_of rs then rest else r ∷ rest)))
      e

-- What the output has become, if there is one.
abbrev pub grown : List ℕ → Option (List ℕ) → Option (List ℕ)
grown bytes none = none
grown bytes (some v) = some (v ++ bytes)

grown-nil : (o : Option (List ℕ)) → grown [] o ≡ o
grown-nil none = refl
grown-nil (some v) = ap (λ v. some v) (append-nil v)

grown-append : (a b : List ℕ) (o : Option (List ℕ)) → grown b (grown a o) ≡ grown (a ++ b) o
grown-append a b none = refl
grown-append a b (some v) = ap (λ v. some v) (append_assoc v a b)

module _ (z : Compressor) (laws : Keeps z) where
  abbrev pub seen_of : Option (FilterWriter z) → Option (List ℕ)
  seen_of none = none
  seen_of (some w) = some (written z laws w)

  abbrev pub seen : Filter z → Option (List ℕ)
  seen f = seen_of f.writer

  pub emit-seen :
      (bytes : List ℕ) (o : Option (FilterWriter z))
      → seen_of (emit z bytes o) ≡ grown bytes (seen_of o)
  emit-seen bytes none = refl
  emit-seen bytes (some w) = ap (λ v. some v) (writer_append-written z laws bytes w)

  flush_slots-seen :
      (rs : List (List ℕ)) (f : Filter z) → seen (flush_slots z rs f) ≡ grown (concat rs) (seen f)
  flush_slots-seen [] f = sym (grown-nil (seen f))
  flush_slots-seen (r ∷ rs) f =
      flush_slots-seen rs (put_out z r true f)
      ∙ ap (grown (concat rs)) (emit-seen r f.writer)
      ∙ grown-append r (concat rs) (seen f)

  flush_idle-seen :
      (f : Filter z) (buf : List (List ℕ))
      → Holds f.idle buf
      → seen (flush_idle z f) ≡ grown (concat buf) (seen f)
  flush_idle-seen f buf h =
      ap (λ rs. seen (flush_slots z rs f)) (slots-Holds f.idle buf h) ∙ flush_slots-seen buf f

  flush_rest-seen :
      (f : Filter z) (buf : List (List ℕ))
      → Holds f.idle buf
      → seen (flush_rest z f) ≡ grown (concat buf) (seen f)
  unfolding flush_rest
  flush_rest-seen f [] h =
      ap (λ os. seen (if is_empty os then f else flush_idle z f)) h.same_offsets
      ∙ sym (grown-nil (seen f))
  flush_rest-seen f (r ∷ rs) h =
      ap (λ os. seen (if is_empty os then f else flush_idle z f)) h.same_offsets
      ∙ flush_idle-seen f (r ∷ rs) h

  abbrev pub run : List Rec → Filter z → Filter z
  run [] f = f
  run (r ∷ rs) f = run rs (filter_step z r f)

  abbrev pub end_seen : List Rec → Filter z → Option (List ℕ)
  end_seen rs f = seen (flush_rest z (run rs f))

  abbrev pub Ready : Mode → List (List ℕ) → Type 0
  Ready active buf = buf ≡ []
  Ready idle_candidate buf = Unit

  -- What a step does, by the cases of the machine.
  step-as :
      (r : Rec) (f : Filter z) (m : Mode)
      → f.mode ≡ m
      → filter_step z r f ≡ move z m r (record f { stats = count_in r f.stats })
  unfolding filter_step
  step-as r f m e = ap (λ m. move z m r (record f { stats = count_in r f.stats })) e

  pub run-seen :
      (rs : List Rec) (m : Mode) (f : Filter z) (buf : List (List ℕ))
      → f.mode ≡ m
      → Holds f.idle buf
      → Ready m buf
      → end_seen rs f ≡ grown (owed m buf rs ++ kept_bytes (waits m) rs) (seen f)
  run-seen [] active f buf e h ready =
      flush_rest-seen f buf h ∙ ap (λ rs. grown (concat rs) (seen f)) ready
  run-seen [] idle_candidate f buf e h ready =
      flush_rest-seen f buf h ∙ ap (λ bs. grown bs (seen f)) (sym (append-nil (concat buf)))
  run-seen (r ∷ rs) active f buf e h ready =
      let g : Filter z = record f { stats = count_in r f.stats } in
      ap (end_seen rs) (step-as r f active e) ∙ elim (Bool-cases r.is_hlt) [
        | inl t ↦
            ap
              (λ (b : Bool).
                end_seen rs
                  (if b then begin_candidate z r g else put_out z r.bytes (is_kernel r) g))
              t
            ∙ run-seen rs idle_candidate (begin_candidate z r g) ((r.bytes) ∷ []) refl
                (idle_buffer_append-Holds (idle_buffer_reset f.idle) [] r.bytes (is_kernel r)
                  (idle_buffer_reset-Holds f.idle))
                tt
            ∙ ap (λ bs. grown (released rs bs ++ kept_bytes true rs) (seen f)) (append-nil r.bytes)
            ∙ ap (λ bs. grown bs (seen f)) (sym (kept_bytes-waiting false r rs (ground (arith, t))))
        | inr n ↦
            ap
              (λ (b : Bool).
                end_seen rs
                  (if b then begin_candidate z r g else put_out z r.bytes (is_kernel r) g))
              n
            ∙ run-seen rs active (put_out z r.bytes (is_kernel r) g) buf e h ready
            ∙ ap (grown (kept_bytes false rs)) (emit-seen r.bytes f.writer)
            ∙ grown-append r.bytes (kept_bytes false rs) (seen f)
            ∙ ap (λ bs. grown bs (seen f)) (sym (kept_bytes-active false r rs (ground (arith, n))))
      ]
  run-seen (r ∷ rs) idle_candidate f buf e h ready =
      let g : Filter z = record f { stats = count_in r f.stats } in
      ap (end_seen rs) (step-as r f idle_candidate e) ∙ elim (Bool-cases r.is_hlt) [
        | inl t ↦
            ap
              (λ (b : Bool).
                end_seen rs (if b then begin_candidate z r (discard z g) else on_other r g))
              t
            ∙ run-seen rs idle_candidate (begin_candidate z r (discard z g)) ((r.bytes) ∷ []) refl
                (idle_buffer_append-Holds (idle_buffer_reset f.idle) [] r.bytes (is_kernel r)
                  (idle_buffer_reset-Holds f.idle))
                tt
            ∙ ap (λ bs. grown (released rs bs ++ kept_bytes true rs) (seen f)) (append-nil r.bytes)
            ∙ ap (λ bs. grown bs (seen f)) (sym (kept_bytes-waiting true r rs (ground (arith, t))))
            ∙ ap
                (λ (b : Bool).
                  grown
                    ((if (if b
                          then true
                          else if r.priv == 0
                          then false
                          else ends_idle hlt_of user_of rs)
                        then []
                        else concat buf)
                      ++ kept_bytes true (r ∷ rs))
                    (seen f))
                (sym t)
        | inr n ↦
            ap
              (λ (b : Bool).
                end_seen rs (if b then begin_candidate z r (discard z g) else on_other r g))
              n
            ∙ elim (Bool-cases (r.priv == 0)) [
              | inl t ↦
                  ap (λ (b : Bool). end_seen rs (if b then wake_up z r g else buffer_kernel z r g))
                    t
                  ∙ run-seen rs active (wake_up z r g) [] refl
                      (idle_buffer_reset-Holds (flush_idle z g).idle) refl
                  ∙ ap (grown (kept_bytes false rs)) (
                      emit-seen r.bytes (flush_idle z g).writer
                      ∙ ap (grown r.bytes) (flush_idle-seen g buf h))
                  ∙ grown-append r.bytes (kept_bytes false rs) (grown (concat buf) (seen f))
                  ∙ grown-append (concat buf) (r.bytes ++ kept_bytes false rs) (seen f)
                  ∙ ap (λ bs. grown (concat buf ++ bs) (seen f))
                      (sym (kept_bytes-active true r rs (ground (arith, n, t))))
                  ∙ ap (λ bs. grown (bs ++ kept_bytes true (r ∷ rs)) (seen f))
                      (sym (on_user r rs buf n t))
              | inr k ↦
                  ap (λ (b : Bool). end_seen rs (if b then wake_up z r g else buffer_kernel z r g))
                    k
                  ∙ run-seen rs idle_candidate (buffer_kernel z r g) (buf ++ r.bytes ∷ []) e
                      (idle_buffer_append-Holds f.idle buf r.bytes true h) tt
                  ∙ ap (λ bs. grown (released rs bs ++ kept_bytes true rs) (seen f))
                      (concat-snoc buf r.bytes)
                  ∙ ap (λ bs. grown bs (seen f))
                      (released-append rs (concat buf) r.bytes (kept_bytes true rs))
                  ∙ ap (λ bs. grown (released rs (concat buf) ++ bs) (seen f))
                      (sym (kept_bytes-waiting true r rs (ground (arith, n, k))))
                  ∙ ap (λ bs. grown (bs ++ kept_bytes true (r ∷ rs)) (seen f))
                      (sym (on_kernel r rs buf n k))
            ]
      ]
    where
      on_other : Rec → Filter z → Filter z
      on_other r g = if r.priv == 0 then wake_up z r g else buffer_kernel z r g

      on_user :
          (r : Rec) (rs : List Rec) (buf : List (List ℕ))
          → r.is_hlt ≡ false
          → (r.priv == 0) ≡ true
          → owed idle_candidate buf (r ∷ rs) ≡ concat buf
      on_user r rs buf n t =
          ap₂
            (λ (a b : Bool).
              if (if a then true else if b then false else ends_idle hlt_of user_of rs)
              then []
              else concat buf)
            n t

      on_kernel :
          (r : Rec) (rs : List Rec) (buf : List (List ℕ))
          → r.is_hlt ≡ false
          → (r.priv == 0) ≡ false
          → owed idle_candidate buf (r ∷ rs) ≡ owed idle_candidate buf rs
      on_kernel r rs buf n k =
          ap₂
            (λ (a b : Bool).
              if (if a then true else if b then false else ends_idle hlt_of user_of rs)
              then []
              else concat buf)
            n k

      released-append :
          (rs : List Rec) (a b c : List ℕ)
          → released rs (a ++ b) ++ c ≡ released rs a ++ (released rs b ++ c)
      released-append rs a b c = elim (Bool-cases (ends_idle hlt_of user_of rs)) [
        | inl t ↦
            subst
              (λ (e : Bool).
                (if e then [] else a ++ b) ++ c
                ≡ (if e then [] else a) ++ ((if e then [] else b) ++ c))
              (sym t) refl
        | inr n ↦
            subst
              (λ (e : Bool).
                (if e then [] else a ++ b) ++ c
                ≡ (if e then [] else a) ++ ((if e then [] else b) ++ c))
              (sym n) (append_assoc a b c)
      ]
