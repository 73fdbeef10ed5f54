-- ===== src/Raw/Filter/Idle/Slots.antt =====
-- The idle buffer gives back the records that were put into it, and never writes past its arrays.
use champsim_infra.Prelude.{
  ℕ, zero, suc, ◌+◌, ◌*◌, ◌<◌, ◌≤◌, ◌≡◌, refl, sym, ap, ap₂, subst, ◌∙◌, Bool, true, false, List,
  [], ◌∷◌, ◌++◌, append_assoc, append-nil, map, map-snoc, length, length-append, take, ltb, arith,
  inl, inr, Bool-cases,
}
use champsim_infra.Raw.Bytes.{take-append, drop-append}
use champsim_infra.Raw.Convert.Writer.{concat}
use champsim_infra.Raw.Filter.Idle.{
  IdleBuffer, idle_buffer_reset, idle_buffer_append, grow, slot_bytes,
}

pub concat-snoc : (rs : List (List ℕ)) (r : List ℕ) → concat (rs ++ r ∷ []) ≡ concat rs ++ r
concat-snoc [] r = append-nil r
concat-snoc (s ∷ rs) r = ap (λ z. s ++ z) (concat-snoc rs r) ∙ sym (append_assoc s (concat rs) r)

-- The places of records that are put one after another from an offset on.
abbrev pub places : ℕ → List (List ℕ) → List ℕ
places n [] = []
places n (r ∷ rs) = n ∷ places (n + length r) rs

places-snoc :
    (n : ℕ) (rs : List (List ℕ)) (r : List ℕ)
    → places n (rs ++ r ∷ []) ≡ places n rs ++ (n + length (concat rs)) ∷ []
places-snoc n [] r = ap (λ m. m ∷ []) (omega arith)
places-snoc n (s ∷ rs) r =
    ap (λ z. n ∷ z)
      (places-snoc (n + length s) rs r
        ∙ ap (λ m. places (n + length s) rs ++ m ∷ []) (omega (arith, length-append s (concat rs))))

-- The buffer holds these records.
pub record Holds (b : IdleBuffer) (rs : List (List ℕ)) : Type 0 where
  pub same_bytes : b.bytes ≡ concat rs
  pub same_offsets : b.offsets ≡ places 0 rs
  pub same_lengths : b.lengths ≡ map length rs

pub idle_buffer_reset-Holds : (b : IdleBuffer) → Holds (idle_buffer_reset b) []
idle_buffer_reset-Holds b = record { same_bytes = refl; same_offsets = refl; same_lengths = refl }

pub idle_buffer_append-Holds :
    (b : IdleBuffer) (rs : List (List ℕ)) (r : List ℕ) (k : Bool)
    → Holds b rs
    → Holds (idle_buffer_append r k b) (rs ++ r ∷ [])
unfolding idle_buffer_append
idle_buffer_append-Holds b rs r k h = record {
  same_bytes = ap (λ z. z ++ r) h.same_bytes ∙ sym (concat-snoc rs r);
  same_offsets =
      ap₂ (λ os bs. os ++ length bs ∷ []) h.same_offsets h.same_bytes
      ∙ ap (λ n. places 0 rs ++ n ∷ []) {x = length (concat rs)} {y = 0 + length (concat rs)}
          (omega arith)
      ∙ sym (places-snoc 0 rs r);
  same_lengths = ap (λ z. z ++ length r ∷ []) h.same_lengths ∙ sym (map-snoc length rs r);
}

slots-places :
    (before : List ℕ) (rs : List (List ℕ))
    → slot_bytes (before ++ concat rs) (places (length before) rs) (map length rs) ≡ rs
unfolding slot_bytes
slots-places before [] = refl
slots-places before (r ∷ rs) =
    ap₂ (λ x xs. x ∷ xs)
      (ap (take (length r)) (drop-append before (r ++ concat rs)) ∙ take-append r (concat rs))
      (ap₂ (λ bs n. slot_bytes bs (places n rs) (map length rs))
          (sym (append_assoc before r (concat rs))) (sym (length-append before r))
        ∙ slots-places (before ++ r) rs)

pub slots-Holds :
    (b : IdleBuffer) (rs : List (List ℕ)) → Holds b rs → slot_bytes b.bytes b.offsets b.lengths ≡ rs
slots-Holds b rs h =
    ap₂ (λ bs os. slot_bytes bs os b.lengths) h.same_bytes h.same_offsets
    ∙ ap (slot_bytes (concat rs) (places 0 rs)) h.same_lengths
    ∙ slots-places [] rs

-- The records after a number of appends.
abbrev pub append_all : List (List ℕ × Bool) → IdleBuffer → IdleBuffer
append_all [] b = b
append_all ((r, k) ∷ rs) b = append_all rs (idle_buffer_append r k b)

append_all-Holds :
    (b : IdleBuffer) (rs : List (List ℕ)) (xs : List (List ℕ × Bool))
    → Holds b rs
    → Holds (append_all xs b) (rs ++ map (λ x. x.0) xs)
append_all-Holds b rs [] h = subst (Holds b) (sym (append-nil rs)) h
append_all-Holds b rs ((r, k) ∷ xs) h =
    subst (Holds (append_all xs (idle_buffer_append r k b)))
      (append_assoc rs (r ∷ []) (map (λ x. x.0) xs))
      (append_all-Holds (idle_buffer_append r k b) (rs ++ r ∷ []) xs
        (idle_buffer_append-Holds b rs r k h))

-- The records that are appended to a buffer that has been reset are read back, slot by slot, as they
-- were, whatever their lengths.
pub slot_bytes-append_all :
    (b : IdleBuffer) (xs : List (List ℕ × Bool))
    → let c : IdleBuffer = append_all xs (idle_buffer_reset b) in
      slot_bytes c.bytes c.offsets c.lengths ≡ map (λ x. x.0) xs
slot_bytes-append_all b xs =
    slots-Holds _ _ (append_all-Holds (idle_buffer_reset b) [] xs (idle_buffer_reset-Holds b))

-- The arrays are as large as what they hold.
pub record Roomy (b : IdleBuffer) : Type 0 where
  pub bytes_room : length b.bytes ≤ b.bytes_size
  pub some_bytes : 0 < b.bytes_size
  pub slots_room : length b.offsets ≤ b.slots_size
  pub some_slots : 0 < b.slots_size

grow-enough :
    (fuel need size : ℕ)
    → 0 < size
    → need ≤ size + fuel
    → (need ≤ grow fuel need size) × (0 < grow fuel need size)
unfolding grow
grow-enough zero need size p e = (omega arith, p)
grow-enough (suc fuel) need size p e = elim (Bool-cases (ltb size need)) [
  | inl t ↦
      subst (λ c. Both (elim c [ true ↦ grow fuel need (size * 2) | false ↦ size ])) (sym t)
        (grow-enough fuel need (size * 2) (omega arith) (omega arith))
  | inr f ↦
      subst (λ c. Both (elim c [ true ↦ grow fuel need (size * 2) | false ↦ size ])) (sym f)
        (ground (arith, f), p)
]
  where
    Both : ℕ → Type 0
    Both n = (need ≤ n) × (0 < n)

-- An append keeps the arrays as large as what they hold, so its memcpy and its stores stay inside
-- them.
pub idle_buffer_append-Roomy :
    (b : IdleBuffer) (r : List ℕ) (k : Bool) → Roomy b → Roomy (idle_buffer_append r k b)
unfolding idle_buffer_append
idle_buffer_append-Roomy b r k h =
    let need : ℕ = length b.bytes + length r in
    let (enough, some) = grow-enough need need b.bytes_size h.some_bytes (omega arith) in
    record {
      bytes_room = ground (arith, length-append b.bytes r);
      some_bytes = ground (arith);
      slots_room = ground (arith, length-append b.offsets (length b.bytes ∷ []));
      some_slots = ground (arith);
    }
