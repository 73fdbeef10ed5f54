-- ===== src/Cutter/Chunker/Blocks.antt =====
-- `consume_decompressed`: however the input is cut into blocks, the carry puts the records together.
use mathlib.Core.List.{flatten}
use champsim_infra.Prelude.{
  ℕ, ◌+◌, ◌-◌, ◌*◌, ◌/◌, ◌^◌, ◌≤◌, ◌<◌, ◌≡◌, refl, sym, ap, subst, ◌∙◌, true, List, [], ◌∷◌, ◌++◌,
  append_assoc, append-nil, length, take, drop, ltb, arith, done, ◌>>=◌, Ends, Ends->>=, Ends-then,
  Ends-else, inl, inr, Bool-cases, length-take, length-drop, length-append, take-append-drop,
  take-of_le, is_empty, if◌then◌else◌,
}
use champsim_infra.Cutter.Codec.{Codec}
use champsim_infra.Cutter.Args.{Args}
use champsim_infra.Cutter.Chunker.{
  State, record_size, heartbeat_records, emit_records, consume_aligned, consume_decompressed,
  consume_all,
}
use champsim_infra.Cutter.Chunker.Progress.{Writing, Settled}
use champsim_infra.Cutter.Chunker.Emit.{Emitted, Emitted-none, emit_records-Emitted}

is_empty-true : (xs : List ℕ) → is_empty xs ≡ true → xs ≡ []
is_empty-true [] h = refl
is_empty-true (x ∷ xs) h = cc

module _ (z : Codec) (a : Args) (Q : Type 0) (v : Writing z a Q)
    (fits : a.chunk_records < 2 ^ 64) where
  -- The chunker has been given `input`: whole records, and less than a record in the carry.
  pub record Fed (input : List ℕ) (s : State z) : Type 0 where
    pub records : ℕ
    pub bytes : List ℕ
    pub settled : Settled z a Q v s records bytes
    pub exact : length bytes ≡ records * record_size
    pub joined : bytes ++ s.carry ≡ input
    pub short : length s.carry < record_size

  Settled-carry :
      (s : State z) (t : ℕ) (bytes tail : List ℕ)
      → Settled z a Q v s t bytes
      → Settled z a Q v (record s { carry = tail }) t bytes
  Settled-carry s t bytes tail h = record {
    total = h.total;
    full = h.full;
    split = h.split;
    below = h.below;
    list = h.list;
    part = h.part;
    opened = h.opened;
    ahead = h.ahead;
    near = h.near;
    raws = h.raws;
    cur = h.cur;
    count = h.count;
    sizes = h.sizes;
    size = h.size;
    content = h.content;
    written = h.written;
  }

  keep_tail :
      (tail : List ℕ) (s : State z) (t : ℕ) (bytes : List ℕ)
      → Settled z a Q v s t bytes
      → length bytes ≡ t * record_size
      → s.carry ≡ []
      → length tail < record_size
      → Fed (bytes ++ tail) (if is_empty tail then s else record s { carry = tail })
  keep_tail [] s t bytes h exact none short = record {
    records = t;
    bytes = bytes;
    settled = h;
    exact = exact;
    joined = ap (◌++◌ bytes) none;
    short = omega (arith, ap length none);
  }
  keep_tail (b ∷ tail) s t bytes h exact none short = record {
    records = t;
    bytes = bytes;
    settled = Settled-carry s t bytes (b ∷ tail) h;
    exact = exact;
    joined = refl;
    short = short;
  }

  -- The whole records of `p`, whether or not there are any.
  emit_whole :
      (p : List ℕ) (n : ℕ) (s : State z) (t : ℕ) (bytes : List ℕ)
      → Settled z a Q v s t bytes
      → n * record_size ≤ length p
      → t + n + heartbeat_records < 2 ^ 64
      → Ends
          (Emitted z a Q v fits s t bytes p n)
          Q
          (if ltb 0 n then emit_records z a p n s else done s)
  emit_whole p n s t bytes h enough small = elim (Bool-cases (ltb 0 n)) [
    | inl e ↦ Ends-then _ Q _ _ _ e (emit_records-Emitted z a Q v fits p n s t bytes h enough small)
    | inr e ↦ Ends-else _ Q _ _ _ e (Emitted-none z a Q v fits s t n bytes p (ground arith) h)
  ]

  consume_aligned-Fed :
      (p : List ℕ) (s : State z) (t : ℕ) (bytes : List ℕ)
      → Settled z a Q v s t bytes
      → length bytes ≡ t * record_size
      → s.carry ≡ []
      → length (bytes ++ p) + heartbeat_records < 2 ^ 64
      → Ends (Fed (bytes ++ p)) Q (consume_aligned z a p s)
  unfolding consume_aligned
  consume_aligned-Fed p s t bytes h exact none small =
      let n : ℕ = length p / record_size in
      let whole : List ℕ = take (n * record_size) p in
      let tail : List ℕ = drop (n * record_size) p in
      Ends->>= (Emitted z a Q v fits s t bytes p n) (Fed (bytes ++ p)) Q _ _
        (emit_whole p n s t bytes h (omega arith) (omega (arith, length-append bytes p)))
        (λ s' k.
          subst (λ l. Fed l (if is_empty tail then s' else record s' { carry = tail }))
            (append_assoc bytes whole tail ∙ ap (◌++◌ bytes) (take-append-drop (n * record_size) p))
            (keep_tail tail s' (t + n) (bytes ++ whole) k.0
              (omega (arith, length-append bytes whole, length-take (n * record_size) p))
              (k.1 ∙ none) (omega (arith, length-drop (n * record_size) p))))

  -- A block that does not fill the carry's record.
  carry_more :
      (s : State z) (input dp : List ℕ)
      → Fed input s
      → length s.carry + length dp < record_size
      → Fed (input ++ dp) (record s { carry = s.carry ++ dp })
  carry_more s input dp f less = record {
    records = f.records;
    bytes = f.bytes;
    settled = Settled-carry s f.records f.bytes (s.carry ++ dp) f.settled;
    exact = f.exact;
    joined = sym (append_assoc f.bytes s.carry dp) ∙ ap (λ l. l ++ dp) f.joined;
    short = omega (arith, length-append s.carry dp);
  }

  -- A block that does: the first record is the carry with the head of the block.
  fill_carry :
      (s : State z) (input dp : List ℕ)
      → Fed input s
      → record_size ≤ length s.carry + length dp
      → length (input ++ dp) + heartbeat_records < 2 ^ 64
      → let need = record_size - length s.carry in
        Ends (Fed (input ++ dp)) Q (
          emit_records z a (s.carry ++ take need dp) 1 (record s { carry = [] })
          >>= consume_aligned z a (drop need dp))
  fill_carry s input dp f enough small =
      let need : ℕ = record_size - length s.carry in
      let first : List ℕ = s.carry ++ take need dp in
      let size : length first ≡ record_size =
        omega (arith, length-append s.carry (take need dp), length-take need dp, f.short) in
      let all : take (1 * record_size) first ≡ first =
        take-of_le (1 * record_size) first (omega arith) in
      let given : (f.bytes ++ take (1 * record_size) first) ++ drop need dp ≡ input ++ dp =
        ap (λ l. (f.bytes ++ l) ++ drop need dp) all
        ∙ append_assoc f.bytes first (drop need dp)
        ∙ ap (◌++◌ f.bytes) (
            append_assoc s.carry (take need dp) (drop need dp)
            ∙ ap (◌++◌ s.carry) (take-append-drop need dp))
        ∙ sym (append_assoc f.bytes s.carry dp)
        ∙ ap (λ l. l ++ dp) f.joined in
      let small' : f.records + 1 + heartbeat_records < 2 ^ 64 = omega (
        arith,
        length-append input dp,
        ap length f.joined,
        length-append f.bytes s.carry,
        f.exact,
      ) in
      Ends->>= (Emitted z a Q v fits (record s { carry = [] }) f.records f.bytes first 1)
        (Fed (input ++ dp)) Q _ _
        (emit_records-Emitted z a Q v fits first 1 (record s { carry = [] }) f.records f.bytes
          (Settled-carry s f.records f.bytes [] f.settled) (omega arith) small')
        (λ s' k.
          subst (λ l. Ends (Fed l) Q (consume_aligned z a (drop need dp) s')) given
            (consume_aligned-Fed (drop need dp) s' (f.records + 1)
              (f.bytes ++ take (1 * record_size) first) k.0
              (omega (
                arith,
                length-append f.bytes (take (1 * record_size) first),
                ap length all,
                f.exact,
              ))
              k.1 (omega (arith, ap length given))))

  pub consume_decompressed-Fed :
      (s : State z) (input dp : List ℕ)
      → Fed input s
      → length (input ++ dp) + heartbeat_records < 2 ^ 64
      → Ends (Fed (input ++ dp)) Q (consume_decompressed z a dp s)
  unfolding consume_decompressed
  consume_decompressed-Fed s input dp f small = elim (Bool-cases (is_empty s.carry)) [
    | inl e ↦
        let none : s.carry ≡ [] = is_empty-true s.carry e in
        let all : f.bytes ≡ input =
          sym (append-nil f.bytes) ∙ ap (◌++◌ f.bytes) (sym none) ∙ f.joined in
        Ends-then _ Q _ _ _ e (
          subst (λ l. Ends (Fed (l ++ dp)) Q (consume_aligned z a dp s)) all
            (consume_aligned-Fed dp s f.records f.bytes f.settled f.exact none
              (omega (arith, ap length (ap (λ l. l ++ dp) all)))))
    | inr e ↦
        Ends-else _ Q _ _ _ e (elim (Bool-cases (ltb (length dp) (record_size - length s.carry))) [
          | inl less ↦ Ends-then _ Q _ _ _ less (carry_more s input dp f (ground arith))
          | inr enough ↦ Ends-else _ Q _ _ _ enough (fill_carry s input dp f (ground arith) small)
        ])
  ]

  -- The blocks one after another.
  pub consume_all-Fed :
      (blocks : List (List ℕ)) (s : State z) (input : List ℕ)
      → Fed input s
      → length (input ++ flatten blocks) + heartbeat_records < 2 ^ 64
      → Ends (Fed (input ++ flatten blocks)) Q (consume_all z a blocks s)
  unfolding consume_all flatten
  consume_all-Fed [] s input f small = subst (λ l. Fed l s) (sym (append-nil input)) f
  consume_all-Fed (block ∷ blocks) s input f small =
      let grouped : (input ++ block) ++ flatten blocks ≡ input ++ flatten (block ∷ blocks) =
        append_assoc input block (flatten blocks) in
      Ends->>= (Fed (input ++ block)) (Fed (input ++ flatten (block ∷ blocks))) Q _ _
        (consume_decompressed-Fed s input block f
          (omega (arith, ap length grouped, length-append (input ++ block) (flatten blocks))))
        (λ s' f'.
          subst (λ l. Ends (Fed l) Q (consume_all z a blocks s')) grouped
            (consume_all-Fed blocks s' (input ++ block) f' (omega (arith, ap length grouped))))
