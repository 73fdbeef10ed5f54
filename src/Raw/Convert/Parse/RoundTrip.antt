-- ===== src/Raw/Convert/Parse/RoundTrip.antt =====
-- The converter reads what the plugin writes.
use champsim_infra.Prelude.{
  ℕ, ◌%◌, ◌^◌, ◌<◌, ◌≤◌, ◌≡◌, refl, sym, ap, ap₂, ◌∙◌, ◌&&◌, ◌||◌, not, Bool-cases, inl, inr, subst,
  Bool, true, false, some, List, [], ◌∷◌, ◌++◌, append_assoc, length, length-take, take, ltb, ◌==◌,
  if◌then◌else◌, arith,
}
use champsim_infra.Trace.{bytes_of}
use champsim_infra.Raw.Bytes.{
  pure, fail, continued, ◌>>=◌, read_exact, read_number, read_exact-append, read_number-append,
}
use champsim_infra.Raw.Record.{
  encode_header, hdr_privilege, hdr_instr_size, hdr_num_mem_ops, MemOp, Insn, has_value,
  value_bytes, max_value_size,
}
use champsim_infra.Raw.Plugin.Serial.{mem_op_bytes, mem_ops_bytes, insn_bytes}
use champsim_infra.Raw.Convert.Parse.{
  Header, read_mem_op, read_mem_ops, read_front, next_insn, Next, found, broken, with_header,
  with_front, with_ops, read_value, read_value_of, read_flags, read_size, read_paddr,
}

-- The fields of an operand fit their places in the record, and a value that is announced is there.
pub record FitsOp (capture_values : Bool) (m : MemOp) : Type 0 where
  pub address_fits : m.address < 2 ^ 64
  pub paddr_fits : m.paddr < 2 ^ 64
  pub size_fits : m.size < 256
  pub flags_fit : m.flags < 256
  pub array : length m.value ≡ max_value_size
  pub announced : (has_value m.flags && not capture_values) ≡ false

abbrev pub FitOps : Bool → List MemOp → Type 0
FitOps vals [] = Unit
FitOps vals (m ∷ ms) = FitsOp vals m × FitOps vals ms

pub record Fits (capture_values : Bool) (i : Insn) : Type 0 where
  pub privilege_fits : i.privilege < 2
  pub ip_fits : i.ip < 2 ^ 64
  pub some_bytes : 0 < length i.bytes
  pub few_bytes : length i.bytes ≤ 15
  pub few_ops : length i.mem_ops ≤ 7
  pub ops_fit : FitOps capture_values i.mem_ops

-- What is left of an operand in the record.
abbrev pub received_op : Bool → MemOp → MemOp
received_op has_pa m = record m {
  paddr = if has_pa then m.paddr else 0;
  value = if has_value m.flags then take (value_bytes m.size) m.value else [];
}

abbrev pub received_ops : Bool → List MemOp → List MemOp
received_ops has_pa [] = []
received_ops has_pa (m ∷ ms) = received_op has_pa m ∷ received_ops has_pa ms

abbrev pub received : Bool → Insn → Insn
received has_pa i = record i { mem_ops = received_ops has_pa i.mem_ops }

pub fields_back :
    (v p s n : ℕ)
    → p < 2
    → s < 16
    → n < 8
    → (hdr_privilege (encode_header v p s n) ≡ p)
      × (hdr_instr_size (encode_header v p s n) ≡ s)
      × (hdr_num_mem_ops (encode_header v p s n) ≡ n)
      × (encode_header v p s n < 256 ^ 4)
fields_back v p s n hp hs hn = omega arith

pub spread : (a b c d e : List ℕ) → (a ++ (b ++ (c ++ d))) ++ e ≡ a ++ (b ++ (c ++ (d ++ e)))
spread a b c d e =
    append_assoc a (b ++ (c ++ d)) e
    ∙ ap (λ z. a ++ z) (append_assoc b (c ++ d) e ∙ ap (λ z. b ++ z) (append_assoc c d e))

module _ (h : Header) where
  read_paddr_bytes :
      (p : ℕ) (rest : List ℕ)
      → p < 2 ^ 64
      → (if h.has_pa then read_number 8 else pure 0)
          ((if h.has_pa then bytes_of 8 p else []) ++ rest)
        ≡ some (if h.has_pa then p else 0, rest)
  read_paddr_bytes p rest fits = elim (Bool-cases h.has_pa) [
    | inl e ↦
        subst
          (λ b.
            (if b then read_number 8 else pure 0) ((if b then bytes_of 8 p else []) ++ rest)
            ≡ some (if b then p else 0, rest))
          (sym e) (read_number-append 8 p rest fits)
    | inr e ↦
        subst
          (λ b.
            (if b then read_number 8 else pure 0) ((if b then bytes_of 8 p else []) ++ rest)
            ≡ some (if b then p else 0, rest))
          (sym e) refl
  ]

  length-take_value :
      (m : MemOp)
      → FitsOp h.has_vals m
      → length (take (value_bytes m.size) m.value) ≡ value_bytes m.size
  length-take_value m f = ground (arith, length-take (value_bytes m.size) m.value, f.array)

  read_op_value :
      (m : MemOp) (rest : List ℕ)
      → FitsOp h.has_vals m
      → (if has_value m.flags then read_value h m.size else pure [])
          ((if has_value m.flags then take (value_bytes m.size) m.value else []) ++ rest)
        ≡ some ((if has_value m.flags then take (value_bytes m.size) m.value else []), rest)
  read_op_value m rest f = elim (Bool-cases (has_value m.flags)) [
    | inl e ↦
        (let known : h.has_vals ≡ true = ground (arith, f.announced) in
          subst
            (λ b.
              (if b then read_value h m.size else pure [])
                ((if b then take (value_bytes m.size) m.value else []) ++ rest)
              ≡ some ((if b then take (value_bytes m.size) m.value else []), rest))
            (sym e)
            (subst
              (λ b.
                (if not b then fail else read_exact (value_bytes m.size))
                  (take (value_bytes m.size) m.value ++ rest)
                ≡ some (take (value_bytes m.size) m.value, rest))
              (sym known)
              (read_exact-append (value_bytes m.size) (take (value_bytes m.size) m.value) rest
                (length-take_value m f))))
    | inr e ↦
        subst
          (λ b.
            (if b then read_value h m.size else pure [])
              ((if b then take (value_bytes m.size) m.value else []) ++ rest)
            ≡ some ((if b then take (value_bytes m.size) m.value else []), rest))
          (sym e) refl
  ]

  abbrev tail_bytes : MemOp → List ℕ
  tail_bytes m =
      m.size ∷ m.flags ∷ (if has_value m.flags then take (value_bytes m.size) m.value else [])

  abbrev paddr_bytes : MemOp → List ℕ
  paddr_bytes m = if h.has_pa then bytes_of 8 m.paddr else []

  read_byte : (v : ℕ) (rest : List ℕ) → v < 256 → read_number 1 (v ∷ rest) ≡ some (v, rest)
  unfolding bytes_of
  read_byte v rest fits =
      ap (λ u. read_number 1 (u ∷ rest)) {x = v} {y = v % 256} (omega arith)
      ∙ read_number-append 1 v rest fits

  read_mem_op-bytes :
      (m : MemOp) (rest : List ℕ)
      → FitsOp h.has_vals m
      → read_mem_op h (mem_op_bytes h.has_pa m ++ rest) ≡ some (received_op h.has_pa m, rest)
  unfolding read_mem_op mem_op_bytes
  read_mem_op-bytes m rest f =
      ap (read_mem_op h) (
        append_assoc (bytes_of 8 m.address) (paddr_bytes m ++ tail_bytes m) rest
        ∙ ap (λ bs. bytes_of 8 m.address ++ bs) (append_assoc (paddr_bytes m) (tail_bytes m) rest))
      ∙ ap (continued (read_paddr h))
          (read_number-append 8 m.address (paddr_bytes m ++ (tail_bytes m ++ rest)) f.address_fits)
      ∙ ap (continued (read_size h m.address))
          (read_paddr_bytes m.paddr (tail_bytes m ++ rest) f.paddr_fits)
      ∙ ap (continued (read_flags h m.address paddr))
          (read_byte m.size (m.flags ∷ value ++ rest) f.size_fits)
      ∙ ap (continued (read_value_of h m.address paddr m.size))
          (read_byte m.flags (value ++ rest) f.flags_fit)
      ∙ ap
          (continued (λ value. pure (record {
            address = m.address;
            paddr = paddr;
            size = m.size;
            flags = m.flags;
            value = value;
          })))
          (read_op_value m rest f)
    where
      paddr : ℕ
      paddr = if h.has_pa then m.paddr else 0

      value : List ℕ
      value = if has_value m.flags then take (value_bytes m.size) m.value else []

  read_mem_ops-bytes :
      (ms : List MemOp) (rest : List ℕ)
      → FitOps h.has_vals ms
      → read_mem_ops h (length ms) (mem_ops_bytes h.has_pa ms ++ rest)
        ≡ some (received_ops h.has_pa ms, rest)
  unfolding read_mem_ops mem_ops_bytes
  read_mem_ops-bytes [] rest f = refl
  read_mem_ops-bytes (m ∷ ms) rest f =
      ap (read_mem_ops h (length (m ∷ ms)))
        (append_assoc (mem_op_bytes h.has_pa m) (mem_ops_bytes h.has_pa ms) rest)
      ∙ ap (continued (λ m. read_mem_ops h (length ms) >>= λ ms. pure (m ∷ ms)))
          (read_mem_op-bytes m (mem_ops_bytes h.has_pa ms ++ rest) f.0)
      ∙ ap (continued (λ ms. pure (received_op h.has_pa m ∷ ms))) (read_mem_ops-bytes ms rest f.1)

  read_front-bytes :
      (ip : ℕ) (bytes rest : List ℕ)
      → ip < 2 ^ 64
      → read_front h (length bytes) (bytes_of 8 ip ++ (bytes ++ rest)) ≡ some ((ip, bytes), rest)
  unfolding read_front
  read_front-bytes ip bytes rest fits =
      ap (continued (λ ip. read_exact (length bytes) >>= λ bytes. pure (ip, bytes)))
        (read_number-append 8 ip (bytes ++ rest) fits)
      ∙ ap (continued (λ bytes. pure (ip, bytes)))
          (read_exact-append (length bytes) bytes rest refl)

  pub good_header :
      (header : ℕ) (bs : List ℕ)
      → 0 < hdr_instr_size header
      → hdr_instr_size header ≤ 15
      → hdr_num_mem_ops header ≤ 7
      → with_header h (some (header, bs))
        ≡ with_front h header (read_front h (hdr_instr_size header) bs)
  good_header header bs some_bytes few few_ops =
      let first : (hdr_instr_size header == 0 || ltb 15 (hdr_instr_size header)) ≡ false =
        ground (arith) in
      let second : ltb 7 (hdr_num_mem_ops header) ≡ false = ground (arith) in
      let good : Next h = with_front h header (read_front h (hdr_instr_size header) bs) in
      ap (λ b. if b then broken else if ltb 7 (hdr_num_mem_ops header) then broken else good) first
      ∙ ap (λ b. if b then broken else good) second

  -- The converter reads back the record that the plugin writes for an instruction, and leaves what
  -- follows: all fields but the physical addresses that the file does not hold and the bytes of the
  -- values that are not announced.
  pub next_insn-insn_bytes :
      (vcpu_id : ℕ) (i : Insn) (rest : List ℕ)
      → Fits h.has_vals i
      → next_insn h (insn_bytes h.has_pa vcpu_id i ++ rest) ≡ found (received h.has_pa i) rest
  unfolding next_insn insn_bytes
  next_insn-insn_bytes vcpu_id i rest f =
      let header : ℕ = encode_header vcpu_id i.privilege (length i.bytes) (length i.mem_ops) in
      let ops : List ℕ = mem_ops_bytes h.has_pa i.mem_ops in
      let (priv, isz, nmem, small) =
        fields_back vcpu_id i.privilege (length i.bytes) (length i.mem_ops) f.privilege_fits
          (omega (arith, f.few_bytes)) (omega (arith, f.few_ops)) in
      let body : List ℕ = bytes_of 8 i.ip ++ (i.bytes ++ (ops ++ rest)) in
      ap (next_insn h) (spread (bytes_of 4 header) (bytes_of 8 i.ip) i.bytes ops rest)
      ∙ ap (with_header h) (read_number-append 4 header body small)
      ∙ good_header header body (omega (arith, isz, f.some_bytes)) (omega (arith, isz, f.few_bytes))
          (omega (arith, nmem, f.few_ops))
      ∙ ap (λ n. with_front h header (read_front h n body)) isz
      ∙ ap (with_front h header) (read_front-bytes i.ip i.bytes (ops ++ rest) f.ip_fits)
      ∙ ap₂ (λ p n. with_ops h p (i.ip, i.bytes) (read_mem_ops h n (ops ++ rest))) priv nmem
      ∙ ap (with_ops h i.privilege (i.ip, i.bytes)) (read_mem_ops-bytes i.mem_ops rest f.ops_fit)
