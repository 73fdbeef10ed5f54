-- ===== src/Raw/Convert/Layout.antt =====
-- The record that the converter writes is the record that trace_sanity_check reads.
use champsim_infra.Prelude.{
  ℕ, zero, suc, ◌+◌, ◌*◌, ◌^◌, ◌<◌, ◌≡◌, refl, sym, ap, ap₂, subst, ◌∙◌, List, [], ◌∷◌, ◌++◌,
  append_assoc, append-nil, length, length-append, take, drop, arith,
}
use champsim_infra.Trace.{InstrV2, word, words, fields, byte_at, bytes_of, decode_v1, decode_v2}
use champsim_infra.Raw.Bytes.{length-bytes_of, word-bytes_of, take-append, drop-append}
use champsim_infra.Raw.Convert.Writer.{encode_v2, words_of, concat}

abbrev pub AllBelow : ℕ → List ℕ → Type 0
AllBelow b [] = Unit
AllBelow b (v ∷ vs) = (v < b) × AllBelow b vs

abbrev pub AllLong : ℕ → List (List ℕ) → Type 0
AllLong n [] = Unit
AllLong n (v ∷ vs) = (length v ≡ n) × AllLong n vs

take-part : (n : ℕ) (xs ys : List ℕ) → length xs ≡ n → take n (xs ++ ys) ≡ xs
take-part n xs ys e = subst (λ n. take n (xs ++ ys) ≡ xs) e (take-append xs ys)

drop-part : (n : ℕ) (xs ys : List ℕ) → length xs ≡ n → drop n (xs ++ ys) ≡ ys
drop-part n xs ys e = subst (λ n. drop n (xs ++ ys) ≡ ys) e (drop-append xs ys)

drop-nil : (n : ℕ) → drop {A = ℕ} n [] ≡ []
drop-nil zero = refl
drop-nil (suc n) = refl

drop-drop : (k n : ℕ) (bs : List ℕ) → drop (k + n) bs ≡ drop n (drop k bs)
drop-drop zero n bs = ap (λ m. drop m bs) {x = 0 + n} {y = n} (omega arith)
drop-drop (suc k) n [] =
    ap (λ m. drop {A = ℕ} m []) {x = suc k + n} {y = suc (k + n)} (omega arith) ∙ sym (drop-nil n)
drop-drop (suc k) n (b ∷ bs) =
    ap (λ m. drop m (b ∷ bs)) {x = suc k + n} {y = suc (k + n)} (omega arith) ∙ drop-drop k n bs

-- The field after one that is at offset `k` and has `n` bytes.
past : (k n : ℕ) (bs xs ys : List ℕ) → drop k bs ≡ xs ++ ys → length xs ≡ n → drop (k + n) bs ≡ ys
past k n bs xs ys e l = drop-drop k n bs ∙ ap (drop n) e ∙ drop-part n xs ys l

length-words_of : (vs : List ℕ) → length (words_of vs) ≡ length vs * 8
length-words_of [] = omega arith
length-words_of (v ∷ vs) =
    omega
      (arith, length-append (bytes_of 8 v) (words_of vs), length-bytes_of 8 v, length-words_of vs)

words-words_of :
    (n : ℕ) (vs rest : List ℕ)
    → length vs ≡ n
    → AllBelow (2 ^ 64) vs
    → words 8 n (words_of vs ++ rest) ≡ vs
unfolding words
words-words_of zero [] rest l b = refl
words-words_of zero (v ∷ vs) rest l b = absurd (omega arith)
words-words_of (suc n) [] rest l b = absurd (omega arith)
words-words_of (suc n) (v ∷ vs) rest l b =
    ap₂ (λ x xs. x ∷ xs)
      (ap word (
          ap (take 8) (append_assoc (bytes_of 8 v) (words_of vs) rest)
          ∙ take-part 8 (bytes_of 8 v) (words_of vs ++ rest) (length-bytes_of 8 v))
        ∙ word-bytes_of 8 v b.0)
      (ap (words 8 n) (
          ap (drop 8) (append_assoc (bytes_of 8 v) (words_of vs) rest)
          ∙ drop-part 8 (bytes_of 8 v) (words_of vs ++ rest) (length-bytes_of 8 v))
        ∙ words-words_of n vs rest (omega arith) b.1)

words-bytes : (n : ℕ) (bs rest : List ℕ) → length bs ≡ n → words 1 n (bs ++ rest) ≡ bs
unfolding words word
words-bytes zero [] rest l = refl
words-bytes zero (v ∷ vs) rest l = absurd (omega arith)
words-bytes (suc n) [] rest l = absurd (omega arith)
words-bytes (suc n) (b ∷ bs) rest l =
    ap₂ (λ x xs. x ∷ xs) (omega arith) (words-bytes n bs rest (omega arith))

fields-concat :
    (n : ℕ) (vs : List (List ℕ)) (rest : List ℕ)
    → length vs ≡ n
    → AllLong 64 vs
    → fields 64 n (concat vs ++ rest) ≡ vs
unfolding fields
fields-concat zero [] rest l b = refl
fields-concat zero (v ∷ vs) rest l b = absurd (omega arith)
fields-concat (suc n) [] rest l b = absurd (omega arith)
fields-concat (suc n) (v ∷ vs) rest l b =
    ap₂ (λ x xs. x ∷ xs)
      (ap (take 64) (append_assoc v (concat vs) rest) ∙ take-part 64 v (concat vs ++ rest) b.0)
      (ap (fields 64 n)
          (ap (drop 64) (append_assoc v (concat vs) rest) ∙ drop-part 64 v (concat vs ++ rest) b.0)
        ∙ fields-concat n vs rest (omega arith) b.1)

length-concat : (vs : List (List ℕ)) → AllLong 64 vs → length (concat vs) ≡ length vs * 64
length-concat [] b = omega arith
length-concat (v ∷ vs) b = omega (arith, length-append v (concat vs), b.0, length-concat vs b.1)

-- The struct's arrays at their lengths and its fields at their widths.
pub record Shaped (r : InstrV2) : Type 0 where
  pub ip_fits : r.ip < 2 ^ 64
  pub destination_registers_length : length r.destination_registers ≡ 2
  pub source_registers_length : length r.source_registers ≡ 4
  pub destination_memory_length : length r.destination_memory ≡ 2
  pub destination_memory_fits : AllBelow (2 ^ 64) r.destination_memory
  pub source_memory_length : length r.source_memory ≡ 4
  pub source_memory_fits : AllBelow (2 ^ 64) r.source_memory
  pub destination_memory_pa_length : length r.destination_memory_pa ≡ 2
  pub destination_memory_pa_fits : AllBelow (2 ^ 64) r.destination_memory_pa
  pub source_memory_pa_length : length r.source_memory_pa ≡ 4
  pub source_memory_pa_fits : AllBelow (2 ^ 64) r.source_memory_pa
  pub source_memory_size_length : length r.source_memory_size ≡ 4
  pub destination_memory_size_length : length r.destination_memory_size ≡ 2
  pub reserved_length : length r.reserved ≡ 8
  pub source_memory_value_length : length r.source_memory_value ≡ 4
  pub source_memory_value_long : AllLong 64 r.source_memory_value
  pub destination_memory_value_length : length r.destination_memory_value ≡ 2
  pub destination_memory_value_long : AllLong 64 r.destination_memory_value

-- The words at an offset.
words-at :
    (k n : ℕ) (bs vs rest : List ℕ)
    → drop k bs ≡ words_of vs ++ rest
    → length vs ≡ n
    → AllBelow (2 ^ 64) vs
    → words 8 n (drop k bs) ≡ vs
words-at k n bs vs rest e l b = ap (words 8 n) e ∙ words-words_of n vs rest l b

bytes-at :
    (k n : ℕ) (bs vs rest : List ℕ)
    → drop k bs ≡ vs ++ rest
    → length vs ≡ n
    → words 1 n (drop k bs) ≡ vs
bytes-at k n bs vs rest e l = ap (words 1 n) e ∙ words-bytes n vs rest l

byte-at : (k b : ℕ) (bs rest : List ℕ) → drop k bs ≡ b ∷ rest → byte_at k bs ≡ b
unfolding byte_at word
byte-at k b bs rest e = ap (λ d. word (take 1 d)) e ∙ omega arith

module _ (r : InstrV2) (s : Shaped r) where
  abbrev values : List ℕ
  values = concat r.source_memory_value ++ concat r.destination_memory_value

  abbrev from_reserved : List ℕ
  from_reserved = r.reserved ++ values

  abbrev from_sizes : List ℕ
  from_sizes = r.destination_memory_size ++ (r.privilege ∷ r.instr_type ∷ from_reserved)

  abbrev from_source_sizes : List ℕ
  from_source_sizes = r.source_memory_size ++ from_sizes

  abbrev from_source_pa : List ℕ
  from_source_pa = words_of r.source_memory_pa ++ from_source_sizes

  abbrev from_pa : List ℕ
  from_pa = words_of r.destination_memory_pa ++ from_source_pa

  abbrev from_source_memory : List ℕ
  from_source_memory = words_of r.source_memory ++ from_pa

  abbrev from_memory : List ℕ
  from_memory = words_of r.destination_memory ++ from_source_memory

  abbrev from_source_registers : List ℕ
  from_source_registers = r.source_registers ++ from_memory

  abbrev from_registers : List ℕ
  from_registers = r.destination_registers ++ from_source_registers

  abbrev bs : List ℕ
  bs = encode_v2 r

  at_8 : drop 8 bs ≡ r.is_branch ∷ r.branch_taken ∷ from_registers
  unfolding encode_v2
  at_8 =
      drop-part 8 (bytes_of 8 r.ip) (r.is_branch ∷ r.branch_taken ∷ from_registers)
        (length-bytes_of 8 r.ip)

  at_9 : drop 9 bs ≡ r.branch_taken ∷ from_registers
  at_9 = past 8 1 bs (r.is_branch ∷ []) (r.branch_taken ∷ from_registers) at_8 refl

  at_10 : drop 10 bs ≡ from_registers
  at_10 = past 9 1 bs (r.branch_taken ∷ []) from_registers at_9 refl

  at_12 : drop 12 bs ≡ from_source_registers
  at_12 =
      past 10 2 bs r.destination_registers from_source_registers at_10
        s.destination_registers_length

  at_16 : drop 16 bs ≡ from_memory
  at_16 = past 12 4 bs r.source_registers from_memory at_12 s.source_registers_length

  words_long : (n : ℕ) (vs : List ℕ) → length vs ≡ n → length (words_of vs) ≡ n * 8
  words_long n vs e = length-words_of vs ∙ ap (λ m. m * 8) e

  at_32 : drop 32 bs ≡ from_source_memory
  at_32 =
      past 16 16 bs (words_of r.destination_memory) from_source_memory at_16
        (words_long 2 r.destination_memory s.destination_memory_length)

  at_64 : drop 64 bs ≡ from_pa
  at_64 =
      past 32 32 bs (words_of r.source_memory) from_pa at_32
        (words_long 4 r.source_memory s.source_memory_length)

  at_80 : drop 80 bs ≡ from_source_pa
  at_80 =
      past 64 16 bs (words_of r.destination_memory_pa) from_source_pa at_64
        (words_long 2 r.destination_memory_pa s.destination_memory_pa_length)

  at_112 : drop 112 bs ≡ from_source_sizes
  at_112 =
      past 80 32 bs (words_of r.source_memory_pa) from_source_sizes at_80
        (words_long 4 r.source_memory_pa s.source_memory_pa_length)

  at_116 : drop 116 bs ≡ from_sizes
  at_116 = past 112 4 bs r.source_memory_size from_sizes at_112 s.source_memory_size_length

  at_118 : drop 118 bs ≡ r.privilege ∷ r.instr_type ∷ from_reserved
  at_118 =
      past 116 2 bs r.destination_memory_size (r.privilege ∷ r.instr_type ∷ from_reserved) at_116
        s.destination_memory_size_length

  at_119 : drop 119 bs ≡ r.instr_type ∷ from_reserved
  at_119 = past 118 1 bs (r.privilege ∷ []) (r.instr_type ∷ from_reserved) at_118 refl

  at_120 : drop 120 bs ≡ from_reserved
  at_120 = past 119 1 bs (r.instr_type ∷ []) from_reserved at_119 refl

  at_128 : drop 128 bs ≡ values
  at_128 = past 120 8 bs r.reserved values at_120 s.reserved_length

  at_384 : drop 384 bs ≡ concat r.destination_memory_value
  at_384 =
      past 128 256 bs (concat r.source_memory_value) (concat r.destination_memory_value) at_128 (
        length-concat r.source_memory_value s.source_memory_value_long
        ∙ ap (λ m. m * 64) s.source_memory_value_length)

  base-back : decode_v1 bs ≡ r.base
  unfolding decode_v1 encode_v2
  base-back = λ i. record {
    ip =
        (ap word (
              take-part 8 (bytes_of 8 r.ip) (r.is_branch ∷ r.branch_taken ∷ from_registers)
                (length-bytes_of 8 r.ip))
            ∙ word-bytes_of 8 r.ip s.ip_fits)
          i;
    is_branch = byte-at 8 r.is_branch bs (r.branch_taken ∷ from_registers) at_8 i;
    branch_taken = byte-at 9 r.branch_taken bs from_registers at_9 i;
    destination_registers =
        bytes-at 10 2 bs r.destination_registers from_source_registers at_10
          s.destination_registers_length i;
    source_registers =
        bytes-at 12 4 bs r.source_registers from_memory at_12 s.source_registers_length i;
    destination_memory =
        words-at 16 2 bs r.destination_memory from_source_memory at_16 s.destination_memory_length
          s.destination_memory_fits i;
    source_memory =
        words-at 32 4 bs r.source_memory from_pa at_32 s.source_memory_length s.source_memory_fits
          i;
  }

  -- A record that the converter writes as 512 bytes is the record that trace_sanity_check decodes from
  -- them, if its arrays have the struct's lengths and its 64-bit fields fit.
  pub decode_v2-encode_v2 : decode_v2 (encode_v2 r) ≡ r
  unfolding decode_v2
  decode_v2-encode_v2 = λ i. record {
    base = base-back i;
    destination_memory_pa =
        words-at 64 2 bs r.destination_memory_pa from_source_pa at_64 s.destination_memory_pa_length
          s.destination_memory_pa_fits i;
    source_memory_pa =
        words-at 80 4 bs r.source_memory_pa from_source_sizes at_80 s.source_memory_pa_length
          s.source_memory_pa_fits i;
    source_memory_size =
        bytes-at 112 4 bs r.source_memory_size from_sizes at_112 s.source_memory_size_length i;
    destination_memory_size =
        bytes-at 116 2 bs r.destination_memory_size (r.privilege ∷ r.instr_type ∷ from_reserved)
          at_116 s.destination_memory_size_length i;
    privilege = byte-at 118 r.privilege bs (r.instr_type ∷ from_reserved) at_118 i;
    instr_type = byte-at 119 r.instr_type bs from_reserved at_119 i;
    reserved = bytes-at 120 8 bs r.reserved values at_120 s.reserved_length i;
    source_memory_value =
        (ap (fields 64 4) at_128
            ∙ fields-concat 4 r.source_memory_value (concat r.destination_memory_value)
                s.source_memory_value_length s.source_memory_value_long)
          i;
    destination_memory_value =
        (ap (fields 64 2) (at_384 ∙ sym (append-nil (concat r.destination_memory_value)))
            ∙ fields-concat 2 r.destination_memory_value [] s.destination_memory_value_length
                s.destination_memory_value_long)
          i;
  }
