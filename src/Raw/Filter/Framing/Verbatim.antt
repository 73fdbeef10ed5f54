-- ===== src/Raw/Filter/Framing/Verbatim.antt =====
-- The filter finds the extent of each record that the plugin writes, and keeps its bytes.
use champsim_infra.Prelude.{
  ℕ, ◌-◌, ◌<◌, ◌≤◌, ◌≡◌, refl, sym, ap, ap₂, subst, ◌∙◌, ◌&&◌, ◌||◌, not, Bool, true, false,
  Bool-cases, inl, inr, some, List, [], ◌∷◌, ◌++◌, append_assoc, append-nil, length, length-take,
  take, ltb, ◌==◌, get_or, if◌then◌else◌, arith,
}
use champsim_infra.Trace.{word, bytes_of}
use champsim_infra.Raw.Bytes.{read_exact, read_exact-append, length-bytes_of, word-bytes_of}
use champsim_infra.Raw.Record.{
  encode_header, hdr_privilege, hdr_instr_size, hdr_num_mem_ops, MemOp, Insn, has_value,
  value_bytes,
}
use champsim_infra.Raw.Plugin.Serial.{mem_op_bytes, mem_ops_bytes, insn_bytes}
use champsim_infra.Raw.Convert.Parse.RoundTrip.{FitsOp, FitOps, Fits, spread, fields_back}
use champsim_infra.Raw.Filter.Framing.{
  Echo, Framed, cut, refused, echoed, framed, after_read, echo, mlen, echo_value, echo_mem_op,
  echo_mem_ops, with_echo, with_insn, with_ip, with_head, next_record,
}

abbrev pub insn_is_hlt : Insn → Bool
insn_is_hlt i = length i.bytes == 1 && get_or i.bytes 0 0 == 0xF4

abbrev mhdr : Bool → MemOp → List ℕ
mhdr has_pa m =
    bytes_of 8 m.address ++ ((if has_pa then bytes_of 8 m.paddr else []) ++ (m.size ∷ m.flags ∷ []))

abbrev value_part : MemOp → List ℕ
value_part m = if has_value m.flags then take (value_bytes m.size) m.value else []

mhdr-value : (has_pa : Bool) (m : MemOp) → mhdr has_pa m ++ value_part m ≡ mem_op_bytes has_pa m
unfolding bytes_of mem_op_bytes
mhdr-value true m = refl
mhdr-value false m = refl

length-mhdr : (has_pa : Bool) (m : MemOp) → length (mhdr has_pa m) ≡ (if has_pa then 18 else 10)
unfolding bytes_of
length-mhdr true m = refl
length-mhdr false m = refl

mhdr-size :
    (has_pa : Bool) (m : MemOp)
    → get_or (mhdr has_pa m) ((if has_pa then 18 else 10) - 2) 0 ≡ m.size
unfolding bytes_of
mhdr-size true m = refl
mhdr-size false m = refl

mhdr-flags :
    (has_pa : Bool) (m : MemOp)
    → get_or (mhdr has_pa m) ((if has_pa then 18 else 10) - 1) 0 ≡ m.flags
unfolding bytes_of
mhdr-flags true m = refl
mhdr-flags false m = refl

module _ (has_pa has_values : Bool) where
  -- `echo_value` with the size and the flags in hand.
  abbrev value_echo : List ℕ → List ℕ → ℕ → ℕ → Echo
  value_echo bytes rest size flags =
      if has_value flags && not has_values
      then Echo.refused
      else if has_value flags
      then after_read bytes (echo (read_exact (value_bytes size) rest))
      else echoed bytes rest

  value_echo-value :
      (m : MemOp) (bytes rest : List ℕ)
      → FitsOp has_values m
      → value_echo bytes (value_part m ++ rest) m.size m.flags ≡ echoed (bytes ++ value_part m) rest
  value_echo-value m bytes rest f =
      ap
        (λ b.
          if b
          then Echo.refused
          else if has_value m.flags
          then after_read bytes (echo (read_exact (value_bytes m.size) (value_part m ++ rest)))
          else echoed bytes (value_part m ++ rest))
        f.announced
      ∙ elim (Bool-cases (has_value m.flags)) [
        | inl e ↦ subst Same (sym e) (
            ap (λ o. after_read bytes (echo o))
              (read_exact-append (value_bytes m.size) (take (value_bytes m.size) m.value) rest
                (ground (arith, length-take (value_bytes m.size) m.value, f.array))))
        | inr e ↦ subst Same (sym e) (ap (λ bs. echoed bs rest) (sym (append-nil bytes)))
      ]
    where
      Same : Bool → Type 0
      Same b =
          (if b
            then after_read bytes (
                echo (
                  read_exact (value_bytes m.size)
                    ((if b then take (value_bytes m.size) m.value else []) ++ rest)))
            else echoed bytes ((if b then take (value_bytes m.size) m.value else []) ++ rest))
          ≡ echoed (bytes ++ (if b then take (value_bytes m.size) m.value else [])) rest

  echo_mem_op-bytes :
      (m : MemOp) (rest : List ℕ)
      → FitsOp has_values m
      → echo_mem_op has_pa has_values (mem_op_bytes has_pa m ++ rest)
        ≡ echoed (mem_op_bytes has_pa m) rest
  unfolding echo_mem_op
  echo_mem_op-bytes m rest f =
      let head : List ℕ = mhdr has_pa m in
      ap (echo_mem_op has_pa has_values)
        (ap (λ bs. bs ++ rest) (sym (mhdr-value has_pa m)) ∙ append_assoc head (value_part m) rest)
      ∙ ap (echo_value has_pa has_values) (
          read_exact-append (mlen has_pa has_values) head (value_part m ++ rest)
            (length-mhdr has_pa m))
      ∙ ap₂ (value_echo head (value_part m ++ rest)) (mhdr-size has_pa m) (mhdr-flags has_pa m)
      ∙ value_echo-value m head rest f
      ∙ ap (λ bs. echoed bs rest) (mhdr-value has_pa m)

  echo_mem_ops-bytes :
      (ms : List MemOp) (rest : List ℕ)
      → FitOps has_values ms
      → echo_mem_ops has_pa has_values (length ms) (mem_ops_bytes has_pa ms ++ rest)
        ≡ echoed (mem_ops_bytes has_pa ms) rest
  unfolding echo_mem_ops mem_ops_bytes
  echo_mem_ops-bytes [] rest f = refl
  echo_mem_ops-bytes (m ∷ ms) rest f =
      ap (echo_mem_ops has_pa has_values (length (m ∷ ms)))
        (append_assoc (mem_op_bytes has_pa m) (mem_ops_bytes has_pa ms) rest)
      ∙ ap then_ops (echo_mem_op-bytes m (mem_ops_bytes has_pa ms ++ rest) f.0)
      ∙ ap (after_read (mem_op_bytes has_pa m)) (echo_mem_ops-bytes ms rest f.1)
    where
      then_ops : Echo → Echo
      then_ops e = elim e [
        | cut ↦ Echo.cut
        | refused ↦ Echo.refused
        | echoed bytes rest ↦ after_read bytes (echo_mem_ops has_pa has_values (length ms) rest)
      ]

  good_head :
      (header rest : List ℕ)
      → 0 < hdr_instr_size (word header)
      → hdr_instr_size (word header) ≤ 15
      → hdr_num_mem_ops (word header) ≤ 7
      → with_head has_pa has_values (some (header, rest))
        ≡ with_ip has_pa has_values header (read_exact 8 rest)
  good_head header rest some_bytes few few_ops =
      let size : ℕ = hdr_instr_size (word header) in
      let first : (size == 0 || ltb 15 size) ≡ false = ground (arith) in
      let second : ltb 7 (hdr_num_mem_ops (word header)) ≡ false = ground (arith) in
      let good : Framed = with_ip has_pa has_values header (read_exact 8 rest) in
      ap
        (λ b.
          if b
          then Framed.cut
          else if ltb 7 (hdr_num_mem_ops (word header))
          then Framed.cut
          else good)
        first
      ∙ ap (λ b. if b then Framed.cut else good) second

  -- The filter takes a record of the plugin as one record: its bytes as they are, its privilege, and
  -- whether it is a HLT.
  pub next_record-insn_bytes :
      (vcpu_id : ℕ) (i : Insn) (rest : List ℕ)
      → Fits has_values i
      → next_record has_pa has_values (insn_bytes has_pa vcpu_id i ++ rest)
        ≡ framed
            (record {
              priv = i.privilege;
              is_hlt = insn_is_hlt i;
              bytes = insn_bytes has_pa vcpu_id i;
            })
            rest
  unfolding next_record insn_bytes
  next_record-insn_bytes vcpu_id i rest f =
      let header : ℕ = encode_header vcpu_id i.privilege (length i.bytes) (length i.mem_ops) in
      let head : List ℕ = bytes_of 4 header in
      let ip : List ℕ = bytes_of 8 i.ip in
      let ops : List ℕ = mem_ops_bytes has_pa i.mem_ops in
      let (priv, isz, nmem, small) =
        fields_back vcpu_id i.privilege (length i.bytes) (length i.mem_ops) f.privilege_fits
          (omega (arith, f.few_bytes)) (omega (arith, f.few_ops)) in
      let back : word head ≡ header = word-bytes_of 4 header small in
      let isz' : hdr_instr_size (word head) ≡ length i.bytes =
        ap (λ h. hdr_instr_size h) back ∙ isz in
      let nmem' : hdr_num_mem_ops (word head) ≡ length i.mem_ops =
        ap (λ h. hdr_num_mem_ops h) back ∙ nmem in
      let priv' : hdr_privilege (word head) ≡ i.privilege = ap (λ h. hdr_privilege h) back ∙ priv in
      ap (next_record has_pa has_values) (spread head ip i.bytes ops rest)
      ∙ ap (with_head has_pa has_values)
          (read_exact-append 4 head (ip ++ (i.bytes ++ (ops ++ rest))) (length-bytes_of 4 header))
      ∙ good_head head (ip ++ (i.bytes ++ (ops ++ rest))) (omega (arith, isz', f.some_bytes))
          (omega (arith, isz', f.few_bytes)) (omega (arith, nmem', f.few_ops))
      ∙ ap (with_ip has_pa has_values head)
          (read_exact-append 8 ip (i.bytes ++ (ops ++ rest)) (length-bytes_of 8 i.ip))
      ∙ ap (λ n. with_insn has_pa has_values head ip (read_exact n (i.bytes ++ (ops ++ rest)))) isz'
      ∙ ap (with_insn has_pa has_values head ip)
          (read_exact-append (length i.bytes) i.bytes (ops ++ rest) refl)
      ∙ ap
          (λ n.
            with_echo has_pa has_values (word head) i.bytes (
              after_read (head ++ (ip ++ i.bytes))
                (echo_mem_ops has_pa has_values n (ops ++ rest))))
          nmem'
      ∙ ap
          (λ e.
            with_echo has_pa has_values (word head) i.bytes
              (after_read (head ++ (ip ++ i.bytes)) e))
          (echo_mem_ops-bytes i.mem_ops rest f.ops_fit)
      ∙ (λ j.
          framed
            (record {
              priv = priv' j;
              is_hlt = isz' j == 1 && get_or i.bytes 0 0 == 0xF4;
              bytes = joined head ip i.bytes ops j;
            })
            rest)
    where
      joined : (a b c d : List ℕ) → (a ++ (b ++ c)) ++ d ≡ a ++ (b ++ (c ++ d))
      joined a b c d = append_assoc a (b ++ c) d ∙ ap (λ z. a ++ z) (append_assoc b c d)
