-- ===== src/Raw/Filter/Framing.antt =====
-- Reading a record in `main` of trace_filter.c: only its extent is found, and its bytes are kept as
-- they are.
pub mod Verbatim
use champsim_infra.Prelude.{
  ℕ, zero, suc, ◌-◌, ◌&&◌, ◌||◌, not, Bool, true, false, Option, none, some, List, [], ◌∷◌, ◌++◌,
  ltb, ◌==◌, get_or, if◌then◌else◌,
}
use champsim_infra.Trace.{word}
use champsim_infra.Raw.Bytes.{read_exact}
use champsim_infra.Raw.Record.{
  max_insn_size, max_mem_ops, hdr_privilege, hdr_instr_size, hdr_num_mem_ops, has_value,
  value_bytes,
}

-- A record with its `rec_buf`.
pub record Rec : Type 0 where
  pub priv : ℕ
  pub is_hlt : Bool
  pub bytes : List ℕ

-- `cut` is a `break`, `refused` is exit(1); else the bytes that were read and the rest.
pub data Echo : Type 0 where
  cut refused : Echo
  echoed : List ℕ → List ℕ → Echo

pub data Framed : Type 0 where
  cut refused : Framed
  framed : Rec → List ℕ → Framed

-- The bytes after some that were already read.
abbrev pub after_read : List ℕ → Echo → Echo
after_read bytes Echo.cut = Echo.cut
after_read bytes Echo.refused = Echo.refused
after_read bytes (echoed more rest) = echoed (bytes ++ more) rest

abbrev pub echo : Option (List ℕ × List ℕ) → Echo
echo none = Echo.cut
echo (some (bytes, rest)) = echoed bytes rest

module _ (has_pa has_values : Bool) where
  abbrev pub mlen : ℕ
  mlen = if has_pa then 18 else 10

  abbrev pub echo_value : Option (List ℕ × List ℕ) → Echo
  echo_value none = Echo.cut
  echo_value (some (mhdr, rest)) =
      let msize = get_or mhdr (mlen - 2) 0 in
      let mflags = get_or mhdr (mlen - 1) 0 in
      if has_value mflags && not has_values
      then Echo.refused
      else if has_value mflags
      then after_read mhdr (echo (read_exact (value_bytes msize) rest))
      else echoed mhdr rest

  unfoldable pub echo_mem_op : List ℕ → Echo
  unfolding read_exact
  echo_mem_op bs = echo_value (read_exact mlen bs)

  unfoldable pub echo_mem_ops : ℕ → List ℕ → Echo
  unfolding echo_mem_op
  echo_mem_ops zero bs = echoed [] bs
  echo_mem_ops (suc n) bs = elim (echo_mem_op bs) [
    | cut ↦ Echo.cut
    | refused ↦ Echo.refused
    | echoed bytes rest ↦ after_read bytes (echo_mem_ops n rest)
  ]

  abbrev pub with_echo : ℕ → List ℕ → Echo → Framed
  with_echo header insn Echo.cut = Framed.cut
  with_echo header insn Echo.refused = Framed.refused
  with_echo header insn (echoed bytes rest) =
      framed
        (record {
          priv = hdr_privilege header;
          is_hlt = hdr_instr_size header == 1 && get_or insn 0 0 == 0xF4;
          bytes = bytes;
        })
        rest

  abbrev pub with_insn : List ℕ → List ℕ → Option (List ℕ × List ℕ) → Framed
  with_insn header ip none = Framed.cut
  with_insn header ip (some (insn, rest)) =
      with_echo (word header) insn
        (after_read (header ++ (ip ++ insn)) (echo_mem_ops (hdr_num_mem_ops (word header)) rest))

  abbrev pub with_ip : List ℕ → Option (List ℕ × List ℕ) → Framed
  with_ip header none = Framed.cut
  with_ip header (some (ip, rest)) =
      with_insn header ip (read_exact (hdr_instr_size (word header)) rest)

  abbrev pub with_head : Option (List ℕ × List ℕ) → Framed
  with_head none = Framed.cut
  with_head (some (header, rest)) =
      if hdr_instr_size (word header) == 0 || ltb max_insn_size (hdr_instr_size (word header))
      then Framed.cut
      else if ltb max_mem_ops (hdr_num_mem_ops (word header))
      then Framed.cut
      else with_ip header (read_exact 8 rest)

  unfoldable pub next_record : List ℕ → Framed
  unfolding read_exact word echo_mem_ops
  next_record bs = with_head (read_exact 4 bs)
