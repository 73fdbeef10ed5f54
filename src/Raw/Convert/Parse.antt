-- ===== src/Raw/Convert/Parse.antt =====
-- Reading the file header and a record, in `main`.
pub mod RoundTrip
pub mod FileHeader
use champsim_infra.Prelude.{
  ℕ, zero, suc, ◌+◌, ◌*◌, ◌/◌, ◌%◌, ◌&&◌, ◌||◌, not, Bool, true, false, Option, none, some, List,
  [], ◌∷◌, ltb, leb, ◌==◌, get_or, if◌then◌else◌,
}
use champsim_infra.Raw.Bytes.{Reads, pure, fail, continued, ◌>>=◌, read_exact, read_number}
use champsim_infra.Raw.Record.{
  trace_format_magic, max_insn_size, max_mem_ops, hdr_privilege, hdr_instr_size, hdr_num_mem_ops,
  MemOp, Insn, has_value, value_bytes,
}

pub record Header : Type 0 where
  pub arch : ℕ
  pub has_pa : Bool
  pub has_vals : Bool

-- What the header says; each failure is a return of 1.
abbrev pub header_of : ℕ → ℕ → List ℕ → Reads Header
header_of magic version tail =
    if not (magic == trace_format_magic)
    then fail
    else if not (version == 2 || version == 3)
    then fail
    else if version == 3
    then (if not (get_or tail 0 0 == 0 || get_or tail 0 0 == 1)
        then fail
        else pure (record {
          arch = get_or tail 0 0;
          has_pa = get_or tail 1 0 % 2 == 1;
          has_vals = get_or tail 1 0 / 2 % 2 == 1;
        }))
    else pure (record { arch = 0; has_pa = false; has_vals = true })

unfoldable pub read_header : Reads Header
unfolding read_exact read_number
read_header = do
  magic ← read_number 4
  version ← read_number 4
  vcpu_id ← read_number 4
  tail ← read_exact 4
  header_of magic version tail

module _ (h : Header) where
  -- The value of an operand that has one.
  abbrev pub read_value : ℕ → Reads (List ℕ)
  read_value size = if not h.has_vals then fail else read_exact (value_bytes size)

  -- A round of the loop over the operands, from its end to its beginning; each failure leaves it by
  -- `goto done`.
  abbrev pub read_value_of : ℕ → ℕ → ℕ → ℕ → Reads MemOp
  read_value_of addr paddr size flags = do
    value ← if has_value flags then read_value size else pure []
    pure (record { address = addr; paddr = paddr; size = size; flags = flags; value = value })

  abbrev pub read_flags : ℕ → ℕ → ℕ → Reads MemOp
  read_flags addr paddr size = read_number 1 >>= read_value_of addr paddr size

  abbrev pub read_size : ℕ → ℕ → Reads MemOp
  read_size addr paddr = read_number 1 >>= read_flags addr paddr

  abbrev pub read_paddr : ℕ → Reads MemOp
  read_paddr addr = (if h.has_pa then read_number 8 else pure 0) >>= read_size addr

  unfoldable pub read_mem_op : Reads MemOp
  unfolding read_exact read_number
  read_mem_op = read_number 8 >>= read_paddr

  unfoldable pub read_mem_ops : ℕ → Reads (List MemOp)
  unfolding read_mem_op
  read_mem_ops zero = pure []
  read_mem_ops (suc n) = read_mem_op >>= λ m. read_mem_ops n >>= λ ms. pure (m ∷ ms)

  -- The IP and the bytes of the instruction.
  unfoldable pub read_front : ℕ → Reads (ℕ × List ℕ)
  unfolding read_exact read_number
  read_front isz = read_number 8 >>= λ ip. read_exact isz >>= λ bytes. pure (ip, bytes)

  -- A round of the main loop up to the instruction's record: the end of the input; `broken`, a
  -- `break` with exit_status 1; `lost`, a `goto done` with exit_status 1; or an instruction and the
  -- rest of the stream.
  pub data Next : Type 0 where
    at_end broken lost : Next
    found : Insn → List ℕ → Next

  abbrev pub with_ops : ℕ → ℕ × List ℕ → Option (List MemOp × List ℕ) → Next
  with_ops priv front none = lost
  with_ops priv front (some (ops, bs)) =
      found (record { privilege = priv; ip = front.0; bytes = front.1; mem_ops = ops }) bs

  abbrev pub with_front : ℕ → Option ((ℕ × List ℕ) × List ℕ) → Next
  with_front header none = broken
  with_front header (some (front, bs)) =
      with_ops (hdr_privilege header) front (read_mem_ops (hdr_num_mem_ops header) bs)

  abbrev pub with_header : Option (ℕ × List ℕ) → Next
  with_header none = at_end
  with_header (some (header, bs)) =
      if hdr_instr_size header == 0 || ltb max_insn_size (hdr_instr_size header)
      then broken
      else if ltb max_mem_ops (hdr_num_mem_ops header)
      then broken
      else with_front header (read_front (hdr_instr_size header) bs)

  unfoldable pub next_insn : List ℕ → Next
  unfolding read_number read_front read_mem_ops
  next_insn bs = with_header (read_number 4 bs)
