-- ===== src/Raw/Record.antt =====
-- The raw record of champsim_tracer.c, raw2champsim.c and trace_filter.c: an instruction with its
-- bytes and its memory operands.
use champsim_infra.Prelude.{ℕ, ◌+◌, ◌*◌, ◌/◌, ◌%◌, ◌^◌, Bool, List, leb, ◌==◌, if◌then◌else◌}

abbrev pub trace_format_magic : ℕ
trace_format_magic = 0x46545343

abbrev pub max_insn_size : ℕ
max_insn_size = 15

abbrev pub max_mem_ops : ℕ
max_mem_ops = 7

abbrev pub max_value_size : ℕ
max_value_size = 64

-- The fields of the header word. They do not overlap, so `|` is a sum.
abbrev pub encode_header : ℕ → ℕ → ℕ → ℕ → ℕ
encode_header vcpu_id privilege instr_size num_mem_ops =
    vcpu_id % 16 + privilege % 2 * 16 + instr_size % 16 * 32 + num_mem_ops % 8 * 512

abbrev pub hdr_privilege : ℕ → ℕ
hdr_privilege h = h / 16 % 2

abbrev pub hdr_instr_size : ℕ → ℕ
hdr_instr_size h = h / 32 % 16

abbrev pub hdr_num_mem_ops : ℕ → ℕ
hdr_num_mem_ops h = h / 512 % 8

-- A memory operand, with the flags byte as it stands in the record.
pub record MemOp : Type 0 where
  pub address : ℕ
  pub paddr : ℕ
  pub size : ℕ
  pub flags : ℕ
  pub value : List ℕ

abbrev bit : ℕ → ℕ → Bool
bit i flags = flags / 2 ^ i % 2 == 1

abbrev pub is_write : MemOp → Bool
is_write m = bit 0 m.flags

abbrev pub has_value : ℕ → Bool
has_value flags = bit 1 flags

abbrev pub pa_valid : MemOp → Bool
pa_valid m = bit 2 m.flags

abbrev pub pa_is_io : MemOp → Bool
pa_is_io m = bit 3 m.flags

-- The number of bytes of the value of an operand of some size.
abbrev pub value_bytes : ℕ → ℕ
value_bytes size = if leb size max_value_size then size else max_value_size

pub record Insn : Type 0 where
  pub privilege : ℕ
  pub ip : ℕ
  pub bytes : List ℕ
  pub mem_ops : List MemOp
