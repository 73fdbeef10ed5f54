-- ===== src/Trace.antt =====
-- The trace records of tools/trace_sanity_check/trace_sanity_check.cpp and how they lie in the file:
-- little-endian fields at the offsets of the packed (v1, v2) or naturally aligned (cloudsuite) struct.
use champsim_infra.Prelude.{ℕ, zero, suc, ◌+◌, ◌*◌, ◌/◌, ◌%◌, List, [], ◌∷◌, take, drop}

-- `input_instr_v1`; `input_instr_v2` begins with the same fields. The arrays are lists.
pub record Instr : Type 0 where
  pub ip : ℕ
  pub is_branch : ℕ
  pub branch_taken : ℕ
  pub destination_registers : List ℕ
  pub source_registers : List ℕ
  pub destination_memory : List ℕ
  pub source_memory : List ℕ

-- `input_instr_v2`.
pub record InstrV2 : Type 0 where
  pub base : Instr
  pub open base use *
  pub destination_memory_pa : List ℕ
  pub source_memory_pa : List ℕ
  pub source_memory_size : List ℕ
  pub destination_memory_size : List ℕ
  pub privilege : ℕ
  pub instr_type : ℕ
  pub reserved : List ℕ
  pub source_memory_value : List (List ℕ)
  pub destination_memory_value : List (List ℕ)

-- `cloudsuite_instr`.
pub record InstrCs : Type 0 where
  pub base : Instr
  pub open base use *
  pub asid : List ℕ

-- The number in little-endian bytes.
unfoldable pub word : List ℕ → ℕ
word [] = 0
word (b ∷ bs) = b + 256 * word bs

-- A number as `n` little-endian bytes, as memcpy stores it.
unfoldable pub bytes_of : ℕ → ℕ → List ℕ
bytes_of zero v = []
bytes_of (suc n) v = v % 256 ∷ bytes_of n (v / 256)

-- `n` fields of `size` bytes each.
unfoldable pub fields : ℕ → ℕ → List ℕ → List (List ℕ)
fields size zero bs = []
fields size (suc n) bs = take size bs ∷ fields size n (drop size bs)

unfoldable pub words : ℕ → ℕ → List ℕ → List ℕ
unfolding word
words size zero bs = []
words size (suc n) bs = word (take size bs) ∷ words size n (drop size bs)

-- The byte at an offset.
unfoldable pub byte_at : ℕ → List ℕ → ℕ
unfolding word
byte_at off bs = word (take 1 (drop off bs))

abbrev pub size_v1 : ℕ
size_v1 = 64

abbrev pub size_v2 : ℕ
size_v2 = 512

abbrev pub size_cs : ℕ
size_cs = 96

unfoldable pub decode_v1 : List ℕ → Instr
unfolding words byte_at
decode_v1 bs = record {
  ip = word (take 8 bs);
  is_branch = byte_at 8 bs;
  branch_taken = byte_at 9 bs;
  destination_registers = words 1 2 (drop 10 bs);
  source_registers = words 1 4 (drop 12 bs);
  destination_memory = words 8 2 (drop 16 bs);
  source_memory = words 8 4 (drop 32 bs);
}

unfoldable pub decode_v2 : List ℕ → InstrV2
unfolding decode_v1 fields
decode_v2 bs = record {
  base = decode_v1 bs;
  destination_memory_pa = words 8 2 (drop 64 bs);
  source_memory_pa = words 8 4 (drop 80 bs);
  source_memory_size = words 1 4 (drop 112 bs);
  destination_memory_size = words 1 2 (drop 116 bs);
  privilege = byte_at 118 bs;
  instr_type = byte_at 119 bs;
  reserved = words 1 8 (drop 120 bs);
  source_memory_value = fields 64 4 (drop 128 bs);
  destination_memory_value = fields 64 2 (drop 384 bs);
}

unfoldable pub decode_cs : List ℕ → InstrCs
unfolding words byte_at
decode_cs bs = record {
  base = record {
    ip = word (take 8 bs);
    is_branch = byte_at 8 bs;
    branch_taken = byte_at 9 bs;
    destination_registers = words 1 4 (drop 10 bs);
    source_registers = words 1 4 (drop 14 bs);
    destination_memory = words 8 4 (drop 24 bs);
    source_memory = words 8 4 (drop 56 bs);
  };
  asid = words 1 2 (drop 88 bs);
}
