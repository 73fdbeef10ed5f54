-- ===== src/Raw/Convert/Build.antt =====
-- Building the v2 record of an instruction, and the direction of a branch.
use champsim_infra.Prelude.{
  ℕ, ◌+◌, ◌-◌, ◌%◌, ◌^◌, ◌&&◌, ◌||◌, not, Bool, Option, none, some, List, [], ◌∷◌, ◌++◌, length,
  drop, replicate, set, get_or, ltb, ◌==◌, inc, if◌then◌else◌,
}
use champsim_infra.Trace.{InstrV2}
use champsim_infra.Raw.Record.{MemOp, Insn, is_write, has_value, pa_valid, pa_is_io}

-- `decoded_regs_t` (decode.h): the lists are the first n_src and n_dst entries of the arrays, and
-- `branch_code` is its is_branch, 0 or a branch type plus 1.
pub record Decoded : Type 0 where
  pub ok : Bool
  pub branch_code : ℕ
  pub instr_type : ℕ
  pub src_regs : List ℕ
  pub dst_regs : List ℕ

pub record ConvertStats : Type 0 where
  pub total_insns : ℕ
  pub user_insns : ℕ
  pub kernel_insns : ℕ
  pub branch_insns : ℕ
  pub mem_insns : ℕ
  pub decode_failures : ℕ
  pub mem_overflow : ℕ
  pub type_int : ℕ
  pub type_fp : ℕ
  pub type_simd : ℕ

-- memset(&rec, 0, sizeof(rec)), with the IP and the privilege.
abbrev pub blank_record : ℕ → ℕ → InstrV2
blank_record ip priv = record {
  base = record {
    ip = ip;
    is_branch = 0;
    branch_taken = 0;
    destination_registers = replicate 2 0;
    source_registers = replicate 4 0;
    destination_memory = replicate 2 0;
    source_memory = replicate 4 0;
  };
  destination_memory_pa = replicate 2 0;
  source_memory_pa = replicate 4 0;
  source_memory_size = replicate 4 0;
  destination_memory_size = replicate 2 0;
  privilege = priv;
  instr_type = 0;
  reserved = replicate 8 0;
  source_memory_value = replicate 4 (replicate 64 0);
  destination_memory_value = replicate 2 (replicate 64 0);
}

-- memcpy over the first bytes.
abbrev pub overlay : List ℕ → List ℕ → List ℕ
overlay xs ys = xs ++ drop (length xs) ys

abbrev pub cs_branch_not_branch : ℕ
cs_branch_not_branch = 7

abbrev pub tracer_id_qemu : ℕ
tracer_id_qemu = 4

-- BRANCH_DIRECTION_IS_KNOWN_TAKEN.
abbrev pub direction_is_known_taken : ℕ → Bool
direction_is_known_taken bt = bt == 0 || bt == 1 || bt == 3 || bt == 4 || bt == 5

abbrev pub is_nonzero : ℕ → Bool
is_nonzero n = not (n == 0)

-- The record with the registers and the type that were decoded.
abbrev pub with_registers : Decoded → InstrV2 → InstrV2
with_registers d r =
    if d.ok
    then record r {
      base = record (r.base) {
        is_branch = if is_nonzero d.branch_code then 1 else 0;
        source_registers = overlay d.src_regs r.source_registers;
        destination_registers = overlay d.dst_regs r.destination_registers;
      };
      instr_type = d.instr_type;
    }
    else r

abbrev pub with_branch_type : Decoded → InstrV2 → InstrV2
with_branch_type d r = record r {
  reserved =
      (if d.ok && is_nonzero d.branch_code then d.branch_code - 1 else cs_branch_not_branch)
      ∷ 3
      ∷ tracer_id_qemu
      ∷ drop 3 r.reserved;
}

unfoldable pub count_decoded : Decoded → ConvertStats → ConvertStats
count_decoded d s =
    if d.ok
    then record s {
      branch_insns = if is_nonzero d.branch_code then inc s.branch_insns else s.branch_insns;
      type_fp = if d.instr_type == 1 then inc s.type_fp else s.type_fp;
      type_simd = if d.instr_type == 2 then inc s.type_simd else s.type_simd;
      type_int = if d.instr_type == 1 || d.instr_type == 2 then s.type_int else inc s.type_int;
    }
    else record s { decode_failures = inc s.decode_failures }

-- The record, the next slots for a read and for a write, and what `mem_overflow` grows by.
pub record Slots : Type 0 where
  pub rec : InstrV2
  pub src : ℕ
  pub dst : ℕ
  pub overflow : ℕ

abbrev value_over : MemOp → List ℕ → List ℕ
value_over m old = if has_value m.flags then overlay m.value old else old

abbrev paddr_over : MemOp → ℕ → ℕ
paddr_over m old = if pa_valid m && not (pa_is_io m) then m.paddr else old

abbrev pub put_write : MemOp → Slots → Slots
put_write m s =
    let r : InstrV2 = s.rec in
    if ltb s.dst 2
    then record s {
      rec = record r {
        base = record (r.base) { destination_memory = set r.destination_memory s.dst m.address };
        destination_memory_size = set r.destination_memory_size s.dst m.size;
        destination_memory_pa =
            set r.destination_memory_pa s.dst
              (paddr_over m (get_or r.destination_memory_pa s.dst 0));
        destination_memory_value =
            set r.destination_memory_value s.dst
              (value_over m (get_or r.destination_memory_value s.dst []));
      };
      dst = s.dst + 1;
    }
    else record s { overflow = inc s.overflow }

abbrev pub put_read : MemOp → Slots → Slots
put_read m s =
    let r : InstrV2 = s.rec in
    if ltb s.src 4
    then record s {
      rec = record r {
        base = record (r.base) { source_memory = set r.source_memory s.src m.address };
        source_memory_size = set r.source_memory_size s.src m.size;
        source_memory_pa =
            set r.source_memory_pa s.src (paddr_over m (get_or r.source_memory_pa s.src 0));
        source_memory_value =
            set r.source_memory_value s.src (value_over m (get_or r.source_memory_value s.src []));
      };
      src = s.src + 1;
    }
    else record s { overflow = inc s.overflow }

unfoldable pub put_mem_ops : List MemOp → Slots → Slots
put_mem_ops [] s = s
put_mem_ops (m ∷ ms) s = put_mem_ops ms (if is_write m then put_write m s else put_read m s)

-- The record of an instruction, with its slots.
unfoldable pub build : Decoded → Insn → Slots
unfolding put_mem_ops
build d i = put_mem_ops i.mem_ops (record {
  rec = with_branch_type d (with_registers d (blank_record i.ip i.privilege));
  src = 0;
  dst = 0;
  overflow = 0;
})

unfoldable pub count_insn : Decoded → Insn → Slots → ConvertStats → ConvertStats
unfolding count_decoded
count_insn d i slots s =
    let s' : ConvertStats = count_decoded d s in
    record s' {
      mem_overflow = (s'.mem_overflow + slots.overflow) % 2 ^ 64;
      mem_insns = if ltb 0 slots.src || ltb 0 slots.dst then inc s'.mem_insns else s'.mem_insns;
      total_insns = inc s'.total_insns;
      kernel_insns = if is_nonzero i.privilege then inc s'.kernel_insns else s'.kernel_insns;
      user_insns = if is_nonzero i.privilege then s'.user_insns else inc s'.user_insns;
    }

-- The instruction whose record waits for the IP of the next one.
pub record Prev : Type 0 where
  pub rec : InstrV2
  pub ip : ℕ
  pub size : ℕ

abbrev pub with_taken : ℕ → InstrV2 → InstrV2
with_taken taken r = record r { base = record (r.base) { branch_taken = taken } }

-- The record of the previous instruction, now that the next IP is known.
unfoldable pub directed : Prev → ℕ → InstrV2
directed p ip =
    if is_nonzero p.rec.is_branch
    then with_taken
        (if direction_is_known_taken (get_or p.rec.reserved 0 0)
          then 1
          else if not (ip == (p.ip + p.size) % 2 ^ 64)
          then 1
          else 0)
        p.rec
    else p.rec

-- The record of the last instruction: `none` if it is dropped.
unfoldable pub last_record : Prev → Option InstrV2
last_record p =
    if is_nonzero p.rec.is_branch
    then (if direction_is_known_taken (get_or p.rec.reserved 0 0)
        then some (with_taken 1 p.rec)
        else none)
    else some p.rec
