-- ===== src/Tracer/Record.antt =====
-- Filling `curr_instr`: the callbacks for memory operands and registers, and the commit.
pub mod Registers
use champsim_infra.Prelude.{
  ℕ, zero, suc, ◌+◌, ◌-◌, ◌*◌, ◌/◌, ◌%◌, ◌^◌, ◌&&◌, not, Bool, true, false, Option, none, some,
  List, [], ◌∷◌, ◌++◌, length, drop, set, ltb, leb, ◌==◌, get_or, if◌then◌else◌, inc,
}
use champsim_infra.Trace.{Instr, InstrV2, bytes_of}
use champsim_infra.Tracer.State.{
  is_tracing, Knobs, SampleFile, Globals, ThreadState, Pending, max_write_ops, no_stores, no_instr,
}
use champsim_infra.Tracer.Phases.{leave_tracing}

-- The counters that `Fini` prints.
pub record Losses : Type 0 where
  pub overflowed_src_memops : ℕ
  pub overflowed_dst_memops : ℕ
  pub missed_store_values : ℕ
  pub call_store_values_filled : ℕ
  pub truncated_values : ℕ
  pub safecopy_short_reads : ℕ
  pub scattered_instrs_seen : ℕ
  pub scatter_missed_store_values : ℕ
  pub dropped_src_regs : ℕ
  pub dropped_dst_regs : ℕ
  pub dropped_src_flags : ℕ
  pub dropped_dst_flags : ℕ

abbrev pub max_mem_value_size : ℕ
max_mem_value_size = 64

abbrev pub recorded_reg_flags : ℕ
recorded_reg_flags = 25

abbrev pub tracer_identity : ℕ
tracer_identity = 3

-- The first slot that is 0, from index `i` on.
unfoldable pub first_free : ℕ → List ℕ → Option ℕ
first_free i [] = none
first_free i (x ∷ xs) = let rest = first_free (i + 1) xs in if x == 0 then some i else rest

abbrev pub clamp_value_size : ℕ → Losses → ℕ × Losses
clamp_value_size size l =
    if ltb max_mem_value_size size
    then (max_mem_value_size, record l { truncated_values = inc l.truncated_values })
    else (size, l)

-- What PIN_SafeCopy can read of `size` bytes at an address, at the time of the call.
abbrev pub Memory : Type 0
Memory = ℕ → ℕ → List ℕ

-- The bytes read replace the first ones of the slot.
abbrev pub safe_copy_value : Memory → List ℕ → ℕ → ℕ → Losses → List ℕ × Losses
safe_copy_value m dst addr size l = (
  m addr size ++ drop (length (m addr size)) dst,
  (if ltb (length (m addr size)) size
      then record l { safecopy_short_reads = inc l.safecopy_short_reads }
      else l),
)

-- The value of an operand, for the callbacks that want one.
abbrev pub capture : Memory → List ℕ → ℕ → ℕ → Losses → List ℕ × Losses
capture m dst addr size l =
    let (size', l') = clamp_value_size size l in safe_copy_value m dst addr size' l'

abbrev pub byte_size : ℕ → ℕ
byte_size size = if ltb 255 size then 255 else size

abbrev pub no_pending : Pending
no_pending = record { slot = none; addr = 0; size = 0 }

-- One lane of a gather or a scatter.
pub record Lane : Type 0 where
  pub mask_on : Bool
  pub is_load : Bool
  pub address : ℕ
  pub accessed : ℕ

module _ (k : Knobs) (f : SampleFile) where
  abbrev pub Building : Type 0
  Building = Losses × ThreadState f

  abbrev pub fill_source : Memory → ℕ → ℕ → Bool → ℕ → Building → Building
  fill_source m addr size want i (l, t) =
      let r : InstrV2 = t.curr_instr in
      let old : List ℕ = get_or r.source_memory_value i [] in
      let (value, l') = if want then capture m old addr size l else (old, l) in
      (
        l',
        record t {
          curr_instr = record r {
            base = record (r.base) { source_memory = set r.source_memory i addr };
            source_memory_size = set r.source_memory_size i (byte_size size);
            source_memory_value = set r.source_memory_value i value;
          };
        },
      )

  unfoldable pub record_mem_read : Memory → ℕ → ℕ → Bool → Building → Building
  unfolding first_free
  record_mem_read m addr size want (l, t) =
      if not (is_tracing t.phase) then (l, t) else elim (first_free 0 t.curr_instr.source_memory) [
        | none ↦ (record l { overflowed_src_memops = inc l.overflowed_src_memops }, t)
        | some i ↦ fill_source m addr size want i (l, t)
      ]

  abbrev pub fill_destination : ℕ → ℕ → ℕ → ThreadState f → ThreadState f
  fill_destination addr size i t =
      let r : InstrV2 = t.curr_instr in
      record t {
        curr_instr = record r {
          base = record (r.base) { destination_memory = set r.destination_memory i addr };
          destination_memory_size = set r.destination_memory_size i (byte_size size);
        };
      }

  unfoldable pub record_mem_write : ℕ → ℕ → ℕ → Bool → Building → Building
  unfolding first_free
  record_mem_write addr size op will_capture (l, t) =
      if not (is_tracing t.phase)
      then (l, t)
      else elim (first_free 0 t.curr_instr.destination_memory) [
        | none ↦ (record l { overflowed_dst_memops = inc l.overflowed_dst_memops }, t)
        | some i ↦
            (let t' = fill_destination addr size i t in
              (
                l,
                (if will_capture && ltb op max_write_ops
                    then record t' {
                      pending_stores =
                          set t'.pending_stores op
                            (record { slot = some i; addr = addr; size = size });
                    }
                    else t'),
              ))
      ]

  abbrev pub record_store_lane : Lane → Building → Building
  record_store_lane a (l, t) =
      let p : Building = elim (first_free 0 t.curr_instr.destination_memory) [
        | none ↦ (record l { overflowed_dst_memops = inc l.overflowed_dst_memops }, t)
        | some i ↦ (l, fill_destination a.address a.accessed i t)
      ] in
      (
        record (p.0) {
          missed_store_values = inc p.0.missed_store_values;
          scatter_missed_store_values = inc p.0.scatter_missed_store_values;
        },
        p.1,
      )

  unfoldable pub record_lanes : Memory → Bool → List Lane → Building → Building
  unfolding record_mem_read first_free
  record_lanes m want [] p = p
  record_lanes m want (a ∷ lanes) p = record_lanes m want lanes (
      if not a.mask_on
      then p
      else if a.is_load
      then record_mem_read m a.address a.accessed want p
      else record_store_lane a p)

  -- The information of the lanes is there (`info` is not null).
  unfoldable pub record_scattered_mem_access : Memory → Bool → List Lane → Building → Building
  unfolding record_lanes
  record_scattered_mem_access m want lanes (l, t) =
      if not (is_tracing t.phase)
      then (l, t)
      else record_lanes m want lanes
          (record l { scattered_instrs_seen = inc l.scattered_instrs_seen }, t)

  -- The value of a store goes to its slot, and is no longer pending. Only the slot is reset.
  abbrev pub put_store_value : ℕ → ℕ → List ℕ → ThreadState f → ThreadState f
  put_store_value op i value t =
      let r : InstrV2 = t.curr_instr in
      let q : Pending = get_or t.pending_stores op no_pending in
      record t {
        curr_instr = record r { destination_memory_value = set r.destination_memory_value i value };
        pending_stores = set t.pending_stores op (record q { slot = none });
      }

  unfoldable pub record_mem_write_value : Memory → ℕ → Building → Building
  record_mem_write_value m op (l, t) =
      let q : Pending = get_or t.pending_stores op no_pending in
      if not (is_tracing t.phase)
      then (l, t)
      else if leb max_write_ops op
      then (l, t)
      else elim q.slot [
        | none ↦ (l, t)
        | some i ↦
            (let (value, l') =
                capture m (get_or t.curr_instr.destination_memory_value i []) q.addr q.size l in
              (l', put_store_value op i value t))
      ]

  abbrev pub note_missed_store_value : Losses → Losses
  note_missed_store_value l = record l { missed_store_values = inc l.missed_store_values }

  unfoldable pub record_call_ret_addr_value : ℕ → ℕ → Building → Building
  unfolding bytes_of
  record_call_ret_addr_value op ret_addr (l, t) =
      let q : Pending = get_or t.pending_stores op no_pending in
      if not (is_tracing t.phase)
      then (l, t)
      else if leb max_write_ops op
      then (l, t)
      else elim q.slot [
        | none ↦ (l, t)
        | some i ↦
            (let old : List ℕ = get_or t.curr_instr.destination_memory_value i [] in
              (
                record l { call_store_values_filled = inc l.call_store_values_filled },
                put_store_value op i (bytes_of 8 ret_addr ++ drop 8 old) t,
              ))
      ]

  -- A register goes to a slot, or is dropped.
  abbrev pub source_slot : ℕ → Building → Option ℕ → Building
  source_slot reg (l, t) none = (
    (if reg % 256 == recorded_reg_flags
        then record l { dropped_src_flags = inc l.dropped_src_flags }
        else record l { dropped_src_regs = inc l.dropped_src_regs }),
    t,
  )
  source_slot reg (l, t) (some i) =
      let r : InstrV2 = t.curr_instr in
      (
        l,
        record t {
          curr_instr = record r {
            base = record (r.base) { source_registers = set r.source_registers i (reg % 256) };
          };
        },
      )

  unfoldable pub record_reg_read : ℕ → Building → Building
  unfolding first_free
  record_reg_read reg p =
      if not (is_tracing p.1.phase)
      then p
      else source_slot reg p (first_free 0 p.1.curr_instr.source_registers)

  unfoldable pub record_reg_write : ℕ → Building → Building
  unfolding first_free
  record_reg_write reg (l, t) =
      let r : InstrV2 = t.curr_instr in
      if not (is_tracing t.phase) then (l, t) else elim (first_free 0 r.destination_registers) [
        | some i ↦ (
          l,
          record t {
            curr_instr = record r {
              base = record (r.base) {
                destination_registers = set r.destination_registers i (reg % 256);
              };
            };
          },
        )
        | none ↦ (
          (if reg % 256 == recorded_reg_flags
              then record l { dropped_dst_flags = inc l.dropped_dst_flags }
              else record l { dropped_dst_regs = inc l.dropped_dst_regs }),
          t,
        )
      ]

  -- The record as it is written.
  abbrev pub stamped : ℕ → ℕ → ℕ → ℕ → ℕ → InstrV2 → InstrV2
  stamped ip is_branch branch_taken type branch_type r = record r {
    base = record (r.base) { ip = ip; is_branch = is_branch; branch_taken = branch_taken };
    privilege = 0;
    instr_type = type;
    reserved = set (set (set r.reserved 0 branch_type) 1 3) 2 tracer_identity;
  }

  unfoldable pub record_instr_commit :
      ℕ → ℕ → ℕ → ℕ → ℕ → Globals × ThreadState f → Globals × ThreadState f
  unfolding leave_tracing
  record_instr_commit ip is_branch branch_taken type branch_type (g, t) =
      let t' = record t {
        file = f.write (stamped ip is_branch branch_taken type branch_type t.curr_instr) t.file;
        counter = (t.counter + (2 ^ 64 - 1)) % 2 ^ 64;
        curr_instr = no_instr;
        pending_stores = no_stores;
      } in
      if not (is_tracing t.phase)
      then (g, t)
      else if t'.counter == 0
      then leave_tracing k f (g, t')
      else (g, t')
