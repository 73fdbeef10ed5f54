-- ===== src/Sanity/Stats/Step.antt =====
-- `update_common`, and the body of the loop of `run_v2`.
use champsim_infra.Prelude.{
  ℕ, ◌/◌, ◌%◌, ◌^◌, ◌&&◌, ◌||◌, not, Bool, true, false, List, [], ◌∷◌, ltb, ◌==◌, get_or,
  if◌then◌else◌, inc, bump, contains, set_insert, map_update,
}
use champsim_infra.Trace.{Instr, InstrV2}
use champsim_infra.Sanity.Stats.Groups.{Counts, Footprint, Kinds, Branches, Indirect, Stats}

abbrev pub page_shift : ℕ
page_shift = 12

abbrev pub block_shift : ℕ
block_shift = 6

-- A test of a C integer.
abbrev pub truthy : ℕ → Bool
truthy n = not (n == 0)

abbrev pub any : List ℕ → Bool
any [] = false
any (x ∷ xs) = truthy x || any xs

-- `n++` for each element of the array that is not 0.
unfoldable pub count_ops : List ℕ → ℕ → ℕ
count_ops [] n = n
count_ops (x ∷ xs) n = count_ops xs (if truthy x then inc n else n)

abbrev pub inc_if : Bool → ℕ → ℕ
inc_if b n = if b then inc n else n

unfoldable pub update_counts : Instr → Counts → Counts
unfolding count_ops
update_counts r c = record {
  records = inc c.records;
  branch_inst = inc_if (truthy r.is_branch) c.branch_inst;
  taken_branch = inc_if (truthy r.is_branch && truthy r.branch_taken) c.taken_branch;
  load_inst = inc_if (any r.source_memory) c.load_inst;
  store_inst = inc_if (any r.destination_memory) c.store_inst;
  load_ops = count_ops r.source_memory c.load_ops;
  store_ops = count_ops r.destination_memory c.store_ops;
  reg_src_ops = count_ops r.source_registers c.reg_src_ops;
  reg_dst_ops = count_ops r.destination_registers c.reg_dst_ops;
}

-- `set.insert(x >> shift)` for each element that is not 0.
unfoldable pub insert_all : ℕ → List ℕ → List ℕ → List ℕ
unfolding set_insert
insert_all shift [] s = s
insert_all shift (x ∷ xs) s =
    insert_all shift xs (if truthy x then set_insert (x / 2 ^ shift) s else s)

abbrev pub insert_if : Bool → ℕ → List ℕ → List ℕ
insert_if b x s = if b then set_insert x s else s

unfoldable pub update_footprint : Bool → Instr → Footprint → Footprint
unfolding insert_all set_insert
update_footprint track r f = record {
  load_va_pages =
      if track then insert_all page_shift r.source_memory f.load_va_pages else f.load_va_pages;
  ip_min = if ltb r.ip f.ip_min then r.ip else f.ip_min;
  ip_max = if ltb f.ip_max r.ip then r.ip else f.ip_max;
  unique_pcs = insert_if track r.ip f.unique_pcs;
  unique_ip_pages = insert_if track (r.ip / 2 ^ page_shift) f.unique_ip_pages;
  unique_ip_blocks = insert_if track (r.ip / 2 ^ block_shift) f.unique_ip_blocks;
  unique_branch_pcs = insert_if (track && truthy r.is_branch) r.ip f.unique_branch_pcs;
  unique_taken_branch_pcs =
      insert_if (track && (truthy r.is_branch && truthy r.branch_taken)) r.ip
        f.unique_taken_branch_pcs;
  unique_load_pcs = insert_if (track && any r.source_memory) r.ip f.unique_load_pcs;
  unique_store_pcs = insert_if (track && any r.destination_memory) r.ip f.unique_store_pcs;
}

unfoldable pub update_common : Bool → Instr → Stats → Stats
unfolding update_counts update_footprint
update_common track r s = record s {
  counts = update_counts r s.counts;
  footprint = update_footprint track r s.footprint;
}

-- The branch types of `reserved[0]`.
abbrev pub bt_direct_jump : ℕ
bt_direct_jump = 0

abbrev pub bt_indirect : ℕ
bt_indirect = 1

abbrev pub bt_conditional : ℕ
bt_conditional = 2

abbrev pub bt_direct_call : ℕ
bt_direct_call = 3

abbrev pub bt_indirect_call : ℕ
bt_indirect_call = 4

abbrev pub bt_return : ℕ
bt_return = 5

abbrev pub bt_not_branch : ℕ
bt_not_branch = 7

abbrev pub num_branch_types : ℕ
num_branch_types = 8

-- champsim::REG_FLAGS.
abbrev pub reg_flags : ℕ
reg_flags = 25

abbrev pub branch_type : InstrV2 → ℕ
branch_type r = get_or r.reserved 0 0

abbrev pub has_explicit_type : InstrV2 → Bool
has_explicit_type r = truthy (get_or r.reserved 1 0 % 2)

abbrev pub has_flags_feature : InstrV2 → Bool
has_flags_feature r = truthy (get_or r.reserved 1 0 / 2 % 2)

abbrev pub is_call_or_return : ℕ → Bool
is_call_or_return bt = bt == bt_direct_call || bt == bt_indirect_call || bt == bt_return

abbrev pub is_indirect : ℕ → Bool
is_indirect bt = bt == bt_indirect || bt == bt_indirect_call

-- The size histogram of one side's memory operands.
unfoldable pub update_sizes : List ℕ → List ℕ → List ℕ → List ℕ
unfolding bump
update_sizes [] sizes h = h
update_sizes (m ∷ ms) [] h = h
update_sizes (m ∷ ms) (n ∷ ns) h = update_sizes ms ns (if truthy m then bump h n else h)

-- The physical pages of loads that have an address on both sides.
unfoldable pub update_pa_pages : List ℕ → List ℕ → List ℕ → List ℕ
unfolding set_insert
update_pa_pages [] pas s = s
update_pa_pages (m ∷ ms) [] s = s
update_pa_pages (m ∷ ms) (p ∷ ps) s =
    update_pa_pages ms ps (insert_if (truthy m && truthy p) (p / 2 ^ page_shift) s)

unfoldable pub update_kinds : Bool → InstrV2 → Kinds → Kinds
unfolding update_sizes update_pa_pages
update_kinds no_unique r k = record {
  int_inst = inc_if (r.instr_type == 0) k.int_inst;
  fp_inst = inc_if (r.instr_type == 1) k.fp_inst;
  simd_inst = inc_if (r.instr_type == 2) k.simd_inst;
  other_type = inc_if (ltb 2 r.instr_type) k.other_type;
  user_inst = inc_if (not (truthy r.privilege)) k.user_inst;
  kernel_inst = inc_if (truthy r.privilege) k.kernel_inst;
  load_size_hist = update_sizes r.source_memory r.source_memory_size k.load_size_hist;
  store_size_hist = update_sizes r.destination_memory r.destination_memory_size k.store_size_hist;
  load_pa_pages =
      if no_unique
      then k.load_pa_pages
      else update_pa_pages r.source_memory r.source_memory_pa k.load_pa_pages;
}

-- The array `tracer_ids_seen` is the set of the indices at which it is true.
unfoldable pub update_branches : InstrV2 → Branches → Branches
unfolding bump set_insert contains
update_branches r b = record {
  btype_hist =
      if ltb (branch_type r) num_branch_types
      then bump b.btype_hist (branch_type r)
      else b.btype_hist;
  btype_taken =
      if ltb (branch_type r) num_branch_types && truthy r.branch_taken
      then bump b.btype_taken (branch_type r)
      else b.btype_taken;
  explicit_bt_records = inc_if (has_explicit_type r) b.explicit_bt_records;
  flags_feature_records = inc_if (has_flags_feature r) b.flags_feature_records;
  call_ret_not_flagged =
      inc_if (is_call_or_return (branch_type r) && not (truthy r.is_branch)) b.call_ret_not_flagged;
  tracer_ids_seen = set_insert (get_or r.reserved 2 0) b.tracer_ids_seen;
  flags_in_src = inc_if (contains reg_flags r.source_registers) b.flags_in_src;
  flags_in_dst = inc_if (contains reg_flags r.destination_registers) b.flags_in_dst;
}

-- A branch that is pending is resolved by this record's IP, before this record arms its own.
unfoldable pub resolve_pending : ℕ → Indirect → Indirect
unfolding map_update set_insert
resolve_pending ip i =
    if i.ind_pending
    then record i {
      ind_targets = map_update i.ind_pending_pc [] (set_insert ip) i.ind_targets;
      ind_pending = false;
    }
    else i

unfoldable pub arm_pending : InstrV2 → Indirect → Indirect
unfolding map_update
arm_pending r i =
    if is_indirect (branch_type r)
    then record i {
      ind_exec = map_update r.ip 0 inc i.ind_exec;
      ind_pending_pc = r.ip;
      ind_pending = true;
    }
    else i

unfoldable pub update_indirect : InstrV2 → Indirect → Indirect
unfolding resolve_pending arm_pending
update_indirect r i = arm_pending r (resolve_pending r.ip i)

-- One round of `run_v2`'s loop.
unfoldable pub update_v2 : Bool → InstrV2 → Stats → Stats
unfolding update_common update_kinds update_branches update_indirect
update_v2 no_unique r s = record (update_common (not no_unique) r.base s) {
  kinds = update_kinds no_unique r s.kinds;
  branches = update_branches r s.branches;
  indirect = if s.want_ind_targets then update_indirect r s.indirect else s.indirect;
}

-- After the loop: a branch that the trace ends with has no target.
unfoldable pub settle_pending : Stats → Stats
settle_pending s =
    if s.indirect.ind_pending
    then record s {
      indirect = record (s.indirect) {
        ind_dangling = inc s.indirect.ind_dangling;
        ind_pending = false;
      };
    }
    else s
