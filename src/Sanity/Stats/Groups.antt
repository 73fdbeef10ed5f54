-- ===== src/Sanity/Stats/Groups.antt =====
-- The members of `Stats`, with their initial values.
use champsim_infra.Prelude.{ℕ, ◌-◌, ◌^◌, Bool, false, List, [], replicate}

pub record Counts : Type 0 where
  pub records : ℕ
  pub branch_inst : ℕ
  pub taken_branch : ℕ
  pub load_inst : ℕ
  pub store_inst : ℕ
  pub load_ops : ℕ
  pub store_ops : ℕ
  pub reg_src_ops : ℕ
  pub reg_dst_ops : ℕ

-- The instruction footprint, and the pages that loads touch.
pub record Footprint : Type 0 where
  pub load_va_pages : List ℕ
  pub ip_min : ℕ
  pub ip_max : ℕ
  pub unique_pcs : List ℕ
  pub unique_ip_pages : List ℕ
  pub unique_ip_blocks : List ℕ
  pub unique_branch_pcs : List ℕ
  pub unique_taken_branch_pcs : List ℕ
  pub unique_load_pcs : List ℕ
  pub unique_store_pcs : List ℕ

-- The members for v2 records only.
pub record Kinds : Type 0 where
  pub int_inst : ℕ
  pub fp_inst : ℕ
  pub simd_inst : ℕ
  pub other_type : ℕ
  pub user_inst : ℕ
  pub kernel_inst : ℕ
  pub load_size_hist : List ℕ
  pub store_size_hist : List ℕ
  pub load_pa_pages : List ℕ

pub record Branches : Type 0 where
  pub btype_hist : List ℕ
  pub btype_taken : List ℕ
  pub explicit_bt_records : ℕ
  pub flags_feature_records : ℕ
  pub call_ret_not_flagged : ℕ
  pub tracer_ids_seen : List ℕ
  pub flags_in_src : ℕ
  pub flags_in_dst : ℕ

pub record Indirect : Type 0 where
  pub ind_targets : List (ℕ × List ℕ)
  pub ind_exec : List (ℕ × ℕ)
  pub ind_pending_pc : ℕ
  pub ind_pending : Bool
  pub ind_dangling : ℕ

pub record Stats : Type 0 where
  pub counts : Counts
  pub footprint : Footprint
  pub v2 : Bool
  pub kinds : Kinds
  pub branches : Branches
  pub want_ind_targets : Bool
  pub indirect : Indirect

abbrev pub no_counts : Counts
no_counts = record {
  records = 0;
  branch_inst = 0;
  taken_branch = 0;
  load_inst = 0;
  store_inst = 0;
  load_ops = 0;
  store_ops = 0;
  reg_src_ops = 0;
  reg_dst_ops = 0;
}

abbrev pub no_footprint : Footprint
no_footprint = record {
  load_va_pages = [];
  ip_min = 2 ^ 64 - 1;
  ip_max = 0;
  unique_pcs = [];
  unique_ip_pages = [];
  unique_ip_blocks = [];
  unique_branch_pcs = [];
  unique_taken_branch_pcs = [];
  unique_load_pcs = [];
  unique_store_pcs = [];
}

abbrev pub no_kinds : Kinds
no_kinds = record {
  int_inst = 0;
  fp_inst = 0;
  simd_inst = 0;
  other_type = 0;
  user_inst = 0;
  kernel_inst = 0;
  load_size_hist = replicate 256 0;
  store_size_hist = replicate 256 0;
  load_pa_pages = [];
}

abbrev pub no_branches : Branches
no_branches = record {
  btype_hist = replicate 8 0;
  btype_taken = replicate 8 0;
  explicit_bt_records = 0;
  flags_feature_records = 0;
  call_ret_not_flagged = 0;
  tracer_ids_seen = [];
  flags_in_src = 0;
  flags_in_dst = 0;
}

abbrev pub no_indirect : Indirect
no_indirect = record {
  ind_targets = [];
  ind_exec = [];
  ind_pending_pc = 0;
  ind_pending = false;
  ind_dangling = 0;
}

abbrev pub no_stats : Stats
no_stats = record {
  counts = no_counts;
  footprint = no_footprint;
  v2 = false;
  kinds = no_kinds;
  branches = no_branches;
  want_ind_targets = false;
  indirect = no_indirect;
}
