-- ===== src/Cutter/Args.antt =====
-- `Args` and `parse_args` of trace_cutter.cpp. getopt_long is not modelled: the arguments are the
-- list of options that it returns, each with its `optarg`.
use champsim_infra.Prelude.{
  ℕ, ◌||◌, Bool, true, false, List, [], ◌∷◌, Option, none, some, ℤ, pos, ◌==◌, if◌then◌else◌,
  Outcome, done, exit, is_empty, strtoull,
}

pub record Args : Type 0 where
  pub input : List ℕ
  pub outdir : List ℕ
  pub chunk_records : ℕ
  pub level : ℤ
  pub workers : ℤ
  pub dry_run : Bool

abbrev pub defaults : Args
defaults = record {
  input = [];
  outdir = [];
  chunk_records = 0;
  level = pos 3;
  workers = pos 0;
  dry_run = false;
}

pub data Opt : Type 0 where
  input outdir num_instr level workers : List ℕ → Opt
  dry_run help unknown : Opt

-- The test after the loop: the three required options.
abbrev pub check_args : Args → Option Args
check_args a =
    if is_empty a.input || is_empty a.outdir || a.chunk_records == 0 then none else some a

-- `none` is a result of false; --help exits at once.
module _ (atoi : List ℕ → ℤ) where
  pub parse_args : Args → List Opt → Outcome (Option Args)
  unfolding strtoull
  parse_args a [] = done (check_args a)
  parse_args a (input s ∷ opts) = parse_args (record a { input = s }) opts
  parse_args a (outdir s ∷ opts) = parse_args (record a { outdir = s }) opts
  parse_args a (num_instr s ∷ opts) = parse_args (record a { chunk_records = strtoull s }) opts
  parse_args a (level s ∷ opts) = parse_args (record a { level = atoi s }) opts
  parse_args a (workers s ∷ opts) = parse_args (record a { workers = atoi s }) opts
  parse_args a (dry_run ∷ opts) = parse_args (record a { dry_run = true }) opts
  parse_args a (help ∷ opts) = exit 0
  parse_args a (unknown ∷ opts) = done none
