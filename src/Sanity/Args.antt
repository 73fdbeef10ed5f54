-- ===== src/Sanity/Args.antt =====
-- `Format`, `Args` and `parse_args` of trace_sanity_check.cpp. getopt_long is not modelled: the
-- arguments are the list of options that it returns, each with its `optarg`.
use champsim_infra.Prelude.{
  ℕ, ◌&&◌, ◌||◌, not, Bool, true, false, List, [], ◌∷◌, Option, none, some, if◌then◌else◌, Outcome,
  done, exit, codes, is_empty, str_eq, strtoull,
}

pub data Format : Type 0 where
  v1 v2 cloudsuite : Format

abbrev pub is_v2 : Format → Bool
is_v2 v1 = false
is_v2 v2 = true
is_v2 cloudsuite = false

pub record Args : Type 0 where
  pub input : List ℕ
  pub format : Format
  pub heartbeat : ℕ
  pub no_unique : Bool
  pub check : Bool
  pub ind_targets : Bool
  pub ind_csv : List ℕ

abbrev pub defaults : Args
defaults = record {
  input = [];
  format = v1;
  heartbeat = 10_000_000;
  no_unique = false;
  check = false;
  ind_targets = false;
  ind_csv = [];
}

pub data Opt : Type 0 where
  input format heartbeat indirect_csv : List ℕ → Opt
  no_unique check indirect_targets help unknown : Opt

unfoldable pub parse_format : List ℕ → Option Format
unfolding str_eq
parse_format v =
    if str_eq v (codes "v1")
    then some v1
    else if str_eq v (codes "v2")
    then some v2
    else if str_eq v (codes "cloudsuite") || str_eq v (codes "cs")
    then some cloudsuite
    else none

-- The tests after the loop.
abbrev pub check_args : Args → Option Args
check_args a =
    if a.ind_targets && not (is_v2 a.format)
    then none
    else if is_empty a.input
    then none
    else some a

-- `none` is a result of false; --help exits at once.
unfoldable pub parse_args : Args → List Opt → Outcome (Option Args)
unfolding parse_format strtoull
parse_args a [] = done (check_args a)
parse_args a (input s ∷ opts) = parse_args (record a { input = s }) opts
parse_args a (format s ∷ opts) = elim (parse_format s) [
  | none ↦ done none
  | some f ↦ parse_args (record a { format = f }) opts
]
parse_args a (heartbeat s ∷ opts) = parse_args (record a { heartbeat = strtoull s }) opts
parse_args a (no_unique ∷ opts) = parse_args (record a { no_unique = true }) opts
parse_args a (check ∷ opts) = parse_args (record a { check = true }) opts
parse_args a (indirect_targets ∷ opts) = parse_args (record a { ind_targets = true }) opts
parse_args a (indirect_csv s ∷ opts) =
    parse_args (record a { ind_csv = s; ind_targets = true }) opts
parse_args a (help ∷ opts) = exit 0
parse_args a (unknown ∷ opts) = done none
