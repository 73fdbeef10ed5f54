-- ===== src/Cutter/Naming.antt =====
-- `output_path`: where a chunk is written.
pub mod Injective
use champsim_infra.Prelude.{
  ℕ, ◌-◌, ◌&&◌, Bool, true, false, List, [], ◌∷◌, ◌++◌, not, ltb, ◌==◌, if◌then◌else◌, length, take,
  drop, codes, is_empty, str_eq, decimal_padded,
}
use champsim_infra.Cutter.Args.{Args}

-- fs::path::filename: what follows the last slash.
pub filename_from : List ℕ → List ℕ → List ℕ
filename_from acc [] = acc
filename_from acc (c ∷ s) = filename_from (if c == b'/' then [] else acc ++ c ∷ []) s

pub filename : List ℕ → List ℕ
unfolding filename_from
filename p = filename_from [] p

-- fs::path::operator/ for a right side that is relative: a slash is added after a file name.
pub join : List ℕ → List ℕ → List ℕ
unfolding filename
join dir name = if is_empty (filename dir) then dir ++ name else dir ++ b'/' ∷ name

pub strip_ext : List ℕ → List ℕ
unfolding str_eq
strip_ext stem =
    if ltb (length (codes ".zst")) (length stem)
      && str_eq (drop (length stem - length (codes ".zst")) stem) (codes ".zst")
    then take (length stem - length (codes ".zst")) stem
    else stem

pub suffix : ℕ → List ℕ
unfolding decimal_padded
suffix part_idx = codes "_part" ++ decimal_padded part_idx ++ codes ".zst"

pub output_path : Args → ℕ → List ℕ
unfolding strip_ext suffix join
output_path a part_idx = join a.outdir (strip_ext (filename a.input) ++ suffix part_idx)
