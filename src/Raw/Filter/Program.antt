-- ===== src/Raw/Filter/Program.antt =====
-- `main` of trace_filter.c from the file header on.
pub mod Whole
use champsim_infra.Prelude.{
  ℕ, zero, suc, ◌&&◌, ◌||◌, not, ◌/◌, ◌%◌, Bool, true, false, Option, none, some, List, [], ◌∷◌,
  length, take, drop, ◌==◌, get_or, if◌then◌else◌, Outcome, done, exit, stuck, ◌>>=◌,
}
use champsim_infra.Trace.{word}
use champsim_infra.Raw.Bytes.{read_exact}
use champsim_infra.Raw.Record.{trace_format_magic}
use champsim_infra.Raw.Filter.Framing.{Framed, cut, refused, framed, next_record}
use champsim_infra.Raw.Filter.Writer.{Compressor, FilterWriter, writer_append, writer_finish}
use champsim_infra.Raw.Filter.Machine.{Filter, initial, emit, filter_step, flush_rest}

-- The flags of the header, if the file is one that the filter takes.
abbrev pub layout_of : List ℕ → Option (Bool × Bool)
layout_of file_hdr =
    let version = word (take 4 (drop 4 file_hdr)) in
    if not (word (take 4 file_hdr) == trace_format_magic)
    then none
    else if not (version == 2 || version == 3)
    then none
    else if version == 3
    then (if not (get_or file_hdr 12 0 == 0)
        then none
        else some (get_or file_hdr 13 0 % 2 == 1, get_or file_hdr 13 0 / 2 % 2 == 1))
    else some (false, true)

module _ (z : Compressor) where
  unfoldable pub filter_loop : Bool → Bool → ℕ → Filter z → List ℕ → Outcome (Filter z)
  unfolding next_record filter_step
  filter_loop has_pa has_values zero f bs = stuck
  filter_loop has_pa has_values (suc fuel) f bs = elim (next_record has_pa has_values bs) [
    | cut ↦ done f
    | refused ↦ exit 1
    | framed r rest ↦ filter_loop has_pa has_values fuel (filter_step z r f) rest
  ]

  -- After the loop.
  abbrev pub finished : Filter z → Filter z
  finished f =
      let f' = flush_rest z f in
      record f' { writer = elim f'.writer [ none ↦ none | some w ↦ some (writer_finish z w) ] }

  abbrev pub filter_body : Option (FilterWriter z) → Option (List ℕ × List ℕ) → Outcome (Filter z)
  filter_body w none = exit 1
  filter_body w (some (file_hdr, rest)) = elim (layout_of file_hdr) [
    | none ↦ exit 1
    | some (has_pa, has_values) ↦ do
      f ← filter_loop has_pa has_values (suc (length rest)) (initial z (emit z file_hdr w)) rest
      done (finished f)
  ]

  -- The end state, if the program returns 0; the writer is `none` with --stats-only.
  unfoldable pub trace_filter : Option (FilterWriter z) → List ℕ → Outcome (Filter z)
  unfolding read_exact word writer_append writer_finish filter_loop flush_rest
  trace_filter w bs = filter_body w (read_exact 16 bs)
