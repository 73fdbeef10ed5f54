-- ===== src/Raw/Convert/Program.antt =====
-- The main loop of raw2champsim.c and what follows it. The decoder is a parameter: decode_x86 over
-- Zydis and decode_aarch64 over Capstone.
pub mod Stream
pub mod Truncated
use champsim_infra.Prelude.{
  ℕ, zero, suc, ◌+◌, ◌^◌, ◌&&◌, Bool, true, false, Option, none, some, List, [], ◌∷◌, length, ltb,
  leb, inc, if◌then◌else◌, Outcome, done, exit, stuck, ◌>>=◌,
}
use champsim_infra.Raw.Record.{Insn}
use champsim_infra.Raw.Convert.Parse.{
  Header, read_header, Next, next_insn, at_end, broken, lost, found,
}
use champsim_infra.Raw.Convert.Build.{
  Decoded, ConvertStats, Prev, Slots, build, count_insn, directed, last_record,
}
use champsim_infra.Raw.Convert.Writer.{Sink, TraceWriter, encode_v2, writer_write, writer_flush}

abbrev pub no_convert_stats : ConvertStats
no_convert_stats = record {
  total_insns = 0;
  user_insns = 0;
  kernel_insns = 0;
  branch_insns = 0;
  mem_insns = 0;
  decode_failures = 0;
  mem_overflow = 0;
  type_int = 0;
  type_fp = 0;
  type_simd = 0;
}

-- How the loop ends: by a `break` at the end, by a `break` with exit_status 1, or by `goto done`
-- with exit_status 1.
pub data Ending : Type 0 where
  ended broke gone : Ending

abbrev pub exit_status : Ending → ℕ
exit_status ended = 0
exit_status broke = 1
exit_status gone = 1

module _ (z : Sink) (decode : ℕ → List ℕ → Decoded) where
  pub record Conv : Type 0 where
    pub writer : TraceWriter z
    pub stats : ConvertStats
    pub prev : Option Prev

  -- The previous record is written once the next IP is known.
  abbrev pub write_prev : Option Prev → ℕ → TraceWriter z → Option (TraceWriter z)
  write_prev none ip w = some w
  write_prev (some p) ip w = writer_write z (encode_v2 (directed p ip)) w

  module _ (h : Header) where
    abbrev pub built_slots : Insn → Slots
    built_slots i = build (decode h.arch i.bytes) i

    abbrev pub prev_of : Insn → Prev
    prev_of i = record { rec = (built_slots i).rec; ip = i.ip; size = length i.bytes }

    abbrev pub absorb : Insn → Conv → TraceWriter z → Conv
    absorb i c w = record {
      writer = w;
      stats = count_insn (decode h.arch i.bytes) i (built_slots i) c.stats;
      prev = some (prev_of i);
    }

    -- `max_insns` is 0 if there is no limit.
    unfoldable pub convert_loop : ℕ → ℕ → Conv → List ℕ → Outcome (Ending × Conv)
    unfolding next_insn build count_insn directed writer_write encode_v2
    convert_loop max_insns zero c bs = stuck
    convert_loop max_insns (suc fuel) c bs =
        elim (ltb 0 max_insns && leb max_insns c.stats.total_insns) [
          | true ↦ done (ended, c)
          | false ↦ elim (next_insn h bs) [
            | at_end ↦ done (ended, c)
            | broken ↦ done (broke, c)
            | lost ↦ done (gone, c)
            | found i rest ↦ elim (write_prev c.prev i.ip c.writer) [
              | none ↦ done (gone, c)
              | some w ↦ convert_loop max_insns fuel (absorb i c w) rest
            ]
          ]
        ]

  -- The last record. A failed write is reported, and nothing else.
  abbrev pub or_else : TraceWriter z → Option (TraceWriter z) → TraceWriter z
  or_else w none = w
  or_else w (some w') = w'

  abbrev pub write_last : Option Prev → TraceWriter z → TraceWriter z
  write_last none w = w
  write_last (some p) w = elim (last_record p) [
    | none ↦ w
    | some r ↦ or_else w (writer_write z (encode_v2 r) w)
  ]

  abbrev pub write_rest : Ending → Conv → TraceWriter z
  write_rest ended c = write_last c.prev c.writer
  write_rest broke c = write_last c.prev c.writer
  write_rest gone c = c.writer

  -- From `done:` on: the exit status and the writer.
  abbrev pub finalized : Ending × Conv → ℕ × TraceWriter z
  finalized (e, c) = let w = write_rest e c in (exit_status e, or_else w (writer_flush z true w))

  -- From the file header on, with the open output; each instruction takes a byte at least.
  unfoldable pub convert : ℕ → TraceWriter z → List ℕ → Outcome (ℕ × TraceWriter z)
  unfolding read_header convert_loop last_record writer_write writer_flush encode_v2
  convert max_insns w bs = elim (read_header bs) [
    | none ↦ exit 1
    | some (h, rest) ↦ do
      r ←
          convert_loop h max_insns (suc (length rest))
            (record { writer = w; stats = no_convert_stats; prev = none }) rest
      done (finalized r)
  ]
