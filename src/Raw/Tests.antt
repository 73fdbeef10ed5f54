-- ===== src/Raw/Tests.antt =====
-- Raw traces, and the theorems at them.
mod Guest
mod Idle
use champsim_infra.Prelude.{
  ℕ, ◌^◌, ◌≡◌, ◌≢◌, ◌⊎◌, inl, inr, refl, sym, ap, subst, ◌∙◌, take, take-length, Option, false,
  Bool, true, none, some, List, [], ◌∷◌, ◌++◌, length, get_or, ◌==◌, ◌&&◌, ◌<◌, ◌≤◌, not,
  if◌then◌else◌, replicate, done, arith,
}
use champsim_infra.Trace.{bytes_of, InstrV2, decode_v2}
use champsim_infra.Sanity.Stats.Step.{branch_type, truthy}
use champsim_infra.Sanity.Stats.Counting.{count}
use champsim_infra.Sanity.Stats.Totals.{walk_branches}
use champsim_infra.Raw.Record.{MemOp, Insn}
use champsim_infra.Raw.Plugin.Serial.{insn_bytes, file_header}
use champsim_infra.Raw.Convert.Parse.{Header, next_insn, found}
use champsim_infra.Raw.Convert.Parse.RoundTrip.{Fits, received, next_insn-insn_bytes}
use champsim_infra.Raw.Convert.Build.{
  Decoded, build, directed, last_record, direction_is_known_taken,
}
use champsim_infra.Raw.Convert.Writer.{Sink, TraceWriter, encode_v2, writer_flush}
use champsim_infra.Raw.Convert.Writer.Over.{sink_of, TakesAll, IsNew}
use champsim_infra.Raw.Filter.Writer.Over.{compressor_of, IsNewOutput}
use champsim_infra.Raw.Zstd.{Zstd, ZstdLaws, NoFailure, OutFile, continue_once}
use champsim_infra.Cutter.Codec.{Call}
use champsim_infra.Sanity.Checks.{sum_unconditional}
use champsim_infra.Raw.Convert.Layout.{Shaped, decode_v2-encode_v2}
use champsim_infra.Raw.Convert.Program.{convert}
use champsim_infra.Raw.Convert.Program.Stream.{
  stream, AllFit, AllShort, encode_all, records_of, receive, convert-stream,
}
use champsim_infra.Raw.Convert.Program.Truncated.{cut_record, convert-cut_record}
use champsim_infra.Raw.Convert.Sound.{walk_branches-records_of}
use champsim_infra.Raw.Filter.Idle.{
  IdleBuffer, idle_buffer_init, idle_buffer_reset, idle_buffer_append, slot_bytes,
}
use champsim_infra.Raw.Filter.Idle.Slots.{
  append_all, slot_bytes-append_all, Roomy, idle_buffer_append-Roomy,
}
use champsim_infra.Raw.Filter.Writer.{Compressor, FilterWriter}
use champsim_infra.Raw.Filter.Machine.{Filter}
use champsim_infra.Raw.Filter.Program.{trace_filter}
use champsim_infra.Raw.Filter.Program.Whole.{without_idle, trace_filter-stream, trace_filter-again}

-- A call in user mode that stores a value, two idle loops in the kernel, and a return.
abbrev store : MemOp
store = record {
  address = 0x7ffc;
  paddr = 0x1000;
  size = 8;
  flags = 7;
  value = 0x12 ∷ 0x34 ∷ replicate 62 0;
}

abbrev call : Insn
call = record {
  privilege = 0;
  ip = 0x400000;
  bytes = 0xe8 ∷ 0 ∷ 0 ∷ 0 ∷ 0 ∷ [];
  mem_ops = store ∷ [];
}

abbrev hlt : Insn
hlt = record { privilege = 1; ip = 0x8000; bytes = 0xf4 ∷ []; mem_ops = [] }

abbrev spin : Insn
spin = record { privilege = 1; ip = 0x8001; bytes = 0xeb ∷ 0xfd ∷ []; mem_ops = [] }

abbrev ret : Insn
ret = record { privilege = 0; ip = 0x400010; bytes = 0xc3 ∷ []; mem_ops = [] }

abbrev insns : List Insn
insns = call ∷ hlt ∷ spin ∷ hlt ∷ ret ∷ []

abbrev decode : ℕ → List ℕ → Decoded
decode arch bs =
    if get_or bs 0 0 == 0xe8
    then record {
      ok = true;
      branch_code = 4;
      instr_type = 0;
      src_regs = 6 ∷ 26 ∷ [];
      dst_regs = 6 ∷ 26 ∷ [];
    }
    else record { ok = true; branch_code = 0; instr_type = 0; src_regs = []; dst_regs = [] }

abbrev h : Header
h = record { arch = 0; has_pa = true; has_vals = true }

-- A zstd that stores: it takes all it is given, and gives it out at once.
abbrev stored : Zstd
stored = record {
  Ctx = List ℕ;
  compress =
      λ e c src. some (record { ctx = c ++ src; consumed = length src; produced = src; rc = 0 });
  most_pending = 0;
  fwrite = λ file out. length out;
}

abbrev of_call : Option (Call (List ℕ)) → Call (List ℕ)
of_call none = record { ctx = []; consumed = 0; produced = []; rc = 0 }
of_call (some r) = r

stored_call :
    (e : Bool) (c src : List ℕ) (r : Call (List ℕ))
    → stored.compress e c src ≡ some r
    → record { ctx = c ++ src; consumed = length src; produced = src; rc = 0 } ≡ r
stored_call e c src r ran = ap of_call ran

stored_take :
    (e : Bool) (c src : List ℕ) (r : Call (List ℕ))
    → stored.compress e c src ≡ some r
    → take r.consumed src ≡ src
stored_take e c src r ran =
    ap (λ r. take r.consumed src) (sym (stored_call e c src r ran)) ∙ take-length src

stored_progress :
    (c src : List ℕ) (r : Call (List ℕ))
    → stored.compress false c src ≡ some r
    → src ≢ []
    → (0 < r.consumed) ⊎ (0 < 0)
stored_progress c [] r ran ne = absurd (ne refl)
stored_progress c (b ∷ bs) r ran ne =
    inl (subst (λ r. 0 < r.consumed) (stored_call false c (b ∷ bs) r ran) (omega arith))

abbrev stored_laws : ZstdLaws stored
stored_laws = record {
  fed = λ c. c;
  emitted = λ c. c;
  pending = λ c. 0;
  decode = λ bs. some bs;
  pending_bound = λ c. omega arith;
  fed-compress = λ e c src r ran.
      ap (λ r. r.ctx) (sym (stored_call e c src r ran))
      ∙ ap (λ bs. c ++ bs) (sym (stored_take e c src r ran));
  emitted-compress = λ e c src r ran.
      ap (λ r. r.ctx) (sym (stored_call e c src r ran))
      ∙ ap (λ r. c ++ r.produced) (stored_call e c src r ran);
  progress-continue = stored_progress;
  progress-end =
      λ c src r ran more. absurd (more (ap (λ r. r.rc) (sym (stored_call true c src r ran))));
  complete-end = λ c src r ran e. (stored_take true c src r ran, refl);
}

abbrev stored_fine : NoFailure stored
stored_fine = record {
  no_error =
      λ e c src. (record { ctx = c ++ src; consumed = length src; produced = src; rc = 0 }, refl);
  no_short_write = λ file out. refl;
}

abbrev stored_takes : TakesAll stored
stored_takes = λ c src r short ran. stored_take false c src r ran

abbrev memory_sink : Sink
memory_sink = sink_of stored

abbrev memory : Compressor
memory = compressor_of stored

abbrev fresh : FilterWriter memory
fresh = record { inbuf = []; sink = record { ctx = []; bytes = [] } }

abbrev opened : TraceWriter memory_sink
opened = record { in_buf = []; sink = record { ctx = []; bytes = [] }; total_written = 0 }

fresh-IsNew : IsNewOutput stored stored_laws fresh
fresh-IsNew = record { no_bytes = refl; nothing_fed = refl; sound = refl }

opened-IsNew : IsNew stored stored_laws opened
opened-IsNew = record { no_bytes = refl; nothing_fed = refl; sound = refl }

-- A zstd that takes one byte of its input in a call.
abbrev one_byte : Zstd
one_byte = record {
  Ctx = List ℕ;
  compress = λ e c src.
      some (record { ctx = c ++ take 1 src; consumed = 1; produced = take 1 src; rc = 0 });
  most_pending = 0;
  fwrite = λ file out. length out;
}

-- writer_flush makes one call of it, and the second byte is lost.
second_byte_lost :
    writer_flush
      (sink_of one_byte)
      false
      (record { in_buf = 1 ∷ 2 ∷ []; sink = record { ctx = []; bytes = [] }; total_written = 2 })
    ≡ some
        (record { in_buf = []; sink = record { ctx = 1 ∷ []; bytes = 1 ∷ [] }; total_written = 2 })
unfolding writer_flush continue_once
second_byte_lost = refl

call-Fits : Fits true call
call-Fits = record {
  privilege_fits = omega arith;
  ip_fits = omega arith;
  some_bytes = omega arith;
  few_bytes = omega arith;
  few_ops = omega arith;
  ops_fit = (
    record {
      address_fits = omega arith;
      paddr_fits = omega arith;
      size_fits = omega arith;
      flags_fit = omega arith;
      array = refl;
      announced = refl;
    },
    tt,
  );
}

-- An instruction without memory operands.
plain-Fits :
    (privilege ip : ℕ) (bytes : List ℕ)
    → privilege < 2
    → ip < 2 ^ 64
    → 0 < length bytes
    → length bytes ≤ 15
    → Fits true (record { privilege = privilege; ip = ip; bytes = bytes; mem_ops = [] })
plain-Fits privilege ip bytes a b c d = record {
  privilege_fits = a;
  ip_fits = b;
  some_bytes = c;
  few_bytes = d;
  few_ops = omega arith;
  ops_fit = tt;
}

hlt-Fits : Fits true hlt
hlt-Fits = plain-Fits 1 0x8000 (0xf4 ∷ []) (omega arith) (omega arith) (omega arith) (omega arith)

spin-Fits : Fits true spin
spin-Fits =
    plain-Fits 1 0x8001 (0xeb ∷ 0xfd ∷ []) (omega arith) (omega arith) (omega arith) (omega arith)

ret-Fits : Fits true ret
ret-Fits = plain-Fits 0 0x400010 (0xc3 ∷ []) (omega arith) (omega arith) (omega arith) (omega arith)

insns-AllFit : AllFit true insns
insns-AllFit = (call-Fits, (hlt-Fits, (spin-Fits, (hlt-Fits, (ret-Fits, tt)))))

next_insn-insn_bytes_example :
    next_insn h (insn_bytes true 0 call ++ (0 ∷ [])) ≡ found (received true call) (0 ∷ [])
next_insn-insn_bytes_example = next_insn-insn_bytes h 0 call (0 ∷ []) call-Fits

converted-AllShort :
    AllShort (records_of memory_sink decode h none (receive memory_sink decode h insns))
unfolding build directed last_record encode_v2 bytes_of
converted-AllShort = (omega arith, (omega arith, (omega arith, (omega arith, (omega arith, tt)))))

convert-stream_example :
    (w : TraceWriter memory_sink) × (convert memory_sink decode 0 opened
        (file_header 0 0 true true ++ stream true 0 insns)
      ≡ done (0, w))
    × (some w.sink.bytes
        ≡ some (
            encode_all (records_of memory_sink decode h none (receive memory_sink decode h insns))))
convert-stream_example =
    convert-stream stored decode stored_laws stored_fine stored_takes 0 0 true true insns opened
      (omega arith) (omega arith) insns-AllFit opened-IsNew converted-AllShort

abbrev record_of_call : InstrV2
record_of_call = (build (decode 0 call.bytes) call).rec

call-Shaped : Shaped record_of_call
unfolding build
call-Shaped = record {
  ip_fits = omega arith;
  destination_registers_length = refl;
  source_registers_length = refl;
  destination_memory_length = refl;
  destination_memory_fits = (omega arith, (omega arith, tt));
  source_memory_length = refl;
  source_memory_fits = (omega arith, (omega arith, (omega arith, (omega arith, tt))));
  destination_memory_pa_length = refl;
  destination_memory_pa_fits = (omega arith, (omega arith, tt));
  source_memory_pa_length = refl;
  source_memory_pa_fits = (omega arith, (omega arith, (omega arith, (omega arith, tt))));
  source_memory_size_length = refl;
  destination_memory_size_length = refl;
  reserved_length = refl;
  source_memory_value_length = refl;
  source_memory_value_long = (refl, (refl, (refl, (refl, tt))));
  destination_memory_value_length = refl;
  destination_memory_value_long = (refl, (refl, tt));
}

decode_v2-encode_v2_example : decode_v2 (encode_v2 record_of_call) ≡ record_of_call
decode_v2-encode_v2_example = decode_v2-encode_v2 record_of_call call-Shaped

abbrev converted : List InstrV2
converted = records_of memory_sink decode h none insns

five : length converted < 2 ^ 64
unfolding build directed last_record
five = omega arith

walk_branches-records_of_example :
    ((walk_branches converted).explicit_bt_records ≡ length converted)
    × ((walk_branches converted).call_ret_not_flagged ≡ 0)
    × (sum_unconditional 0 (walk_branches converted).btype_taken 0
        ≡ sum_unconditional 0 (walk_branches converted).btype_hist 0)
walk_branches-records_of_example = walk_branches-records_of memory_sink decode h insns five

trace_filter-stream_example :
    (f : Filter memory) × (w : FilterWriter memory) × (trace_filter memory
        (some fresh)
        (file_header 0 0 true true ++ stream true 0 insns)
      ≡ done f)
    × (f.writer ≡ some w)
    × (some w.sink.bytes ≡ some (file_header 0 0 true true ++ stream true 0 (without_idle insns)))
trace_filter-stream_example =
    trace_filter-stream stored stored_laws stored_fine 0 true true insns fresh insns-AllFit
      fresh-IsNew

trace_filter-again_example :
    (f : Filter memory) × (w : FilterWriter memory) × (g : Filter memory) × (w' : FilterWriter
      memory)
    × (out : List ℕ) × (trace_filter memory
          (some fresh)
          (file_header 0 0 true true ++ stream true 0 insns)
        ≡ done f)
    × (f.writer ≡ some w)
    × (some w.sink.bytes ≡ some out)
    × (trace_filter memory (some fresh) out ≡ done g)
    × (g.writer ≡ some w')
    × (some w'.sink.bytes ≡ some out)
trace_filter-again_example =
    trace_filter-again stored stored_laws stored_fine 0 true true insns fresh insns-AllFit
      fresh-IsNew

-- The second HLT and what follows it stay.
filtered : without_idle insns ≡ call ∷ hlt ∷ ret ∷ []
filtered = refl

abbrev buffered_records : List (List ℕ × Bool)
buffered_records = (1 ∷ 2 ∷ [], true) ∷ (3 ∷ [], true) ∷ []

slot_bytes-append_all_example :
    let c : IdleBuffer = append_all buffered_records (idle_buffer_reset idle_buffer_init) in
    slot_bytes c.bytes c.offsets c.lengths ≡ (1 ∷ 2 ∷ []) ∷ (3 ∷ []) ∷ []
slot_bytes-append_all_example = slot_bytes-append_all idle_buffer_init buffered_records

init-Roomy : Roomy idle_buffer_init
init-Roomy = record {
  bytes_room = omega arith;
  some_bytes = omega arith;
  slots_room = omega arith;
  some_slots = omega arith;
}

idle_buffer_append-Roomy_example : Roomy (idle_buffer_append (1 ∷ 2 ∷ []) true idle_buffer_init)
idle_buffer_append-Roomy_example =
    idle_buffer_append-Roomy idle_buffer_init (1 ∷ 2 ∷ []) true init-Roomy

-- Of the last return, three bytes of the IP are left.
convert-cut_record_example :
    (w : TraceWriter memory_sink) × (convert memory_sink decode 0 opened
        (file_header 0 0 true true ++ (stream true 0 insns ++ cut_record h 0 ret (1 ∷ 2 ∷ 3 ∷ [])))
      ≡ done (1, w))
    × (some w.sink.bytes
        ≡ some (
            encode_all (records_of memory_sink decode h none (receive memory_sink decode h insns))))
convert-cut_record_example =
    convert-cut_record stored decode stored_laws stored_fine stored_takes 0 0 true true insns ret
      (1 ∷ 2 ∷ 3 ∷ []) opened (omega arith) (omega arith) insns-AllFit ret-Fits (omega arith)
      opened-IsNew converted-AllShort
