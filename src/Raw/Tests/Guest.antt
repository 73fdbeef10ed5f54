-- ===== src/Raw/Tests/Guest.antt =====
-- Guests under the plugin, and the theorems at them.
use champsim_infra.Prelude.{
  ℕ, ◌≤◌, ◌≡◌, refl, sym, ap, true, false, Option, none, some, List, [], ◌∷◌, ◌++◌, length, done,
  arith,
}
use champsim_infra.Raw.Plugin.Serial.{file_header}
use champsim_infra.Raw.Plugin.State.{Config, ChunkFiles, Row, VcpuState}
use champsim_infra.Raw.Plugin.Chunks.{open_chunk, close_chunk}
use champsim_infra.Raw.Plugin.Callbacks.{PluginGlobals, insn_exec_cb}
use champsim_infra.Raw.Plugin.Contents.{GuestEvent, exec, access, Continuous, executed, handle_all}
use champsim_infra.Raw.Plugin.Contents.Run.{installed, close_chunk-handle_all}
use champsim_infra.Raw.Plugin.Windows.{Sampling, AllWindows}
use champsim_infra.Raw.Plugin.Windows.Invariant.{handle_all-AllWindows}
use champsim_infra.Raw.Pipeline.{AllGuest, convert-handle_all}
use champsim_infra.Raw.Convert.Writer.{TraceWriter}
use champsim_infra.Raw.Convert.Program.{convert}
use champsim_infra.Trace.{bytes_of}
use champsim_infra.Raw.Convert.Build.{build, directed, last_record}
use champsim_infra.Raw.Convert.Writer.{encode_v2}
use champsim_infra.Raw.Plugin.Callbacks.{mem_op_of}
use champsim_infra.Raw.Convert.Program.Stream.{AllShort, stream, encode_all, records_of, receive}
use champsim_infra.Raw.Zstd.{OutFile, feed_all, finish_all}
use champsim_infra.Raw.Plugin.Over.{chunk_files_of, NewContexts}
use champsim_infra.Raw.Tests.{
  decode, h, memory_sink, opened, stored, stored_laws, stored_fine, stored_takes, opened-IsNew,
}

-- Every file can be created.
abbrev make : ℕ → Option ℕ → Option (List ℕ)
make id chunk = some []

abbrev memory_files : ChunkFiles
memory_files = chunk_files_of stored make

make-NewContexts : NewContexts stored stored_laws make
make-NewContexts id chunk c e =
    let empty : c ≡ [] = ap (λ o. elim o [ none ↦ [] | some x ↦ x ]) (sym e) in (empty, empty)

abbrev whole : Config
whole = record {
  insn_limit = 0;
  rotate_interval = 0;
  sample_len = 0;
  sample_gap = 0;
  sample_count = 0;
  sample_clock_user = true;
  trace_arch = 0;
  capture_pa = true;
  capture_values = true;
  kernel_addr_thresh = 0xFFFF800000000000;
}

whole-Continuous : Continuous whole
whole-Continuous = record { no_limit = refl; no_rotation = refl; no_sampling = refl }

abbrev tracing : PluginGlobals
tracing = record {
  tracing_enabled = true;
  profile_mode = false;
  trigger_check_counter = 0;
  trigger_skipped_insns = 0;
  profile_total_insns = 0;
  profile_user_insns = 0;
  pa_invalid_count = 0;
  pa_io_count = 0;
  memops_dropped = 0;
}

abbrev guest : List GuestEvent
guest =
    exec (record { vaddr = 0x400000; bytes = 0xe8 ∷ 0 ∷ 0 ∷ 0 ∷ 0 ∷ [] })
    ∷ access 0x7ffc (record {
      size_shift = 3;
      is_store = true;
      hwaddr = some (0x1000, false);
      value = some (5 ∷ 0 ∷ 64 ∷ 0 ∷ 0 ∷ 0 ∷ 0 ∷ 0 ∷ []);
    })
    ∷ exec (record { vaddr = 0x400010; bytes = 0xc3 ∷ [] })
    ∷ []

abbrev started : VcpuState memory_files
started = (open_chunk memory_files whole (installed whole memory_files 0)).0

close_chunk-handle_all_example :
    (file : OutFile stored) × ((close_chunk memory_files whole
        (handle_all whole memory_files guest (tracing, started)).1).closed
      ≡ file ∷ [])
    × (some file.bytes
        ≡ some
            (file_header 0 0 true true ++ stream true 0 (executed whole memory_files none guest)))
close_chunk-handle_all_example =
    close_chunk-handle_all whole stored stored_laws stored_fine make make-NewContexts 0 [] guest
      tracing whole-Continuous refl refl refl

guest-AllGuest : AllGuest guest
guest-AllGuest = (
  (omega arith, omega arith, omega arith),
  ((omega arith, omega arith, omega arith), ((omega arith, omega arith, omega arith), tt)),
)

executed-AllShort : AllShort (
    records_of memory_sink decode h none
      (receive memory_sink decode h (executed whole memory_files none guest)))
unfolding build directed last_record encode_v2 bytes_of mem_op_of
executed-AllShort = (omega arith, (omega arith, tt))

convert-handle_all_example :
    (file : OutFile stored) × (raw : List ℕ) × (out : TraceWriter memory_sink) × ((close_chunk
        memory_files whole
        (handle_all whole memory_files guest (tracing, started)).1).closed
      ≡ file ∷ [])
    × (some file.bytes ≡ some raw)
    × (convert memory_sink decode 0 opened raw ≡ done (0, out))
    × (some out.sink.bytes
        ≡ some (
            encode_all (
              records_of memory_sink decode h none
                (receive memory_sink decode h (executed whole memory_files none guest)))))
convert-handle_all_example =
    convert-handle_all whole stored stored_laws stored_fine make make-NewContexts stored stored_laws
      stored_fine stored_takes decode 0 [] guest tracing opened whole-Continuous refl refl refl
      (omega arith) (omega arith) guest-AllGuest opened-IsNew executed-AllShort

abbrev sampled : Config
sampled = record whole { sample_len = 1; sample_gap = 1; sample_clock_user = false }

sampled-Sampling : Sampling sampled memory_files
sampled-Sampling = record {
  some_length = omega arith;
  length_fits = omega arith;
  no_rotation = refl;
}

abbrev ready : VcpuState memory_files
ready = record ((open_chunk memory_files sampled (installed sampled memory_files 0)).0) {
  manifest = some [];
}

-- Four instructions: the first and the third are windows, and the second is skipped.
abbrev four_insns : List GuestEvent
four_insns =
    exec (record { vaddr = 0; bytes = 0x90 ∷ [] })
    ∷ exec (record { vaddr = 1; bytes = 0x90 ∷ [] })
    ∷ exec (record { vaddr = 2; bytes = 0x90 ∷ [] })
    ∷ exec (record { vaddr = 3; bytes = 0x90 ∷ [] })
    ∷ []

abbrev in_the_gap : VcpuState memory_files
in_the_gap = (handle_all sampled memory_files four_insns (tracing, ready)).1

abbrev listed_rows : List Row
listed_rows =
    record { index = 0; start_insn = 0; insn_count = 1; comp_bytes = 29 }
    ∷ record { index = 1; start_insn = 2; insn_count = 1; comp_bytes = 29 }
    ∷ []

handle_all-AllWindows_example :
    AllWindows sampled memory_files listed_rows
    × ((last : List Row) × ((close_chunk memory_files sampled
            (handle_all sampled memory_files four_insns (tracing, ready)).1).manifest
          ≡ some (listed_rows ++ last))
        × (length last ≤ 1))
unfolding insn_exec_cb open_chunk feed_all finish_all
handle_all-AllWindows_example =
    handle_all-AllWindows sampled memory_files sampled-Sampling four_insns (tracing, ready)
      listed_rows refl refl refl refl refl

-- The guest ends in a gap: plugin_atexit closes the chunk again, and the last window is listed twice.
listed_twice :
    (close_chunk memory_files sampled in_the_gap).manifest
    ≡ some
        (listed_rows ++ record { index = 1; start_insn = 2; insn_count = 1; comp_bytes = 29 } ∷ [])
unfolding close_chunk insn_exec_cb open_chunk feed_all finish_all
listed_twice = refl
