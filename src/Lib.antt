-- ===== src/Lib.antt =====
-- champsim-infra: tools that make, cut and check instruction traces for the ChampSim simulator.
--
-- The parts and how they interact. A trace is a file of fixed-size records (64 bytes for v1, 512 for
-- v2, 96 for cloudsuite), compressed or not. The Pin tools write it, `trace_cutter` cuts a v2 trace
-- after every N records into separately compressed files, and `trace_sanity_check` walks a trace,
-- counts what it holds and decides whether it may be used.
--
-- Prelude: what the parts share. `Outcome` is the result of a run (`done`, `exit` for std::exit,
-- `stuck` when the fuel of a loop ends), ℤ the C integers, `strtoull`, `decimal` and `decimal_padded`
-- the library calls on text, with lists of character codes for std::string, and the containers:
-- lists for std::unordered_set, association lists for std::unordered_map.
--
-- Cutter: tools/trace_cutter/trace_cutter.cpp.
--   Codec: the zstd compression context that the tool calls, and what the tool relies on.
--   Args, Naming: parse_args (getopt_long has already run) and output_path.
--   Writer: struct ChunkWriter with its open file, its context and the files it closed.
--   Chunker: the lambdas of main with the variables they capture as a record.
--   Program: the decompression loop and main; Program/Stream: the zstd decompression context.
--   Theorems: what a run promises; the proofs go through Writer/Session (one file), Chunker/Progress,
--   Emit, Blocks and Finish (the cut, for any writer) and Program/Correct (the loop).
--
-- Trace: the record formats, and how they lie in a file.
--
-- Sanity: tools/trace_sanity_check/trace_sanity_check.cpp.
--   Args: parse_args. Reader: class TraceReader over a file or a pipe, whose end and status are given.
--   Stats: struct Stats in the groups that the code updates together, update_common, and the body of
--   run_v2's loop. Run: run_v1, run_v2, run_cs. Checks: run_checks, over a parameter for double.
--   Program: main.
--
-- Tracer: tracer/pintool/pin/champsim_tracer_mt_roi_v3.cpp, the Pin tool that writes v2 traces.
--   Offsets: parse_offsets and validate_offsets. State: the knobs, struct ThreadState and the atomics.
--   Phases: finish_sample, enter_tracing, leave_tracing, HandleMarker, CheckROITransition and the two
--   FastForward callbacks, each a step on the atomics and the state of one thread. Record: the
--   callbacks that fill the record and RecordInstrCommit. Threads: ThreadStart, ThreadFini and the
--   registry; an interleaving of the threads is a sequence of events (Threads/Active). The file that
--   a thread writes is an interface, `SampleFile`.
--
-- Raw: tracer/rpoint-cs, traces of whole guests under QEMU. The plugin writes one raw record for an
-- instruction, with its bytes and its memory operands; the filter takes the idle loops of the kernel
-- out of a raw trace; the converter makes v2 records of it, for trace_sanity_check and ChampSim.
--   Zstd: the loops by which the three programs compress and write, over one call of
--   ZSTD_compressStream2 and of fwrite; a call may fail, take a part of its input or write a part.
--   Zstd/Session, what a loop comes to if nothing fails; Zstd/Content, the content of a file. A writer
--   is written over an interface, which its module Over fills with these loops.
--   Bytes: reader_read_exact on what is left of the input. Record: the record and its header word.
--   Plugin (plugin/champsim_tracer.c): Serial, the bytes of a record and of the header of a chunk;
--   State, the options and VcpuState; Chunks, flush_buffer to close_chunk; Callbacks, insn_exec_cb
--   and mem_cb with the trigger, and sampling as parts that return or go on; Contents, the run of a
--   guest as a list of events; Windows, the invariant of periodic sampling.
--   Pipeline: the plugin's file through the converter.
--   Convert (converter/raw2champsim.c): Parse, the file header and the records; Build, the v2 record
--   and the branch directions; Writer, struct TraceWriter and the 512 bytes of a record; Program, the
--   main loop to the exit status; Layout and Sound, what trace_sanity_check makes of the records.
--   Filter (plugin/trace_filter.c): Framing, the extent of a record; Idle, struct IdleBuffer; Machine,
--   the ACTIVE/IDLE_CANDIDATE states with the statistics; Writer; Program, main; Keep, the rule that
--   the machine implements.
--
-- Bounds and fuel. Counters are numbers modulo 2 ^ 64, part numbers modulo 2 ^ 32, and the theorems
-- say below which size they do not wrap. `feed_fuel` bounds the calls of the compressor by the bytes
-- to feed and the output it can hold back, since each call makes progress on one of them;
-- `decompress_fuel` bounds those of the decompressor in the same way; a heartbeat loop has one round
-- more than there are records; the read loops of the checker, the converter and the filter have one
-- round more than there are bytes; `rounds` bounds the calls of the compress loops under Raw as
-- `feed_fuel` does; the loop that doubles the idle buffer has one for each byte.
-- The theorems show that these are enough: none of them allows `stuck`.
--
-- Not modelled: the messages and statistics that are printed, timing, getopt_long, the release of
-- memory and maps, the instrumentation of the Pin tool and its older version, the RocksDB driver,
-- the options of the QEMU plugin, the filter and the converter, the instruction decoders (a parameter
-- of the converter), the inspector and the database benchmarks. zstd, the file system, Pin, QEMU, the
-- decompressor behind a pipe and IEEE 754 arithmetic are parameters.
pub mod Prelude
pub mod Cutter
pub mod Trace
pub mod Sanity
pub mod Tracer
pub mod Raw
