-- ===== src/Raw/Pipeline.antt =====
-- From the guest to the trace of ChampSim: the plugin's file through the converter.
use champsim_infra.Prelude.{
  ℕ, ◌^◌, ◌<◌, ◌≤◌, ◌≡◌, refl, sym, ap, subst, ◌∙◌, ◌&&◌, not, Bool, true, false, Bool-cases, inl,
  inr, Option, none, some, List, [], ◌∷◌, ◌++◌, length, length-append, length-drop,
  length-replicate, replicate, drop, leb, if◌then◌else◌, done, arith,
}
use champsim_infra.Raw.Record.{Insn, MemOp, max_mem_ops, has_value}
use champsim_infra.Raw.Plugin.State.{Config, ChunkFiles, VcpuState}
use champsim_infra.Raw.Plugin.Chunks.{open_chunk, close_chunk}
use champsim_infra.Raw.Plugin.Callbacks.{
  InsnMeta, MemInfo, PluginGlobals, mem_op_of, memop_flags, looked_up, value_read, is_some,
  paddr_of, extracted, access_size, value_api_cap,
}
use champsim_infra.Raw.Plugin.Contents.{
  GuestEvent, exec, access, Continuous, with_access, insn_of, executed, handle_all,
}
use champsim_infra.Raw.Plugin.Contents.Run.{installed, close_chunk-handle_all}
use champsim_infra.Raw.Convert.Parse.{Header}
use champsim_infra.Raw.Convert.Parse.RoundTrip.{FitsOp, FitOps, Fits}
use champsim_infra.Raw.Convert.Build.{Decoded}
use champsim_infra.Raw.Convert.Writer.{TraceWriter}
use champsim_infra.Raw.Zstd.{Zstd, ZstdLaws, NoFailure, OutFile}
use champsim_infra.Raw.Plugin.Over.{chunk_files_of, NewContexts}
use champsim_infra.Raw.Convert.Writer.Over.{sink_of, TakesAll, IsNew}
use champsim_infra.Raw.Convert.Program.{convert}
use champsim_infra.Raw.Convert.Program.Stream.{
  AllFit, AllShort, encode_all, records_of, receive, convert-stream,
}

-- What QEMU promises of an instruction and of an access: 64-bit addresses, an instruction of at least
-- one byte, and a value of at most 64 bytes.
abbrev pub IsAddress : Option (ℕ × Bool) → Type 0
IsAddress none = Unit
IsAddress (some (pa, io)) = pa < 2 ^ 64

abbrev pub IsShort : Option (List ℕ) → Type 0
IsShort none = Unit
IsShort (some bytes) = length bytes ≤ 64

abbrev pub IsGuest : GuestEvent → Type 0
IsGuest (exec m) = (m.vaddr < 2 ^ 64) × (0 < length m.bytes) × (length m.bytes ≤ 15)
IsGuest (access vaddr a) = (vaddr < 2 ^ 64) × IsAddress a.hwaddr × IsShort a.value

abbrev pub AllGuest : List GuestEvent → Type 0
AllGuest [] = Unit
AllGuest (e ∷ es) = IsGuest e × AllGuest es

module _ (k : Config) where
  length-extracted : (o : Option (List ℕ)) → IsShort o → length (extracted o) ≡ 64
  length-extracted none h = refl
  length-extracted (some bytes) h = omega (
    arith,
    length-append bytes (drop (length bytes) (replicate 64 0)),
    length-drop {A = ℕ} (length bytes) (replicate 64 0),
    length-replicate {A = ℕ} 64 0,
    h,
  )

  value_read-IsShort : (a : MemInfo) → IsShort a.value → IsShort (value_read k a)
  value_read-IsShort a h =
      elim (Bool-cases (k.capture_values && leb (access_size a) value_api_cap)) [
        | inl e ↦ subst (λ (b : Bool). IsShort (if b then a.value else none)) (sym e) h
        | inr e ↦ subst (λ (b : Bool). IsShort (if b then a.value else none)) (sym e) tt
      ]

  address_fits : (a : MemInfo) → IsAddress a.hwaddr → paddr_of (looked_up k a) < 2 ^ 64
  address_fits a h = by (k.capture_pa) (a.hwaddr) h
    where
      by :
          (b : Bool) (o : Option (ℕ × Bool))
          → IsAddress o
          → paddr_of (if b then o else none) < 2 ^ 64
      by true none h = omega arith
      by true (some (pa, io)) h = h
      by false o h = omega arith

  flags_fit : (w v : Bool) (o : Option (ℕ × Bool)) → memop_flags w v o < 256
  flags_fit w v none = ground (arith)
  flags_fit w v (some (pa, io)) = ground (arith)

  valued_bit : (w v : Bool) (o : Option (ℕ × Bool)) → has_value (memop_flags w v o) ≡ v
  valued_bit true true none = refl
  valued_bit true false none = refl
  valued_bit false true none = refl
  valued_bit false false none = refl
  valued_bit true true (some (pa, true)) = refl
  valued_bit true false (some (pa, true)) = refl
  valued_bit false true (some (pa, true)) = refl
  valued_bit false false (some (pa, true)) = refl
  valued_bit true true (some (pa, false)) = refl
  valued_bit true false (some (pa, false)) = refl
  valued_bit false true (some (pa, false)) = refl
  valued_bit false false (some (pa, false)) = refl

  only_captured : (a : MemInfo) → (is_some (value_read k a) && not k.capture_values) ≡ false
  only_captured a = by k.capture_values (leb (access_size a) value_api_cap) a.value
    where
      by :
          (c b : Bool) (o : Option (List ℕ))
          → (is_some (if c && b then o else none) && not c) ≡ false
      by false b o = refl
      by true true none = refl
      by true true (some bytes) = refl
      by true false o = refl

  mem_op_of-FitsOp :
      (vaddr : ℕ) (a : MemInfo)
      → IsGuest (access vaddr a)
      → FitsOp k.capture_values (mem_op_of k vaddr a)
  unfolding mem_op_of
  mem_op_of-FitsOp vaddr a h = record {
    address_fits = h.0;
    paddr_fits = address_fits a h.1;
    size_fits = omega arith;
    flags_fit = flags_fit a.is_store (is_some (value_read k a)) (looked_up k a);
    array = length-extracted (value_read k a) (value_read-IsShort a h.2);
    announced =
        ap (λ (b : Bool). b && not k.capture_values)
          (valued_bit a.is_store (is_some (value_read k a)) (looked_up k a))
        ∙ only_captured a;
  }

  FitOps-append :
      (vals : Bool) (ms : List MemOp) (m : MemOp)
      → FitOps vals ms
      → FitsOp vals m
      → FitOps vals (ms ++ m ∷ [])
  FitOps-append vals [] m f g = (g, tt)
  FitOps-append vals (n ∷ ms) m f g = (f.0, FitOps-append vals ms m f.1 g)

  with_access-Fits :
      (vaddr : ℕ) (a : MemInfo) (i : Insn)
      → IsGuest (access vaddr a)
      → Fits k.capture_values i
      → Fits k.capture_values (with_access k vaddr a i)
  with_access-Fits vaddr a i h f = elim (Bool-cases (leb max_mem_ops (length i.mem_ops))) [
    | inl e ↦ subst (λ (b : Bool). Fits k.capture_values (if b then i else larger)) (sym e) f
    | inr e ↦
        subst (λ (b : Bool). Fits k.capture_values (if b then i else larger)) (sym e)
          record {
            privilege_fits = f.privilege_fits;
            ip_fits = f.ip_fits;
            some_bytes = f.some_bytes;
            few_bytes = f.few_bytes;
            few_ops = ground (arith, e, length-append i.mem_ops (mem_op_of k vaddr a ∷ []));
            ops_fit =
                FitOps-append k.capture_values i.mem_ops _ f.ops_fit (mem_op_of-FitsOp vaddr a h);
          }
  ]
    where
      larger : Insn
      larger = record i { mem_ops = i.mem_ops ++ mem_op_of k vaddr a ∷ [] }

  module _ (z : ChunkFiles) where
    insn_of-Fits : (m : InsnMeta) → IsGuest (exec m) → Fits k.capture_values (insn_of k z m)
    insn_of-Fits m h = record {
      privilege_fits = ground (arith);
      ip_fits = h.0;
      some_bytes = h.1;
      few_bytes = h.2;
      few_ops = omega arith;
      ops_fit = tt;
    }

    abbrev FitsPending : Option Insn → Type 0
    FitsPending none = Unit
    FitsPending (some i) = Fits k.capture_values i

    executed-AllFit :
        (p : Option Insn) (es : List GuestEvent)
        → FitsPending p
        → AllGuest es
        → AllFit k.capture_values (executed k z p es)
    executed-AllFit none [] f g = tt
    executed-AllFit (some i) [] f g = (f, tt)
    executed-AllFit none (exec m ∷ es) f g =
        executed-AllFit (some (insn_of k z m)) es (insn_of-Fits m g.0) g.1
    executed-AllFit (some i) (exec m ∷ es) f g =
        (f, executed-AllFit (some (insn_of k z m)) es (insn_of-Fits m g.0) g.1)
    executed-AllFit none (access vaddr a ∷ es) f g = executed-AllFit none es tt g.1
    executed-AllFit (some i) (access vaddr a ∷ es) f g =
        executed-AllFit (some (with_access k vaddr a i)) es (with_access-Fits vaddr a i g.0 f) g.1

module _ (k : Config) (z : Zstd) (laws : ZstdLaws z) (fine : NoFailure z)
    (make : ℕ → Option ℕ → Option z.Ctx) (new : NewContexts z laws make) (y : Zstd)
    (sink_laws : ZstdLaws y) (sink_fine : NoFailure y) (takes : TakesAll y)
    (decode : ℕ → List ℕ → Decoded) where
  -- The whole way of a guest that is captured into one file, if no call of zstd fails, no write is
  -- short, every call with ZSTD_e_continue of the converter takes its whole input where that is at most
  -- 8 MB, and no record is larger: the plugin's file
  -- decompresses to a raw trace that is converted with exit status 0, and the new output decompresses to
  -- the records of the executed instructions, in order, each with its direction from the next one.
  pub convert-handle_all :
      (id : ℕ) (c : z.Ctx) (es : List GuestEvent) (g : PluginGlobals)
      (out : TraceWriter (sink_of y))
      → Continuous k
      → make id none ≡ some c
      → g.tracing_enabled ≡ true
      → g.profile_mode ≡ false
      → id < 2 ^ 32
      → k.trace_arch < 2
      → AllGuest es
      → IsNew y sink_laws out
      → let files : ChunkFiles = chunk_files_of z make in
        let vs : VcpuState files = (open_chunk files k (installed k files id)).0 in
        let h : Header = record {
          arch = k.trace_arch;
          has_pa = k.capture_pa;
          has_vals = k.capture_values;
        } in
        AllShort (
          records_of
            (sink_of y)
            decode
            h
            none
            (receive (sink_of y) decode h (executed k files none es)))
        → (file : OutFile z) × (raw : List ℕ) × (out' : TraceWriter (sink_of y)) × ((close_chunk
              files k
              (handle_all k files es (g, vs)).1).closed
            ≡ file ∷ [])
          × (laws.decode file.bytes ≡ some raw)
          × (convert (sink_of y) decode 0 out raw ≡ done (0, out'))
          × (sink_laws.decode out'.sink.bytes
              ≡ some (
                  encode_all (
                    records_of
                      (sink_of y)
                      decode
                      h
                      none
                      (receive (sink_of y) decode h (executed k files none es)))))
  convert-handle_all id c es g out plain made on off small known guest fresh short =
      let files : ChunkFiles = chunk_files_of z make in
      let (file, closes, content) =
        close_chunk-handle_all k z laws fine make new id c es g plain made on off in
      let (out', ran, ends) =
        convert-stream y decode sink_laws sink_fine takes id k.trace_arch k.capture_pa
          k.capture_values (executed k files none es) out small known
          (executed-AllFit k files none es tt guest) fresh short in
      (file, _, out', closes, content, ran, ends)
