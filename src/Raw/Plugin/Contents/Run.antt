-- ===== src/Raw/Plugin/Contents/Run.antt =====
-- A run of the guest under the plugin, from the creation of the file to its end.
use champsim_infra.Prelude.{
  ℕ, ◌≡◌, refl, sym, ap, ap₂, subst, ◌∙◌, ◌||◌, Bool, true, false, Bool-cases, inl, inr, Option,
  none, some, List, [], ◌∷◌, ◌++◌, append-nil, append_assoc, ltb, is_empty, if◌then◌else◌, arith,
}
use champsim_infra.Trace.{bytes_of}
use champsim_infra.Raw.Record.{Insn}
use champsim_infra.Raw.Plugin.Serial.{insn_bytes, file_header}
use champsim_infra.Raw.Plugin.State.{Config, ChunkFiles, VcpuState}
use champsim_infra.Raw.Plugin.Chunks.{
  flush_buffer, flush_into, flush_final, finish_into, buffer_append, finalize_pending_insn,
  open_chunk, begun_chunk, close_chunk, closed_with, start_of,
}
use champsim_infra.Raw.Zstd.{Zstd, ZstdLaws, NoFailure, OutFile}
use champsim_infra.Raw.Zstd.Content.{other_than, unmarked}
use champsim_infra.Raw.Plugin.Over.{created, chunk_files_of, NewContexts, chunk_laws_of}
use champsim_infra.Raw.Plugin.Callbacks.{PluginGlobals}
use champsim_infra.Raw.Plugin.Contents.{
  GuestEvent, exec, access, Continuous, ChunkLaws, insn_of, executed, handle, handle_all, Written,
  pending_bytes, finalize-Written, buffer_append-Written, flush_buffer-Written,
}
use champsim_infra.Raw.Convert.Program.Stream.{stream}
use champsim_infra.Raw.Plugin.Contents.Step.{Live, accessed, exec-Live, access-Live}

module _ (k : Config) (z : ChunkFiles) where
  -- The state of a vCPU that plugin install sets up, with no chunk yet.
  abbrev pub installed : ℕ → VcpuState z
  installed id = record {
    inbuf = [];
    chunk = none;
    closed = [];
    vcpu_id = id;
    pending = none;
    insn_count = 0;
    mem_op_count = 0;
    values_captured = 0;
    bytes_uncompressed = 0;
    bytes_compressed = 0;
    limit_reached = false;
    chunk_index = 0;
    chunk_insn_count = 0;
    chunk_start_insn = 0;
    chunk_bytes_at_open = 0;
    manifest = none;
    sample_skipping = false;
    sample_phase_insns = 0;
    sample_windows_done = 0;
    sample_finished = false;
    stream_insns = 0;
  }

module _ (k : Config) (z : ChunkFiles) (laws : ChunkLaws z) where
  abbrev closing_bytes : ℕ → Option Insn → List GuestEvent → List ℕ
  closing_bytes id p es = stream k.capture_pa id (executed k z p es)

  empty-nil : (xs : List ℕ) → is_empty xs ≡ true → xs ≡ []
  empty-nil [] e = refl
  empty-nil (x ∷ xs) e = ground (arith, e)

  flush_buffer-empty :
      (vs : VcpuState z) (w : z.W) → vs.chunk ≡ some w → (flush_buffer z k vs).inbuf ≡ []
  unfolding flush_buffer
  flush_buffer-empty vs w e =
      ap
        (λ o.
          (elim o as (λ x. VcpuState z) [
            | none ↦ vs
            | some w ↦ if is_empty vs.inbuf then vs else flush_into z k vs (z.feed vs.inbuf w)
          ]).inbuf)
        e
      ∙ elim (Bool-cases (is_empty vs.inbuf)) [
        | inl t ↦
            ap (λ (b : Bool). (if b then vs else flush_into z k vs (z.feed vs.inbuf w)).inbuf) t
            ∙ empty-nil vs.inbuf t
        | inr f ↦
            ap (λ (b : Bool). (if b then vs else flush_into z k vs (z.feed vs.inbuf w)).inbuf) f
      ]

  closed-Written :
      (vs : VcpuState z) (id : ℕ) (c : List z.W) (p : Option Insn) (v : List ℕ)
      → vs.pending ≡ p
      → Written k z laws vs id c v
      → (w : z.W) × ((close_chunk z k vs).closed ≡ c ++ w ∷ [])
        × (laws.decoded w ≡ some (v ++ pending_bytes k z laws id p))
  unfolding close_chunk flush_final
  closed-Written vs id c p v e h =
      let v' : List ℕ = v ++ pending_bytes k z laws id p in
      let vs1 : VcpuState z = finalize_pending_insn z k vs in
      let first : Written k z laws vs1 id c v' = finalize-Written k z laws vs id c v p e h in
      let vs2 : VcpuState z = flush_buffer z k vs1 in
      let g : Written k z laws vs2 id c v' = flush_buffer-Written k z laws vs1 id c v' first in
      let w : z.W = (z.finish g.file).0 in
      let final : Option z.W → VcpuState z = λ o. elim o as (λ x. VcpuState z) [
        | none ↦ vs2
        | some w ↦ finish_into z k vs2 (z.finish w)
      ] in
      (
        w,
        ap (λ o. closed_with z k (final o).chunk (final o).closed) g.is_open
            ∙ ap (λ ws. ws ++ w ∷ []) g.before,
        laws.decoded-finish g.file
            ∙ ap (λ v. some v)
                (sym (append-nil (laws.fed g.file))
                  ∙ ap (λ bs. laws.fed g.file ++ bs)
                      (sym (flush_buffer-empty vs1 first.file first.is_open))
                  ∙ g.content),
      )

  run-closed :
      (es : List GuestEvent) (s : PluginGlobals × VcpuState z) (id : ℕ) (c : List z.W)
      (p : Option Insn) (v : List ℕ)
      → Continuous k
      → (Live k z laws) s id c p v
      → (w : z.W) × ((close_chunk z k (handle_all k z es s).1).closed ≡ c ++ w ∷ [])
        × (laws.decoded w ≡ some (v ++ closing_bytes id p es))
  run-closed [] s id c p v plain h =
      let (w, last, same) = closed-Written s.1 id c p v h.pending_is h.wrote in
      (w, last, same ∙ ap (λ bs. some (v ++ bs)) (ends p))
    where
      ends : (p : Option Insn) → pending_bytes k z laws id p ≡ closing_bytes id p []
      ends none = refl
      ends (some i) = sym (append-nil (insn_bytes k.capture_pa id i))
  run-closed (exec m ∷ es) s id c p v plain h =
      let (w, last, same) =
        run-closed es (handle k z (exec m) s) id c (some (insn_of k z m))
          (v ++ pending_bytes k z laws id p) plain ((exec-Live k z laws) m s id c p v plain h) in
      (
        w,
        last,
        same
            ∙ ap (λ bs. some bs)
                (append_assoc v (pending_bytes k z laws id p)
                  (closing_bytes id (some (insn_of k z m)) es))
            ∙ ap (λ bs. some (v ++ bs)) (moves p),
      )
    where
      moves :
          (p : Option Insn)
          → pending_bytes k z laws id p ++ closing_bytes id (some (insn_of k z m)) es
            ≡ closing_bytes id p (exec m ∷ es)
      moves none = refl
      moves (some i) = refl
  run-closed (access vaddr a ∷ es) s id c p v plain h =
      let (w, last, same) =
        run-closed es (handle k z (access vaddr a) s) id c ((accessed k z laws) vaddr a p) v plain
          ((access-Live k z laws) vaddr a s id c p v h) in
      (w, last, same ∙ ap (λ bs. some (v ++ bs)) (moves p))
    where
      moves :
          (p : Option Insn)
          → closing_bytes id ((accessed k z laws) vaddr a p) es
            ≡ closing_bytes id p (access vaddr a ∷ es)
      moves none = refl
      moves (some i) = refl

  begun_chunk-Written :
      (id : ℕ) (n : Option ℕ) (w : z.W)
      → z.create id n ≡ some w
      → Written k z laws
          (begun_chunk z k w (installed k z id))
          id
          []
          (file_header id k.trace_arch k.capture_pa k.capture_values)
  begun_chunk-Written id n w e =
      buffer_append-Written k z laws
        (record (installed k z id) {
          chunk = some w;
          chunk_start_insn = start_of z k (installed k z id);
        })
        id [] [] (file_header id k.trace_arch k.capture_pa k.capture_values)
        record {
          file = w;
          is_open = refl;
          content = append-nil (laws.fed w) ∙ laws.fed-create id n w e;
          same_id = refl;
          running = refl;
          before = refl;
        }

  begun_chunk-pending : (id : ℕ) (w : z.W) → (begun_chunk z k w (installed k z id)).pending ≡ none
  unfolding buffer_append file_header bytes_of
  begun_chunk-pending id w = refl

  opened :
      (id : ℕ) (w : z.W)
      → Continuous k
      → z.create id none ≡ some w
      → (open_chunk z k (installed k z id)).0 ≡ begun_chunk z k w (installed k z id)
  unfolding open_chunk
  opened id w plain made =
      ap
        (λ o.
          (elim o as (λ x. VcpuState z × Bool) [
            | none ↦ (record (installed k z id) { inbuf = []; chunk = none }, false)
            | some w ↦ (begun_chunk z k w (installed k z id), true)
          ]).0)
        (ap (λ (b : Bool). z.create id (if b then some 0 else none))
            (ap₂ (λ a b. ltb 0 a || ltb 0 b) plain.no_rotation plain.no_sampling)
          ∙ made)

  -- The file of a run of the guest, by the laws of the files.
  pub closed-handle_all :
      (id : ℕ) (w : z.W) (es : List GuestEvent) (g : PluginGlobals)
      → Continuous k
      → z.create id none ≡ some w
      → g.tracing_enabled ≡ true
      → g.profile_mode ≡ false
      → let vs : VcpuState z = (open_chunk z k (installed k z id)).0 in
        (w' : z.W) × ((close_chunk z k (handle_all k z es (g, vs)).1).closed ≡ w' ∷ [])
        × (laws.decoded w'
            ≡ some (
                file_header id k.trace_arch k.capture_pa k.capture_values
                ++ stream k.capture_pa id (executed k z none es)))
  closed-handle_all id w es g plain made on off =
      let head : List ℕ = file_header id k.trace_arch k.capture_pa k.capture_values in
      let live : (Live k z laws) (g, begun_chunk z k w (installed k z id)) id [] none head =
        record {
          enabled = on;
          no_profile = off;
          pending_is = begun_chunk-pending id w;
          wrote = begun_chunk-Written id none w made;
        } in
      subst
        (λ vs.
          (w' : z.W) × ((close_chunk z k (handle_all k z es (g, vs)).1).closed ≡ w' ∷ [])
          × (laws.decoded w' ≡ some (head ++ stream k.capture_pa id (executed k z none es))))
        (sym (opened id w plain made))
        (run-closed es (g, begun_chunk z k w (installed k z id)) id [] none head plain live)

module _ (k : Config) (z : Zstd) (laws : ZstdLaws z) (fine : NoFailure z)
    (make : ℕ → Option ℕ → Option z.Ctx) (new : NewContexts z laws make) where
  -- A run of the guest from the installation to the end of QEMU, with tracing on from the start and
  -- everything in one file that can be created: if no call of zstd fails and no write is short, the file
  -- decompresses to the header and the records of the executed instructions, in order, each with the
  -- first seven of its memory accesses.
  pub close_chunk-handle_all :
      (id : ℕ) (c : z.Ctx) (es : List GuestEvent) (g : PluginGlobals)
      → Continuous k
      → make id none ≡ some c
      → g.tracing_enabled ≡ true
      → g.profile_mode ≡ false
      → let files : ChunkFiles = chunk_files_of z make in
        let vs : VcpuState files = (open_chunk files k (installed k files id)).0 in
        (file : OutFile z) × ((close_chunk files k (handle_all k files es (g, vs)).1).closed
          ≡ file ∷ [])
        × (laws.decode file.bytes
            ≡ some (
                file_header id k.trace_arch k.capture_pa k.capture_values
                ++ stream k.capture_pa id (executed k files none es)))
  close_chunk-handle_all id c es g plain made on off =
      let files : ChunkFiles = chunk_files_of z make in
      let out : List ℕ =
        file_header id k.trace_arch k.capture_pa k.capture_values
        ++ stream k.capture_pa id (executed k files none es) in
      let chunk_laws : ChunkLaws files = chunk_laws_of z laws fine make new (other_than out) in
      let (file, closes, ends) =
        closed-handle_all k files chunk_laws id (record { ctx = c; bytes = [] }) es g plain
          (ap (created z) made) on off in
      (file, closes, unmarked z laws file out ends)
