-- ===== src/Raw/Filter/Program/Whole.antt =====
-- A file of the plugin through the filter.
use champsim_infra.Prelude.{
  ℕ, zero, suc, ◌<◌, ◌≡◌, refl, sym, ap, ap₂, subst, ◌∙◌, ◌==◌, ◌&&◌, Bool-cases, inl, inr,
  if◌then◌else◌, Bool, true, false, Option, none, some, List, [], ◌∷◌, ◌++◌, append_assoc, map,
  length, Outcome, done, exit, ◌>>=◌, arith,
}
use champsim_infra.Trace.{word, bytes_of}
use champsim_infra.Raw.Bytes.{read_exact, read_exact-append}
use champsim_infra.Raw.Record.{Insn}
use champsim_infra.Raw.Plugin.Serial.{insn_bytes, file_header}
use champsim_infra.Raw.Convert.Writer.{concat}
use champsim_infra.Raw.Convert.Program.Stream.{stream, AllFit, length-stream}
use champsim_infra.Raw.Filter.Keep.{keep, keep-keep, keep-map, waiting_after, ends_idle}
use champsim_infra.Raw.Filter.Idle.{idle_buffer_init}
use champsim_infra.Raw.Filter.Idle.Slots.{idle_buffer_reset-Holds}
use champsim_infra.Raw.Zstd.{Zstd, ZstdLaws, NoFailure}
use champsim_infra.Raw.Zstd.Content.{other_than, unmarked}
use champsim_infra.Raw.Filter.Writer.Over.{compressor_of, keeps_of, IsNewOutput, new-written}
use champsim_infra.Raw.Filter.Writer.{
  Compressor, FilterWriter, Keeps, written, writer_finish, writer_finish-written,
}
use champsim_infra.Raw.Filter.Framing.{Rec, Framed, cut, refused, framed, next_record}
use champsim_infra.Raw.Filter.Framing.Verbatim.{insn_is_hlt, next_record-insn_bytes}
use champsim_infra.Raw.Filter.Machine.{Filter, active, initial, emit, filter_step, flush_rest}
use champsim_infra.Raw.Filter.Machine.Kept.{
  hlt_of, user_of, kept_bytes, grown, seen, seen_of, run, run-seen, emit-seen,
}
use champsim_infra.Raw.Filter.Program.{layout_of, filter_loop, filter_body, finished, trace_filter}

abbrev pub insn_is_user : Insn → Bool
insn_is_user i = i.privilege == 0

-- The instructions that are left when the idle loops are taken out.
abbrev pub without_idle : List Insn → List Insn
without_idle is = keep insn_is_hlt insn_is_user false is

layout_of-file_header :
    (vcpu_id : ℕ) (has_pa has_vals : Bool)
    → layout_of (file_header vcpu_id 0 has_pa has_vals) ≡ some (has_pa, has_vals)
unfolding file_header bytes_of word
layout_of-file_header v true true = refl
layout_of-file_header v true false = refl
layout_of-file_header v false true = refl
layout_of-file_header v false false = refl

length-file_header :
    (vcpu_id : ℕ) (has_pa has_vals : Bool) → length (file_header vcpu_id 0 has_pa has_vals) ≡ 16
unfolding file_header bytes_of
length-file_header v has_pa has_vals = refl

module _ (has_pa has_vals : Bool) (vcpu_id : ℕ) where
  abbrev rec_of : Insn → Rec
  rec_of i = record {
    priv = i.privilege;
    is_hlt = insn_is_hlt i;
    bytes = insn_bytes has_pa vcpu_id i;
  }

  stream-rec_of :
      (is : List Insn) → concat (map (λ r. r.bytes) (map rec_of is)) ≡ stream has_pa vcpu_id is
  stream-rec_of [] = refl
  stream-rec_of (i ∷ is) = ap (λ bs. insn_bytes has_pa vcpu_id i ++ bs) (stream-rec_of is)

  kept_bytes-stream :
      (is : List Insn) → kept_bytes false (map rec_of is) ≡ stream has_pa vcpu_id (without_idle is)
  kept_bytes-stream is =
      ap (λ rs. concat (map (λ r. r.bytes) rs)) (keep-map hlt_of user_of rec_of false is)
      ∙ stream-rec_of (without_idle is)

  module _ (z : Compressor) where
    nothing_left : next_record has_pa has_vals [] ≡ Framed.cut
    unfolding next_record read_exact
    nothing_left = refl

    abbrev turn : ℕ → Filter z → Framed → Outcome (Filter z)
    turn fuel f n = elim n [
      | cut ↦ done f
      | refused ↦ exit 1
      | framed r rest ↦ filter_loop z has_pa has_vals fuel (filter_step z r f) rest
    ]

    filter_loop-stream :
        (laws : Keeps z) (is : List Insn) (fuel : ℕ) (f : Filter z)
        → length is < fuel
        → AllFit has_vals is
        → filter_loop z has_pa has_vals fuel f (stream has_pa vcpu_id is)
          ≡ done (run z laws (map rec_of is) f)
    unfolding filter_loop
    filter_loop-stream laws is zero f m fit = absurd (omega arith)
    filter_loop-stream laws [] (suc fuel) f m fit = ap (turn fuel f) nothing_left
    filter_loop-stream laws (i ∷ is) (suc fuel) f m fit =
        ap (turn fuel f)
          (next_record-insn_bytes has_pa has_vals vcpu_id i (stream has_pa vcpu_id is) fit.0)
        ∙ filter_loop-stream laws is fuel (filter_step z (rec_of i) f) (omega arith) fit.1

module _ (z : Compressor) (laws : Keeps z) where
  -- The writer at the end.
  closing :
      (f : Filter z) (v : List ℕ)
      → seen z laws (flush_rest z f) ≡ some v
      → (w : FilterWriter z) × ((finished z f).writer ≡ some w) × (laws.decoded w.sink ≡ some v)
  closing f v e = close (flush_rest z f).writer e
    where
      some-ne : none ≡ some v → ⊥
      some-ne e = subst (λ o. elim o as (λ x. Type 0) [ none ↦ Unit {0} | some x ↦ ⊥ ]) e tt

      close :
          (o : Option (FilterWriter z))
          → seen_of z laws o ≡ some v
          → (w : FilterWriter z) × ((elim o [ none ↦ none | some w ↦ some (writer_finish z w) ])
              ≡ some w)
            × (laws.decoded w.sink ≡ some v)
      close none e = absurd (some-ne e)
      close (some w) e = (writer_finish z w, refl, writer_finish-written z laws w ∙ e)

  -- The output for a file of the plugin, by the laws of the compressor.
  trace_filter-decoded :
      (vcpu_id : ℕ) (has_pa has_vals : Bool) (is : List Insn) (w : FilterWriter z)
      → AllFit has_vals is
      → (f : Filter z) × (w' : FilterWriter z) × (trace_filter z
            (some w)
            (file_header vcpu_id 0 has_pa has_vals ++ stream has_pa vcpu_id is)
          ≡ done f)
        × (f.writer ≡ some w')
        × (laws.decoded w'.sink
            ≡ some (
                written z laws w
                ++ (file_header vcpu_id 0 has_pa has_vals
                    ++ stream has_pa vcpu_id (without_idle is))))
  unfolding trace_filter
  trace_filter-decoded vcpu_id has_pa has_vals is w fit =
      let head : List ℕ = file_header vcpu_id 0 has_pa has_vals in
      let bs : List ℕ = stream has_pa vcpu_id is in
      let start : Filter z = initial z (emit z head (some w)) in
      let recs : List Rec = map (rec_of has_pa has_vals vcpu_id) is in
      let f : Filter z = run z laws recs start in
      let ends : seen z laws (flush_rest z f)
          ≡ some ((written z laws w ++ head) ++ stream has_pa vcpu_id (without_idle is)) =
        run-seen z laws recs active start [] refl (idle_buffer_reset-Holds idle_buffer_init) refl
        ∙ ap₂ grown (kept_bytes-stream has_pa has_vals vcpu_id is)
            (emit-seen z laws head (some w)) in
      let (w', at_end, fed) = closing f _ ends in
      (
        finished z f,
        w',
        ap (filter_body z (some w))
              (read_exact-append 16 head bs (length-file_header vcpu_id has_pa has_vals))
            ∙ ap
                (λ o. elim o as (λ x. Outcome (Filter z)) [
                  | none ↦ exit 1
                  | some (has_pa, has_values) ↦
                      filter_loop z has_pa has_values (suc (length bs)) start bs >>= λ f.
                      done (finished z f)
                ])
                (layout_of-file_header vcpu_id has_pa has_vals)
            ∙ ap (λ o. o >>= λ f. done (finished z f))
                (filter_loop-stream has_pa has_vals vcpu_id z laws is (suc (length bs)) start
                  (omega (arith, length-stream has_pa vcpu_id is)) fit),
        at_end,
        fed
            ∙ ap (λ v. some v)
                (append_assoc (written z laws w) head (stream has_pa vcpu_id (without_idle is))),
      )

AllFit-keep :
    (w : Bool) (has_vals : Bool) (is : List Insn)
    → AllFit has_vals is
    → AllFit has_vals (keep insn_is_hlt insn_is_user w is)
AllFit-keep w has_vals [] fit = fit
AllFit-keep w has_vals (i ∷ is) fit =
    let w' : Bool = waiting_after insn_is_hlt insn_is_user w i in
    let rest : AllFit has_vals (keep insn_is_hlt insn_is_user w' is) =
      AllFit-keep w' has_vals is fit.1 in
    elim (Bool-cases (w' && ends_idle insn_is_hlt insn_is_user is)) [
      | inl e ↦
          subst
            (λ b. AllFit has_vals (
              if b
              then keep insn_is_hlt insn_is_user w' is
              else i ∷ keep insn_is_hlt insn_is_user w' is))
            (sym e) rest
      | inr e ↦
          subst
            (λ b. AllFit has_vals (
              if b
              then keep insn_is_hlt insn_is_user w' is
              else i ∷ keep insn_is_hlt insn_is_user w' is))
            (sym e) (fit.0, rest)
    ]

module _ (z : Zstd) (laws : ZstdLaws z) (fine : NoFailure z) where
  -- A file that the plugin wrote on x86 is filtered with exit status 0, if no call of zstd fails and no
  -- write is short: to a new output file go the same file less the instructions of the idle loops, those
  -- from a HLT on with a HLT after them before any user-mode instruction, and the decompressor gives
  -- that back.
  pub trace_filter-stream :
      (vcpu_id : ℕ) (has_pa has_vals : Bool) (is : List Insn) (w : FilterWriter (compressor_of z))
      → AllFit has_vals is
      → IsNewOutput z laws w
      → (f : Filter (compressor_of z)) × (w' : FilterWriter (compressor_of z)) × (trace_filter
            (compressor_of z)
            (some w)
            (file_header vcpu_id 0 has_pa has_vals ++ stream has_pa vcpu_id is)
          ≡ done f)
        × (f.writer ≡ some w')
        × (laws.decode w'.sink.bytes
            ≡ some
                (file_header vcpu_id 0 has_pa has_vals ++ stream has_pa vcpu_id (without_idle is)))
  trace_filter-stream vcpu_id has_pa has_vals is w fit new =
      let out : List ℕ =
        file_header vcpu_id 0 has_pa has_vals ++ stream has_pa vcpu_id (without_idle is) in
      let keeps : Keeps (compressor_of z) = keeps_of z laws fine (other_than out) in
      let (f, w', ran, at_end, kept) =
        trace_filter-decoded (compressor_of z) keeps vcpu_id has_pa has_vals is w fit in
      (
        f,
        w',
        ran,
        at_end,
        unmarked z laws w'.sink out
            (kept ∙ ap (λ v. some (v ++ out)) (new-written z laws fine (other_than out) w new)),
      )

  -- The filter is idempotent on the files of the plugin, if no call of zstd fails and no write is short:
  -- its output for such a file, decompressed and filtered again into a new file, decompresses to the
  -- same bytes.
  pub trace_filter-again :
      (vcpu_id : ℕ) (has_pa has_vals : Bool) (is : List Insn) (w : FilterWriter (compressor_of z))
      → AllFit has_vals is
      → IsNewOutput z laws w
      → (f : Filter (compressor_of z)) × (w' : FilterWriter (compressor_of z)) × (g : Filter
          (compressor_of z))
        × (w'' : FilterWriter (compressor_of z)) × (out : List ℕ) × (trace_filter
              (compressor_of z)
              (some w)
              (file_header vcpu_id 0 has_pa has_vals ++ stream has_pa vcpu_id is)
            ≡ done f)
        × (f.writer ≡ some w')
        × (laws.decode w'.sink.bytes ≡ some out)
        × (trace_filter (compressor_of z) (some w) out ≡ done g)
        × (g.writer ≡ some w'')
        × (laws.decode w''.sink.bytes ≡ some out)
  trace_filter-again vcpu_id has_pa has_vals is w fit new =
      let head : List ℕ = file_header vcpu_id 0 has_pa has_vals in
      let (f, w', ran, at_end, kept) = trace_filter-stream vcpu_id has_pa has_vals is w fit new in
      let (g, w'', ran', at_end', kept') =
        trace_filter-stream vcpu_id has_pa has_vals (without_idle is) w
          (AllFit-keep false has_vals is fit) new in
      (
        f,
        w',
        g,
        w'',
        head ++ stream has_pa vcpu_id (without_idle is),
        ran,
        at_end,
        kept,
        ran',
        at_end',
        kept'
            ∙ ap (λ is. some (head ++ stream has_pa vcpu_id is))
                (keep-keep insn_is_hlt insn_is_user false is),
      )
