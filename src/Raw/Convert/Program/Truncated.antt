-- ===== src/Raw/Convert/Program/Truncated.antt =====
-- A file of the plugin that ends inside a record.
use champsim_infra.Prelude.{
  ℕ, ◌+◌, ◌^◌, ◌<◌, ◌≡◌, refl, ap, ◌∙◌, Bool, true, false, Bool-cases, inl, inr, Option, none, some,
  List, ◌++◌, length, length-drop, take, drop, leb, if◌then◌else◌, done, arith,
}
use champsim_infra.Trace.{word, bytes_of}
use champsim_infra.Raw.Bytes.{pure, continued, ◌>>=◌, read_exact, read_number, read_number-append}
use champsim_infra.Raw.Record.{Insn, encode_header}
use champsim_infra.Raw.Plugin.Serial.{file_header}
use champsim_infra.Raw.Convert.Parse.{
  Header, next_insn, read_front, broken, with_header, with_front,
}
use champsim_infra.Raw.Convert.Parse.RoundTrip.{Fits, fields_back, good_header}
use champsim_infra.Raw.Convert.Build.{Decoded}
use champsim_infra.Raw.Zstd.{Zstd, ZstdLaws, NoFailure}
use champsim_infra.Raw.Zstd.Content.{other_than, unmarked}
use champsim_infra.Raw.Convert.Writer.Over.{sink_of, TakesAll, sink_laws_of, IsNew, new-view}
use champsim_infra.Raw.Convert.Writer.{Sink, SinkLaws, TraceWriter}
use champsim_infra.Raw.Convert.Program.{broke, convert, convert_loop}
use champsim_infra.Raw.Convert.Program.Stream.{
  stream, AllFit, AllShort, encode_all, records_of, receive, convert-tail, Stops, turn,
}

read_exact-short : (n : ℕ) (bs : List ℕ) → length bs < n → read_exact n bs ≡ none
unfolding read_exact
read_exact-short n bs h =
    let short : leb n (length bs) ≡ false = ground (arith) in
    ap (λ (b : Bool). if b then some (take n bs, drop n bs) else none) short

module _ (h : Header) where
  front_of : ℕ → Option (List ℕ × List ℕ) → Option ((ℕ × List ℕ) × List ℕ)
  front_of isz o =
      continued (λ ip. read_exact isz >>= λ bytes. pure (ip, bytes))
        (continued (λ bs. pure (word bs)) o)

  -- The IP or the bytes of the instruction are cut short.
  read_front-short :
      (isz : ℕ) (part : List ℕ) → length part < 8 + isz → read_front h isz part ≡ none
  unfolding read_front read_number read_exact front_of
  read_front-short isz part short = elim (Bool-cases (leb 8 (length part))) [
    | inl e ↦
        (let enough : read_exact 8 part ≡ some (take 8 part, drop 8 part) = whole e in
          ap (front_of isz) enough
          ∙ ap (continued (λ bytes. pure (word (take 8 part), bytes)))
              (read_exact-short isz (drop 8 part) (ground (arith, e, length-drop 8 part))))
    | inr e ↦ ap (front_of isz) (read_exact-short 8 part (ground (arith, e)))
  ]
    where
      whole : leb 8 (length part) ≡ true → read_exact 8 part ≡ some (take 8 part, drop 8 part)
      whole e = ap (λ (b : Bool). if b then some (take 8 part, drop 8 part) else none) e

  -- The header of a record with less than its IP and its instruction after it.
  abbrev pub cut_record : ℕ → Insn → List ℕ → List ℕ
  cut_record vcpu_id i part =
      bytes_of 4 (encode_header vcpu_id i.privilege (length i.bytes) (length i.mem_ops)) ++ part

  next_insn-cut_record :
      (vcpu_id : ℕ) (i : Insn) (part : List ℕ)
      → Fits h.has_vals i
      → length part < 8 + length i.bytes
      → next_insn h (cut_record vcpu_id i part) ≡ broken
  unfolding next_insn
  next_insn-cut_record vcpu_id i part f short =
      let header : ℕ = encode_header vcpu_id i.privilege (length i.bytes) (length i.mem_ops) in
      let (priv, isz, nmem, small) =
        fields_back vcpu_id i.privilege (length i.bytes) (length i.mem_ops) f.privilege_fits
          (omega (arith, f.few_bytes)) (omega (arith, f.few_ops)) in
      ap (with_header h) (read_number-append 4 header part small)
      ∙ good_header h header part (omega (arith, isz, f.some_bytes))
          (omega (arith, isz, f.few_bytes)) (omega (arith, nmem, f.few_ops))
      ∙ ap (λ n. with_front h header (read_front h n part)) isz
      ∙ ap (with_front h header) (read_front-short (length i.bytes) part short)

module _ (z : Sink) (decode : ℕ → List ℕ → Decoded) (laws : SinkLaws z) where
  Stops-at_cut :
      (h : Header) (vcpu_id : ℕ) (i : Insn) (part : List ℕ)
      → Fits h.has_vals i
      → length part < 8 + length i.bytes
      → Stops z decode h laws broke (cut_record h vcpu_id i part)
  unfolding convert_loop
  Stops-at_cut h vcpu_id i part f short fuel c =
      ap (turn z decode h laws fuel c) (next_insn-cut_record h vcpu_id i part f short)

module _ (z : Zstd) (decode : ℕ → List ℕ → Decoded) (laws : ZstdLaws z) (fine : NoFailure z)
    (takes : TakesAll z) where
  -- A file of the plugin that ends within the IP or the bytes of an instruction is converted with exit
  -- status 1, if no call of zstd fails, no write is short, every call with ZSTD_e_continue takes its whole
  -- input where that is at most 8 MB, and no record is larger, and the new output decompresses to what a file without that instruction gives.
  pub convert-cut_record :
      (vcpu_id arch : ℕ) (has_pa has_vals : Bool) (is : List Insn) (i : Insn) (part : List ℕ)
      (w : TraceWriter (sink_of z))
      → vcpu_id < 2 ^ 32
      → arch < 2
      → AllFit has_vals is
      → Fits has_vals i
      → length part < 8 + length i.bytes
      → IsNew z laws w
      → let h : Header = record { arch = arch; has_pa = has_pa; has_vals = has_vals } in
        AllShort (records_of (sink_of z) decode h none (receive (sink_of z) decode h is))
        → (w' : TraceWriter (sink_of z)) × (convert (sink_of z) decode 0 w (
              file_header vcpu_id arch has_pa has_vals
              ++ (stream has_pa vcpu_id is ++ cut_record h vcpu_id i part))
            ≡ done (1, w'))
          × (laws.decode w'.sink.bytes
              ≡ some (
                  encode_all
                    (records_of (sink_of z) decode h none (receive (sink_of z) decode h is))))
  convert-cut_record vcpu_id arch has_pa has_vals is i part w small known f fi short new fit =
      let h : Header = record { arch = arch; has_pa = has_pa; has_vals = has_vals } in
      let out : List ℕ =
        encode_all (records_of (sink_of z) decode h none (receive (sink_of z) decode h is)) in
      let sink_laws : SinkLaws (sink_of z) = sink_laws_of z laws fine takes (other_than out) in
      let (w', ran, ends) =
        convert-tail (sink_of z) decode sink_laws vcpu_id arch has_pa has_vals is broke
          (cut_record h vcpu_id i part) w small known f
          (Stops-at_cut (sink_of z) decode sink_laws h vcpu_id i part fi short) fit
          (omega (arith, ap (λ bs. length bs) new.no_bytes)) (λ c. refl) in
      (
        w',
        ran,
        unmarked z laws w'.sink out
            (ends ∙ ap (λ v. some (v ++ out)) (new-view z laws fine takes (other_than out) w new)),
      )
