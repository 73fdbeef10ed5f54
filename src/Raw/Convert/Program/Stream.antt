-- ===== src/Raw/Convert/Program/Stream.antt =====
-- A file of the plugin through the converter.

use champsim_infra.Prelude.{
  ℕ, zero, suc, ◌^◌, ◌<◌, ◌≤◌, ◌≡◌, refl, sym, ap, subst, ◌∙◌, Bool, true, Option, none, some, List,
  [], ◌∷◌, ◌++◌, append_assoc, append-nil, length, length-append, arith, inl, inr, Option-cases,
  Outcome, done, ◌>>=◌,
}
use champsim_infra.Trace.{InstrV2}
use champsim_infra.Raw.Bytes.{read_number, read_exact}
use champsim_infra.Raw.Record.{Insn}
use champsim_infra.Raw.Plugin.Serial.{insn_bytes, file_header}
use champsim_infra.Raw.Convert.Parse.{Header, next_insn, Next, at_end, broken, lost, found}
use champsim_infra.Raw.Convert.Parse.RoundTrip.{Fits, received, next_insn-insn_bytes}
use champsim_infra.Raw.Convert.Parse.FileHeader.{header_back}
use champsim_infra.Raw.Convert.Build.{Decoded, Prev, directed, last_record}
use champsim_infra.Raw.Zstd.{Zstd, ZstdLaws, NoFailure}
use champsim_infra.Raw.Zstd.Content.{other_than, unmarked}
use champsim_infra.Raw.Convert.Writer.Over.{sink_of, TakesAll, sink_laws_of, IsNew, new-view}
use champsim_infra.Raw.Convert.Writer.{
  writer_buf_size, HasRoom, Sink, SinkLaws, TraceWriter, encode_v2, writer_flush, writer_write,
  view, write-view, flush-decoded,
}
use champsim_infra.Raw.Convert.Program.{
  Conv, Ending, ended, convert_loop, convert, absorb, prev_of, write_prev, write_last, or_else,
  finalized, write_rest, exit_status, no_convert_stats,
}

-- The instructions as the plugin writes them.
abbrev pub stream : Bool → ℕ → List Insn → List ℕ
stream has_pa vcpu_id [] = []
stream has_pa vcpu_id (i ∷ is) = insn_bytes has_pa vcpu_id i ++ stream has_pa vcpu_id is

abbrev pub AllFit : Bool → List Insn → Type 0
AllFit vals [] = Unit
AllFit vals (i ∷ is) = Fits vals i × AllFit vals is

-- The bytes of the records.
abbrev pub encode_all : List InstrV2 → List ℕ
encode_all [] = []
encode_all (r ∷ rs) = encode_v2 r ++ encode_all rs

-- A record fits the buffer of the writer; the struct of the source has 512 bytes.
abbrev pub Short : InstrV2 → Type 0
Short r = length (encode_v2 r) ≤ writer_buf_size

abbrev pub AllShort : List InstrV2 → Type 0
AllShort [] = Unit
AllShort (r ∷ rs) = Short r × AllShort rs

module _ (z : Sink) (decode : ℕ → List ℕ → Decoded) (h : Header) where
  -- The records of a list of instructions after `p`: each takes its direction from the next one,
  -- and the last one stands if that is known.
  abbrev pub records_of : Option Prev → List Insn → List InstrV2
  records_of none [] = []
  records_of (some p) [] = elim (last_record p) [ none ↦ [] | some r ↦ r ∷ [] ]
  records_of none (i ∷ is) = records_of (some (prev_of z decode h i)) is
  records_of (some p) (i ∷ is) = directed p i.ip ∷ records_of (some (prev_of z decode h i)) is

  abbrev pub receive : List Insn → List Insn
  receive [] = []
  receive (i ∷ is) = received h.has_pa i ∷ receive is

  module _ (laws : SinkLaws z) where
    write_last-view :
        (p : Option Prev) (w : TraceWriter z)
        → AllShort (records_of p [])
        → HasRoom z laws w
        → view z laws (write_last z decode p w) ≡ view z laws w ++ encode_all (records_of p [])
    write_last-view none w short room = sym (append-nil _)
    write_last-view (some p) w short room = elim (Option-cases (last_record p)) [
      | inl e ↦
          subst (λ o. view z laws (rest o) ≡ view z laws w ++ encode_all (left o)) (sym e)
            (sym (append-nil _))
      | inr (r, e) ↦
          (let fits : AllShort (r ∷ []) = subst (λ o. AllShort (left o)) e short in
            let (w', ran, fed, _) = write-view z laws (encode_v2 r) w fits.0 room in
            subst (λ o. view z laws (rest o) ≡ view z laws w ++ encode_all (left o)) (sym e)
              (ap (λ o. view z laws (or_else z decode w o)) ran
                ∙ fed
                ∙ ap (λ bs. view z laws w ++ bs) (sym (append-nil (encode_v2 r)))))
    ]
      where
        rest : Option InstrV2 → TraceWriter z
        rest o = elim o [ none ↦ w | some r ↦ or_else z decode w (writer_write z (encode_v2 r) w) ]

        left : Option InstrV2 → List InstrV2
        left o = elim o [ none ↦ [] | some r ↦ r ∷ [] ]

    -- The record before `ip` fits the buffer, if there is one.
    abbrev ShortPrev : Option Prev → ℕ → Type 0
    ShortPrev none ip = Unit
    ShortPrev (some p) ip = Short (directed p ip)

    AllShort-next :
        (p : Option Prev) (i : Insn) (is : List Insn)
        → AllShort (records_of p (i ∷ is))
        → ShortPrev p i.ip × AllShort (records_of (some (prev_of z decode h i)) is)
    AllShort-next none i is short = (tt, short)
    AllShort-next (some p) i is short = short

    -- The record before `ip` is written.
    write_prev-view :
        (p : Option Prev) (ip : ℕ) (w : TraceWriter z)
        → ShortPrev p ip
        → HasRoom z laws w
        → (w' : TraceWriter z) × (write_prev z decode p ip w ≡ some w')
          × HasRoom z laws w'
          × ((i : Insn) (is : List Insn)
              → i.ip ≡ ip
              → view z laws w' ++ encode_all (records_of (some (prev_of z decode h i)) is)
                ≡ view z laws w ++ encode_all (records_of p (i ∷ is)))
    write_prev-view none ip w short room = (w, refl, room, λ i is e. refl)
    write_prev-view (some p) ip w short room =
        let (w', ran, fed, room') = write-view z laws (encode_v2 (directed p ip)) w short room in
        (
          w',
          ran,
          room',
          λ i is e.
              ap (λ v. v ++ encode_all (records_of (some (prev_of z decode h i)) is)) fed
              ∙ append_assoc (view z laws w) (encode_v2 (directed p ip))
                  (encode_all (records_of (some (prev_of z decode h i)) is))
              ∙ ap
                  (λ j.
                    view z laws w
                    ++ (encode_v2 (directed p j)
                        ++ encode_all (records_of (some (prev_of z decode h i)) is)))
                  (sym e),
        )

    -- What the loop does with the next instruction.
    abbrev pub turn : ℕ → Conv z decode → Next h → Outcome (Ending × Conv z decode)
    turn fuel c n = elim n [
      | at_end ↦ done (ended, c)
      | broken ↦ done (Ending.broke, c)
      | lost ↦ done (Ending.gone, c)
      | found i rest ↦ elim (write_prev z decode c.prev i.ip c.writer) [
        | none ↦ done (Ending.gone, c)
        | some w ↦ convert_loop z decode h 0 fuel (absorb z decode h i c w) rest
      ]
    ]

    -- The loop stops at the rest of the input, if that does not begin with a record.
    abbrev pub Stops : Ending → List ℕ → Type 0
    Stops e tail =
        (fuel : ℕ) (c : Conv z decode) → convert_loop z decode h 0 (suc fuel) c tail ≡ done (e, c)

    convert_loop-stream :
        (vcpu_id : ℕ) (is : List Insn) (e : Ending) (tail : List ℕ) (fuel : ℕ) (c : Conv z decode)
        → Stops e tail
        → length is < fuel
        → AllFit h.has_vals is
        → AllShort (records_of c.prev (receive is))
        → HasRoom z laws c.writer
        → (c' : Conv z decode) × (convert_loop z decode h 0 fuel c
              (stream h.has_pa vcpu_id is ++ tail)
            ≡ done (e, c'))
          × (view z laws (write_last z decode c'.prev c'.writer)
              ≡ view z laws c.writer ++ encode_all (records_of c.prev (receive is)))
    unfolding convert_loop
    convert_loop-stream vcpu_id is e tail zero c stops m f short room = absurd (omega arith)
    convert_loop-stream vcpu_id [] e tail (suc fuel) c stops m f short room =
        (c, stops fuel c, write_last-view c.prev c.writer short room)
    convert_loop-stream vcpu_id (i ∷ is) e tail (suc fuel) c stops m f short room =
        let i' : Insn = received h.has_pa i in
        let bs : List ℕ = stream h.has_pa vcpu_id is ++ tail in
        let (now, later) = AllShort-next c.prev i' (receive is) short in
        let (w, ran, room', grows) = write_prev-view c.prev i.ip c.writer now room in
        let (c', rest, same) =
          convert_loop-stream vcpu_id is e tail fuel (absorb z decode h i' c w) stops (omega arith)
            f.1 later room' in
        (
          c',
          ap (convert_loop z decode h 0 (suc fuel) c)
                (append_assoc (insn_bytes h.has_pa vcpu_id i) (stream h.has_pa vcpu_id is) tail)
              ∙ ap (turn fuel c) (next_insn-insn_bytes h vcpu_id i bs f.0)
              ∙ ap
                  (λ o. elim o as (λ x. Outcome (Ending × Conv z decode)) [
                    | none ↦ done (Ending.gone, c)
                    | some w ↦ convert_loop z decode h 0 fuel (absorb z decode h i' c w) bs
                  ])
                  ran
              ∙ rest,
          same ∙ grows i' (receive is) refl,
        )

pub length-stream :
    (has_pa : Bool) (vcpu_id : ℕ) (is : List Insn) → length is ≤ length (stream has_pa vcpu_id is)
unfolding insn_bytes
length-stream has_pa vcpu_id [] = omega arith
length-stream has_pa vcpu_id (i ∷ is) =
    let some_bytes : 0 < length (insn_bytes has_pa vcpu_id i) = omega arith in
    omega (
      arith,
      some_bytes,
      length-append (insn_bytes has_pa vcpu_id i) (stream has_pa vcpu_id is),
      length-stream has_pa vcpu_id is,
    )

module _ (z : Sink) (decode : ℕ → List ℕ → Decoded) (laws : SinkLaws z) where
  -- The records of the plugin before `tail`, with the status that the end of the loop gives.
  pub convert-tail :
      (vcpu_id arch : ℕ) (has_pa has_vals : Bool) (is : List Insn) (e : Ending) (tail : List ℕ)
      (w : TraceWriter z)
      → vcpu_id < 2 ^ 32
      → arch < 2
      → AllFit has_vals is
      → let h : Header = record { arch = arch; has_pa = has_pa; has_vals = has_vals } in
        Stops z decode h laws e tail
        → AllShort (records_of z decode h none (receive z decode h is))
        → HasRoom z laws w
        → ((c : Conv z decode) → write_rest z decode e c ≡ write_last z decode c.prev c.writer)
        → (w' : TraceWriter z) × (convert z decode 0 w
              (file_header vcpu_id arch has_pa has_vals ++ (stream has_pa vcpu_id is ++ tail))
            ≡ done (exit_status e, w'))
          × (laws.decoded w'.sink
              ≡ some (
                  view z laws w ++ encode_all (records_of z decode h none (receive z decode h is))))
  unfolding convert
  convert-tail vcpu_id arch has_pa has_vals is e tail w small known f stops short room last =
      let h : Header = record { arch = arch; has_pa = has_pa; has_vals = has_vals } in
      let bs : List ℕ = stream has_pa vcpu_id is ++ tail in
      let start : Conv z decode = record { writer = w; stats = no_convert_stats; prev = none } in
      let (c, ran, same) =
        convert_loop-stream z decode h laws vcpu_id is e tail (suc (length bs)) start stops
          (omega
            (arith, length-stream has_pa vcpu_id is, length-append (stream has_pa vcpu_id is) tail))
          f short room in
      let (w', flushed, ends) = flush-decoded z laws (write_last z decode c.prev c.writer) in
      (
        w',
        ap
              (λ o. elim o as (λ x. Outcome (ℕ × TraceWriter z)) [
                | none ↦ Outcome.exit 1
                | some (h, rest) ↦ convert_loop z decode h 0 (suc (length rest)) start rest >>= λ r.
                    done (finalized z decode r)
              ])
              (header_back vcpu_id arch has_pa has_vals bs small known)
            ∙ ap (λ o. o >>= λ r. done (finalized z decode r)) ran
            ∙ ap (λ v. done (exit_status e, or_else z decode v (writer_flush z true v))) (last c)
            ∙ ap
                (λ o.
                  done (exit_status e, or_else z decode (write_last z decode c.prev c.writer) o))
                flushed,
        ends ∙ ap (λ v. some v) same,
      )

  Stops-at_end : (h : Header) → Stops z decode h laws ended []
  unfolding convert_loop next_insn read_number read_exact
  Stops-at_end h fuel c = refl

module _ (z : Zstd) (decode : ℕ → List ℕ → Decoded) (laws : ZstdLaws z) (fine : NoFailure z)
    (takes : TakesAll z) where
  -- A file that the plugin wrote, of any number of instructions whose fields fit the raw record, is
  -- converted with exit status 0 if no call of zstd fails, no write is short, every call with
  -- ZSTD_e_continue takes its whole input where that is at most 8 MB, and no record is larger: the new
  -- output decompresses to the record of each instruction, with its direction from the next one, less the
  -- last one if its direction is not known.
  pub convert-stream :
      (vcpu_id arch : ℕ) (has_pa has_vals : Bool) (is : List Insn) (w : TraceWriter (sink_of z))
      → vcpu_id < 2 ^ 32
      → arch < 2
      → AllFit has_vals is
      → IsNew z laws w
      → let h : Header = record { arch = arch; has_pa = has_pa; has_vals = has_vals } in
        AllShort (records_of (sink_of z) decode h none (receive (sink_of z) decode h is))
        → (w' : TraceWriter (sink_of z)) × (convert
              (sink_of z)
              decode
              0
              w
              (file_header vcpu_id arch has_pa has_vals ++ stream has_pa vcpu_id is)
            ≡ done (0, w'))
          × (laws.decode w'.sink.bytes
              ≡ some (
                  encode_all
                    (records_of (sink_of z) decode h none (receive (sink_of z) decode h is))))
  convert-stream vcpu_id arch has_pa has_vals is w small known f new short =
      let h : Header = record { arch = arch; has_pa = has_pa; has_vals = has_vals } in
      let out : List ℕ =
        encode_all (records_of (sink_of z) decode h none (receive (sink_of z) decode h is)) in
      let sink_laws : SinkLaws (sink_of z) = sink_laws_of z laws fine takes (other_than out) in
      let (w', ran, ends) =
        convert-tail (sink_of z) decode sink_laws vcpu_id arch has_pa has_vals is ended [] w small
          known f (Stops-at_end (sink_of z) decode sink_laws h) short
          (omega (arith, ap (λ bs. length bs) new.no_bytes)) (λ c. refl) in
      (
        w',
        ap (λ bs. convert (sink_of z) decode 0 w (file_header vcpu_id arch has_pa has_vals ++ bs))
              (sym (append-nil (stream has_pa vcpu_id is)))
            ∙ ran,
        unmarked z laws w'.sink out
            (ends ∙ ap (λ v. some (v ++ out)) (new-view z laws fine takes (other_than out) w new)),
      )
