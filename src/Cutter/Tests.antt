-- ===== src/Cutter/Tests.antt =====
-- A run of trace_cutter over a codec that stores its input as it is.
use champsim_infra.Prelude.{
  ℕ, ◌≤◌, ◌<◌, ◌≡◌, ◌≢◌, ◌⊎◌, inl, refl, sym, true, some, List, [], ◌∷◌, ◌++◌, map, append-nil,
  length, length-replicate, length-append, take, take-length, replicate, codes, arith, Ends, subst,
  some_inj, ap,
}
use champsim_infra.Cutter.Codec.{Codec, CodecLaws, Call}
use champsim_infra.Cutter.Writer.{Closed}
use champsim_infra.Cutter.Args.{Args, defaults}
use champsim_infra.Cutter.Naming.{output_path}
use champsim_infra.Cutter.Naming.Injective.{output_path-ne}
use champsim_infra.Cutter.Chunker.Writers.{paths}
use champsim_infra.Cutter.Chunker.Finish.{Cut}
use champsim_infra.Cutter.Program.{cut}
use champsim_infra.Cutter.Program.Stream.{Decoder, DecoderLaws, Output}
use champsim_infra.Cutter.Theorems.{Works, Reads, dry_run-Cut, run-Cut}

-- A context is what it was fed.
abbrev store : Codec
store = record {
  Ctx = List ℕ;
  create = some [];
  set_level = λ l c. some c;
  set_workers = λ n c. some c;
  reset = λ c. [];
  continue =
      λ c src. some (record { ctx = c ++ src; consumed = length src; produced = src; rc = 0 });
  end = λ c. some (record { ctx = c; consumed = 0; produced = []; rc = 0 });
  most_pending = 0;
  can_open = λ p. true;
  fwrite = λ file out. length out;
}

length-pos : (xs : List ℕ) → xs ≢ [] → 0 < length xs
length-pos [] h = absurd (h refl)
length-pos (x ∷ xs) h = omega arith

store-laws : CodecLaws store
store-laws = record {
  fed = λ c. c;
  emitted = λ c. c;
  pending = λ c. 0;
  decode = some;
  pending_bound = λ c. omega arith;
  fed-reset = λ c. refl;
  emitted-reset = λ c. refl;
  fed-continue = λ c src r e.
      subst (λ (r : Call (List ℕ)). r.ctx ≡ c ++ take r.consumed src) (some_inj e)
        (ap (◌++◌ c) (sym (take-length src)));
  emitted-continue =
      λ c src r e. subst (λ (r : Call (List ℕ)). r.ctx ≡ c ++ r.produced) (some_inj e) refl;
  progress-continue = λ c src r e ne.
      subst (λ (r : Call (List ℕ)). (0 < r.consumed) ⊎ (0 < 0)) (some_inj e)
        (inl (length-pos src ne));
  fed-end = λ c r e. subst (λ (r : Call (List ℕ)). r.ctx ≡ c) (some_inj e) refl;
  emitted-end = λ c r e.
      subst (λ (r : Call (List ℕ)). r.ctx ≡ c ++ r.produced) (some_inj e) (sym (append-nil c));
  progress-end =
      λ c r e h. absurd (subst (λ (r : Call (List ℕ)). r.rc ≢ 0) (sym (some_inj e)) h refl);
  decode-end = λ c r e h. refl;
}

-- A decoder that hands out its input, at most 700 bytes at a time.
abbrev unstore : Decoder
unstore = record {
  DCtx = List ℕ;
  create = some [];
  step =
      λ c src. some (record { ctx = c ++ take 700 src; consumed = 700; produced = take 700 src });
  most_pending = 0;
}

unstore-laws : DecoderLaws unstore
unstore-laws = record {
  taken = λ c. c;
  given = λ c. c;
  pending = λ c. 0;
  decode = some;
  pending_bound = λ c. omega arith;
  taken-create = λ c e. sym (some_inj e);
  given-create = λ c e. sym (some_inj e);
  taken-step = λ c src r e.
      subst (λ (r : Output (List ℕ)). r.ctx ≡ c ++ take r.consumed src) (some_inj e) refl;
  given-step =
      λ c src r e. subst (λ (r : Output (List ℕ)). r.ctx ≡ c ++ r.produced) (some_inj e) refl;
  progress = λ c src r e ne.
      subst (λ (r : Output (List ℕ)). (0 < r.consumed) ⊎ (0 < 0)) (some_inj e) (inl (omega arith));
  flushed = λ c src r e ne last. refl;
  within = λ c rest plain e.
      subst (λ (p : List ℕ). length c ≤ length p) (some_inj e)
        (omega (arith, length-append c rest));
}

-- Five records and a few bytes over, cut after every two records.
abbrev trace : List ℕ
trace = 7 ∷ replicate 2569 1

abbrev args : Args
args = record defaults { input = codes "/traces/app.zst"; outdir = codes "out"; chunk_records = 2 }

trace-Reads : Reads unstore unstore-laws trace trace
unfolding unstore-laws
trace-Reads = record {
  creates = λ e. cc;
  steps = λ c src e. cc;
  not_empty = λ e. cc;
  decodes = refl;
  small = omega (arith, length-replicate {A = ℕ} 2569 1);
}

store-Works : Works store args
store-Works = record {
  creates = λ e. cc;
  levels = λ c e. cc;
  faults = record {
    open_failed = λ p e. cc;
    continue_failed = λ c src e. cc;
    end_failed = λ c e. cc;
  };
}

dry_run-Cut_example :
    Ends
      (λ s. (raws : List (List ℕ)) × Cut store 2 trace s raws)
      ⊥
      (cut store unstore (record args { dry_run = true }) trace)
dry_run-Cut_example =
    dry_run-Cut store (record args { dry_run = true }) unstore unstore-laws trace trace refl
      (omega arith) (omega arith) trace-Reads

run-Cut_example :
    Ends
      (λ s.
        (raws : List (List ℕ)) × Cut store 2 trace s raws
        × (map (λ (f : Closed). some f.bytes) s.writer.disk ≡ map some raws)
        × (map (λ (f : Closed). f.path) s.writer.disk ≡ paths args (length raws)))
      ⊥
      (cut store unstore args trace)
unfolding store-laws
run-Cut_example =
    run-Cut store store-laws args unstore unstore-laws trace trace refl (omega arith) (omega arith)
      (λ file out. refl) store-Works trace-Reads

output_path-ne_example : ¬ (output_path args 0 ≡ output_path args 2)
output_path-ne_example = output_path-ne args 0 2 (omega arith) (omega arith) (omega arith)
