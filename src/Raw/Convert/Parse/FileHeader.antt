-- ===== src/Raw/Convert/Parse/FileHeader.antt =====
-- The converter reads the file header that the plugin writes.
use champsim_infra.Prelude.{
  ℕ, ◌+◌, ◌/◌, ◌%◌, ◌^◌, ◌<◌, ◌≡◌, refl, ap, ap₂, ◌∙◌, ◌||◌, not, Bool, true, false, some, List, [],
  ◌∷◌, ◌++◌, ◌==◌, if◌then◌else◌, arith,
}
use champsim_infra.Trace.{bytes_of}
use champsim_infra.Raw.Bytes.{
  pure, fail, continued, ◌>>=◌, read_exact, read_number, read_exact-append, read_number-append,
}
use champsim_infra.Raw.Record.{trace_format_magic}
use champsim_infra.Raw.Plugin.Serial.{file_header}
use champsim_infra.Raw.Convert.Parse.{read_header, header_of}
use champsim_infra.Raw.Convert.Parse.RoundTrip.{spread}

abbrev tail_of : ℕ → Bool → Bool → List ℕ
tail_of arch has_pa has_vals =
    arch
    ∷ ((if has_pa then 1 else 0) + (if has_vals then 2 else 0))
    ∷ (if has_vals then 16 else 0)
    ∷ 0
    ∷ []

header_of-tail :
    (arch : ℕ) (has_pa has_vals : Bool) (rest : List ℕ)
    → arch < 2
    → header_of trace_format_magic 3 (tail_of arch has_pa has_vals) rest
      ≡ some (record { arch = arch; has_pa = has_pa; has_vals = has_vals }, rest)
header_of-tail arch has_pa has_vals rest known =
    ap
      (λ (b : Bool).
        (if b
            then fail
            else pure (record {
              arch = arch;
              has_pa = flags has_pa has_vals % 2 == 1;
              has_vals = flags has_pa has_vals / 2 % 2 == 1;
            }))
          rest)
      known_arch
    ∙ ap₂ (λ p v. some (record { arch = arch; has_pa = p; has_vals = v }, rest))
        (pa_back has_pa has_vals) (vals_back has_pa has_vals)
  where
    flags : Bool → Bool → ℕ
    flags p v = (if p then 1 else 0) + (if v then 2 else 0)

    known_arch : not (arch == 0 || arch == 1) ≡ false
    known_arch = ground (arith)

    pa_back : (p v : Bool) → (flags p v % 2 == 1) ≡ p
    pa_back true true = refl
    pa_back true false = refl
    pa_back false true = refl
    pa_back false false = refl

    vals_back : (p v : Bool) → (flags p v / 2 % 2 == 1) ≡ v
    vals_back true true = refl
    vals_back true false = refl
    vals_back false true = refl
    vals_back false false = refl

pub header_back :
    (vcpu_id arch : ℕ) (has_pa has_vals : Bool) (rest : List ℕ)
    → vcpu_id < 2 ^ 32
    → arch < 2
    → read_header (file_header vcpu_id arch has_pa has_vals ++ rest)
      ≡ some (record { arch = arch; has_pa = has_pa; has_vals = has_vals }, rest)
unfolding read_header file_header
header_back vcpu_id arch has_pa has_vals rest small known =
    let tail : List ℕ = tail_of arch has_pa has_vals in
    ap read_header
      (spread (bytes_of 4 trace_format_magic) (bytes_of 4 3) (bytes_of 4 vcpu_id) tail rest)
    ∙ ap
        (continued (λ magic. read_number 4 >>= λ version.
          read_number 4 >>= λ v. read_exact 4 >>= header_of magic version))
        (read_number-append 4 trace_format_magic
          (bytes_of 4 3 ++ (bytes_of 4 vcpu_id ++ (tail ++ rest))) (omega arith))
    ∙ ap
        (continued
          (λ version. read_number 4 >>= λ v. read_exact 4 >>= header_of trace_format_magic version))
        (read_number-append 4 3 (bytes_of 4 vcpu_id ++ (tail ++ rest)) (omega arith))
    ∙ ap (continued (λ v. read_exact 4 >>= header_of trace_format_magic 3))
        (read_number-append 4 vcpu_id (tail ++ rest) small)
    ∙ ap (continued (header_of trace_format_magic 3)) (read_exact-append 4 tail rest refl)
    ∙ header_of-tail arch has_pa has_vals rest known
