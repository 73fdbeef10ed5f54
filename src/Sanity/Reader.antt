-- ===== src/Sanity/Reader.antt =====
-- `TraceReader`: the decompressor's pipe, or the file itself, read a record at a time.
use champsim_infra.Prelude.{
  ℕ, ◌-◌, ◌&&◌, ◌||◌, not, Bool, true, false, Option, none, some, List, [], ◌∷◌, ◌++◌, length, take,
  drop, leb, ◌==◌, if◌then◌else◌, codes, str_eq, ℤ, pos, negsuc,
}

unfoldable pub ends_with : List ℕ → List ℕ → Bool
unfolding str_eq
ends_with s suffix =
    leb (length suffix) (length s) && str_eq (drop (length s - length suffix) s) suffix

-- Each quote of the text closes the string, is written escaped, and opens it again.
unfoldable pub quote_from : List ℕ → List ℕ
quote_from [] = []
quote_from (c ∷ s) = (if c == 39 then 39 ∷ 92 ∷ 39 ∷ 39 ∷ [] else c ∷ []) ++ quote_from s

unfoldable pub shell_quote : List ℕ → List ℕ
unfolding quote_from
shell_quote s = 39 ∷ quote_from s ++ 39 ∷ []

unfoldable pub decompressor : List ℕ → Option (List ℕ)
unfolding ends_with
decompressor path =
    if ends_with path (codes ".gz")
    then some (codes "gzip -dc")
    else if ends_with path (codes ".xz")
    then some (codes "xz -dc")
    else if ends_with path (codes ".zst")
    then some (codes "zstd -dcq")
    else if ends_with path (codes ".bz2")
    then some (codes "bzip2 -dc")
    else none

unfoldable pub command : List ℕ → List ℕ → List ℕ
unfolding shell_quote
command decomp path = decomp ++ codes " " ++ shell_quote path

-- What the other end of an open stream does: the bytes that it delivers, whether ferror is set when
-- they have run out, and what pclose or fclose returns.
pub record Source : Type 0 where
  pub bytes : List ℕ
  pub fails : Bool
  pub close_status : ℤ

-- fopen and popen; `none` is a null stream.
pub record Streams : Type 0 where
  pub open_file : List ℕ → Option Source
  pub open_pipe : List ℕ → Option Source

-- The members: `fp` is the open stream, `none` once it is closed; `status` is 0, or what
-- `finish` stored.
pub record TraceReader : Type 0 where
  pub fp : Option Source
  pub piped : Bool
  pub partial_bytes : ℕ
  pub read_error : Bool
  pub status : ℤ

abbrev pub fresh : Source → Bool → TraceReader
fresh src piped = record {
  fp = some src;
  piped = piped;
  partial_bytes = 0;
  read_error = false;
  status = pos 0;
}

-- The constructor; `none` is its exception.
unfoldable pub open_trace : Streams → List ℕ → Option TraceReader
unfolding decompressor command
open_trace m path = elim (decompressor path) [
  | none ↦ elim (m.open_file path) [ none ↦ none | some src ↦ some (fresh src false) ]
  | some decomp ↦ elim (m.open_pipe (command decomp path)) [
    | none ↦ none
    | some src ↦ some (fresh src true)
  ]
]

-- A read of `n` bytes from an open stream: the record, if it is whole, and the reader.
abbrev pub read_from : ℕ → TraceReader → Source → Option (List ℕ) × TraceReader
read_from n tr src =
    let got : ℕ = length (take n src.bytes) in
    let tr' : TraceReader = record tr { fp = some (record src { bytes = drop n src.bytes }) } in
    if got == n then (some (take n src.bytes), tr') else (
      none,
      record tr' {
        partial_bytes = if got == 0 then tr.partial_bytes else got;
        read_error = tr.read_error || src.fails;
      },
    )

unfoldable pub read : ℕ → TraceReader → Option (List ℕ) × TraceReader
read n tr = elim tr.fp [ none ↦ (none, tr) | some src ↦ read_from n tr src ]

abbrev pub is_zero : ℤ → Bool
is_zero (pos n) = n == 0
is_zero (negsuc n) = false

-- A read error makes the status -1; then the stream's own status counts, if it is not 0.
abbrev pub finish_status : TraceReader → Source → ℤ
finish_status tr src =
    let status : ℤ = if tr.read_error then negsuc 0 else tr.status in
    if tr.piped
    then (if not (is_zero src.close_status) && is_zero status then src.close_status else status)
    else (if not (is_zero src.close_status) && is_zero status then negsuc 0 else status)

unfoldable pub finish : TraceReader → ℤ × TraceReader
finish tr = elim tr.fp [
  | none ↦ (tr.status, tr)
  | some src ↦
      let status : ℤ = finish_status tr src in (status, record tr { status = status; fp = none })
]
