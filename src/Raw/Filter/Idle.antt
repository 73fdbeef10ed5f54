-- ===== src/Raw/Filter/Idle.antt =====
-- `IdleBuffer` of trace_filter.c: the bytes of the buffered records, one after another, and the place
-- of each. `bytes` is the first bytes_pos of the array and `offsets` and `lengths` the first
-- slots_used; a failed realloc is not modelled, and the sizes do not wrap.
pub mod Slots
use champsim_infra.Prelude.{
  ℕ, zero, suc, ◌+◌, ◌*◌, ◌<◌, ◌≤◌, ◌≡◌, refl, sym, ap, ap₂, subst, ◌∙◌, Bool, true, false, List,
  [], ◌∷◌, ◌++◌, append_assoc, append-nil, map, length, length-append, take, drop, ltb, inc,
  if◌then◌else◌, arith,
}
use champsim_infra.Raw.Bytes.{take-append, drop-append}
use champsim_infra.Raw.Convert.Writer.{concat}

pub record IdleBuffer : Type 0 where
  pub bytes : List ℕ
  pub bytes_size : ℕ
  pub offsets : List ℕ
  pub lengths : List ℕ
  pub slots_size : ℕ
  pub kernel_count : ℕ

abbrev pub idle_buffer_init : IdleBuffer
idle_buffer_init = record {
  bytes = [];
  bytes_size = 64 * 1024;
  offsets = [];
  lengths = [];
  slots_size = 1024;
  kernel_count = 0;
}

abbrev pub idle_buffer_reset : IdleBuffer → IdleBuffer
idle_buffer_reset b = record b { bytes = []; offsets = []; lengths = []; kernel_count = 0 }

-- The loop that doubles `bytes_size`.
unfoldable pub grow : ℕ → ℕ → ℕ → ℕ
grow zero need size = size
grow (suc fuel) need size = elim (ltb size need) [ true ↦ grow fuel need (size * 2) | false ↦ size ]

unfoldable pub idle_buffer_append : List ℕ → Bool → IdleBuffer → IdleBuffer
unfolding grow
idle_buffer_append record_bytes is_kernel b =
    let need = length b.bytes + length record_bytes in
    record b {
      bytes = b.bytes ++ record_bytes;
      bytes_size = if ltb b.bytes_size need then grow need need b.bytes_size else b.bytes_size;
      offsets = b.offsets ++ length b.bytes ∷ [];
      lengths = b.lengths ++ length record_bytes ∷ [];
      slots_size =
          if ltb b.slots_size (length b.offsets + 1) then b.slots_size * 2 else b.slots_size;
      kernel_count = if is_kernel then inc b.kernel_count else b.kernel_count;
    }

-- The records as they are read back, slot by slot.
unfoldable pub slot_bytes : List ℕ → List ℕ → List ℕ → List (List ℕ)
slot_bytes bytes [] lengths = []
slot_bytes bytes (o ∷ os) [] = []
slot_bytes bytes (o ∷ os) (l ∷ ls) = take l (drop o bytes) ∷ slot_bytes bytes os ls
