-- ===== src/Raw/Plugin/Serial.antt =====
-- The bytes that `finalize_pending_insn` and `open_chunk` append.
use champsim_infra.Prelude.{ℕ, ◌+◌, Bool, List, [], ◌∷◌, ◌++◌, length, take, if◌then◌else◌}
use champsim_infra.Trace.{bytes_of}
use champsim_infra.Raw.Record.{
  trace_format_magic, encode_header, MemOp, has_value, value_bytes, Insn,
}

-- An operand. Its `value` is the array of 64 bytes.
unfoldable pub mem_op_bytes : Bool → MemOp → List ℕ
unfolding bytes_of
mem_op_bytes capture_pa m =
    bytes_of 8 m.address
    ++ ((if capture_pa then bytes_of 8 m.paddr else [])
        ++ (m.size
            ∷ m.flags
            ∷ (if has_value m.flags then take (value_bytes m.size) m.value else [])))

unfoldable pub mem_ops_bytes : Bool → List MemOp → List ℕ
unfolding mem_op_bytes
mem_ops_bytes capture_pa [] = []
mem_ops_bytes capture_pa (m ∷ ms) = mem_op_bytes capture_pa m ++ mem_ops_bytes capture_pa ms

-- The staging buffer.
unfoldable pub insn_bytes : Bool → ℕ → Insn → List ℕ
unfolding bytes_of mem_ops_bytes
insn_bytes capture_pa vcpu_id i =
    bytes_of 4 (encode_header vcpu_id i.privilege (length i.bytes) (length i.mem_ops))
    ++ (bytes_of 8 i.ip ++ (i.bytes ++ mem_ops_bytes capture_pa i.mem_ops))

-- The header of a chunk: `arch` is 0 for x86_64 and 1 for aarch64, and the last bytes are the flags,
-- VALUE_API_CAP and 0.
unfoldable pub file_header : ℕ → ℕ → Bool → Bool → List ℕ
unfolding bytes_of
file_header vcpu_id arch capture_pa capture_values =
    bytes_of 4 trace_format_magic
    ++ (bytes_of 4 3
        ++ (bytes_of 4 vcpu_id
            ++ (arch
                ∷ ((if capture_pa then 1 else 0) + (if capture_values then 2 else 0))
                ∷ (if capture_values then 16 else 0)
                ∷ 0
                ∷ [])))
