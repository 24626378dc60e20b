-- ===== src/Aql/Codec.antt =====
-- Headers as words, and the numbers of the opcodes.
use npu_gpu_cpu.Prelude.{◌^◌, ◌<◌, ◌≡◌, some, arith}
use npu_gpu_cpu.Aql.{NpuOpcode, opcode_value, Header, header_words, read_header}

-- Every field holds what its width admits.
pub record FitsHeader (h : Header) : Type 0 where
  pub total_size : h.total_size < 2 ^ 11
  pub reserved : h.reserved < 2 ^ 5
  pub protocol : h.protocol < 2 ^ 8
  pub pad : h.pad < 2 ^ 8
  pub id : h.id < 2 ^ 32
  pub opcode : h.opcode < 2 ^ 32

-- A header whose fields fit is read back as it was stored, whatever words follow.
pub read_header-header_words : (h : Header) → FitsHeader h → read_header (header_words h) ≡ some h
unfolding read_header header_words
read_header-header_words h f = ground arith

-- No two opcodes have the same number.
pub opcode_value_injective : (a b : NpuOpcode) → opcode_value a ≡ opcode_value b → a ≡ b
unfolding opcode_value
opcode_value_injective a b e = ground arith
