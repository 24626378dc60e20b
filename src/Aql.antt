-- ===== src/Aql.antt =====
-- rocm-npu/npu_aql.h: the opcodes and packets of the NPU firmware. A packed struct is the list of
-- its 32-bit words in memory order; bit fields fill a word from its low end, as GCC lays them out.
pub mod Codec
use npu_gpu_cpu.Prelude.{ℕ, ◌+◌, ◌*◌, ◌/◌, ◌%◌, ◌^◌, ◌==◌, Option, none, some, List, [], ◌∷◌}

pub data NpuOpcode : Type 0 where
  nop create_context destroy_context get_telemetry sync_bo execute_buffer query_status : NpuOpcode
  exec_dpu config_cu chain_exec_buffer chain_exec_dpu chain_exec_npu : NpuOpcode

unfoldable pub opcode_value : NpuOpcode → ℕ
opcode_value nop = 0x0
opcode_value create_context = 0x2
opcode_value destroy_context = 0x3
opcode_value get_telemetry = 0x4
opcode_value sync_bo = 0x7
opcode_value execute_buffer = 0xC
opcode_value query_status = 0xD
opcode_value exec_dpu = 0x10
opcode_value config_cu = 0x11
opcode_value chain_exec_buffer = 0x12
opcode_value chain_exec_dpu = 0x13
opcode_value chain_exec_npu = 0x18

-- `npu_aql_header`
pub record Header : Type 0 where
  pub total_size : ℕ
  pub reserved : ℕ
  pub protocol : ℕ
  pub pad : ℕ
  pub id : ℕ
  pub opcode : ℕ

-- `npu_aql_exec`
pub record Exec : Type 0 where
  pub header : Header
  pub cmd_addr : ℕ
  pub cmd_size : ℕ
  pub completion_signal_addr : ℕ

-- `npu_aql_create_ctx`
pub record CreateCtx : Type 0 where
  pub header : Header
  pub pasid : ℕ
  pub num_cols : ℕ
  pub priority : ℕ
  pub pad : ℕ

-- `npu_aql_status`
pub record Status : Type 0 where
  pub status_code : ℕ
  pub pad : ℕ × ℕ × ℕ

abbrev word : ℕ → ℕ
word x = x % 2 ^ 32

-- The widths of the bit fields are 11, 5, 8 and 8: a value that is stored is cut to its width.
pub header_words : Header → List ℕ
header_words h =
    (h.total_size % 2 ^ 11
      + h.reserved % 2 ^ 5 * 2 ^ 11
      + h.protocol % 2 ^ 8 * 2 ^ 16
      + h.pad % 2 ^ 8 * 2 ^ 24)
    ∷ word h.id
    ∷ word h.opcode
    ∷ []

-- A `uint64_t` is two words, the low one first.
abbrev pub qword_words : ℕ → List ℕ
qword_words q = q % 2 ^ 32 ∷ (q / 2 ^ 32 % 2 ^ 32) ∷ []

-- What a reader of the struct gets from the words.
unfoldable pub read_header : List ℕ → Option Header
read_header (a ∷ b ∷ c ∷ _) = some (record {
  total_size = a % 2 ^ 11;
  reserved = a / 2 ^ 11 % 2 ^ 5;
  protocol = a / 2 ^ 16 % 2 ^ 8;
  pad = a / 2 ^ 24 % 2 ^ 8;
  id = b;
  opcode = c;
})
read_header _ = none
