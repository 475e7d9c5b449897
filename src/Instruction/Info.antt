-- ===== src/Instruction/Info.antt =====
-- What is asked of one instruction: the inline functions of libevmasm/Instruction.h, with
-- `instructionInfo` and `isValidInstruction` of libevmasm/Instruction.cpp.
pub mod Families
use jules_solidity_pppascal.Instruction.Opcode
use Prim.Native.Nat.{ℕ}
use jules_solidity_pppascal.Common.{
  Bool, some, leb, Result, ◌++◌, true, ◌&&◌, false, ◌>>◌, none, ◌+◌, ◌^◌, assert_throw, ◌-◌,
  invalid_opcode, ◌%◌, ok,
}
use jules_solidity_pppascal.Common.Dict.{lookup}
use jules_solidity_pppascal.Common.Text.{codes, to_decimal}
use jules_solidity_pppascal.Instruction.Opcode.{Instruction}
use jules_solidity_pppascal.Instruction.Table.{InstructionInfo, Tier, c_instruction_info}

unfoldable pub is_push_instruction : Instruction → Bool
is_push_instruction inst = leb Opcode.push1 inst && leb inst Opcode.push32

unfoldable pub is_dup_instruction : Instruction → Bool
is_dup_instruction inst = leb Opcode.dup1 inst && leb inst Opcode.dup16

unfoldable pub is_swap_instruction : Instruction → Bool
is_swap_instruction inst = leb Opcode.swap1 inst && leb inst Opcode.swap16

unfoldable pub is_log_instruction : Instruction → Bool
is_log_instruction inst = leb Opcode.log0 inst && leb inst Opcode.log4

-- The differences are taken in `unsigned`, 32 bits wide.
unfoldable pub get_push_number : Instruction → ℕ
get_push_number inst = (inst + 2 ^ 32 - Opcode.push1 + 1) % 2 ^ 32

unfoldable pub get_dup_number : Instruction → ℕ
get_dup_number inst = (inst + 2 ^ 32 - Opcode.dup1 + 1) % 2 ^ 32

unfoldable pub get_swap_number : Instruction → ℕ
get_swap_number inst = (inst + 2 ^ 32 - Opcode.swap1 + 1) % 2 ^ 32

unfoldable pub get_log_number : Instruction → ℕ
get_log_number inst = (inst + 2 ^ 32 - Opcode.log0) % 2 ^ 32

unfoldable pub push_instruction : ℕ → Result Instruction
push_instruction number = do
  assert_throw (leb 1 number && leb number 32) invalid_opcode
  ok (Opcode.push1 + number - 1)

unfoldable pub dup_instruction : ℕ → Result Instruction
dup_instruction number = do
  assert_throw (leb 1 number && leb number 16) invalid_opcode
  ok (Opcode.dup1 + number - 1)

unfoldable pub swap_instruction : ℕ → Result Instruction
swap_instruction number = do
  assert_throw (leb 1 number && leb number 16) invalid_opcode
  ok (Opcode.swap1 + number - 1)

unfoldable pub log_instruction : ℕ → Result Instruction
log_instruction number = do assert_throw (leb number 4) invalid_opcode; ok (Opcode.log0 + number)

-- What `instructionInfo` returns once `.at()` has thrown.
abbrev pub unknown_info : Instruction → InstructionInfo
unknown_info inst = record {
  name = codes "<INVALID_INSTRUCTION: " ++ to_decimal inst ++ codes ">";
  additional = 0;
  args = 0;
  ret = 0;
  side_effects = false;
  gas_price_tier = Tier.invalid;
}

unfoldable pub instruction_info : Instruction → InstructionInfo
unfolding lookup c_instruction_info to_decimal
instruction_info inst = elim (lookup inst c_instruction_info) [
  | some info ↦ info
  | none ↦ unknown_info inst
]

unfoldable pub is_valid_instruction : Instruction → Bool
unfolding lookup c_instruction_info
is_valid_instruction inst = elim (lookup inst c_instruction_info) [
  | some info ↦ true
  | none ↦ false
]
