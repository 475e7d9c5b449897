-- ===== src/Instruction/Disassembler.antt =====
-- `eachInstruction` and `disassemble` of libevmasm/Instruction.cpp.
pub mod Laws
pub mod Reading
pub mod Printing
use Prim.Native.Nat.{ℕ, suc, bit_or}
use mathlib.Core.List.{flat_map}
use jules_solidity_pppascal.Common.{
  List, if◌then◌else◌, Result, not, ok, ◌>>=◌, ◌∷◌, length, err, ◌++◌, stuck, ◌*◌, ◌==◌, ◌%◌, ◌^◌,
  [], zero,
}
use jules_solidity_pppascal.Common.Text.{codes, to_upper_hex}
use jules_solidity_pppascal.Instruction.Info.{instruction_info, is_valid_instruction}
use jules_solidity_pppascal.Instruction.Opcode.{Instruction}
use jules_solidity_pppascal.Instruction.Table.{InstructionInfo}

-- The inner loop: `imm` (`data`) takes in at most `additional` bytes. Returned are the number, the bytes that
-- are missing at the end of the code, and the code behind.
unfoldable pub read_data : ℕ → ℕ → List ℕ → ℕ × ℕ × List ℕ
read_data zero imm mem = (imm, zero, mem)
read_data (suc additional) imm [] = (imm, suc additional, [])
read_data (suc additional) imm (b ∷ mem) = read_data additional (bit_or (imm * 256 % 2 ^ 256) b) mem

unfoldable pub additional_of : Instruction → ℕ
additional_of inst = if is_valid_instruction inst then (instruction_info inst).additional else 0

-- The calls of `_onInstruction`, in order. Each round takes a byte at least, so the length of the
-- code is fuel enough.
each_instruction_loop : ℕ → List ℕ → Result (List (Instruction × ℕ))
unfolding read_data additional_of
each_instruction_loop fuel [] = ok []
each_instruction_loop zero (inst ∷ mem) = err stuck
each_instruction_loop (suc fuel) (inst ∷ mem) =
    let (imm, missing, rest) = read_data (additional_of inst) 0 mem in
    do
      calls ← each_instruction_loop fuel rest
      ok ((inst, imm * 2 ^ (8 * missing) % 2 ^ 256) ∷ calls)

unfoldable pub each_instruction : List ℕ → Result (List (Instruction × ℕ))
unfolding each_instruction_loop
each_instruction mem = each_instruction_loop (length mem) mem

-- What the callback of `disassemble` prints.
unfoldable pub print_instruction : Instruction × ℕ → List ℕ
print_instruction (inst, imm) =
    let info = instruction_info inst in
    if not (is_valid_instruction inst)
    then codes "0x" ++ to_upper_hex inst ++ codes " "
    else info.name
      ++ codes " "
      ++ (if info.additional == 0 then [] else codes "0x" ++ to_upper_hex imm ++ codes " ")

unfoldable pub disassemble : List ℕ → Result (List ℕ)
unfolding each_instruction print_instruction
disassemble mem = do calls ← each_instruction mem; ok (flat_map print_instruction calls)
