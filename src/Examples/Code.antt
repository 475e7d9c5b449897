-- ===== src/Examples/Code.antt =====
-- The theorems on instructions at concrete inputs.
use jules_solidity_pppascal.Common.{List, ℕ, ◌∷◌, [], All, ◌≡◌, ok, arith}
use jules_solidity_pppascal.Common.Dict.{lookup}
use jules_solidity_pppascal.Instruction.Disassembler.{additional_of, each_instruction, disassemble}
use jules_solidity_pppascal.Instruction.Disassembler.Laws.{encode, each_instruction-encode, Fits}
use mathlib.Core.List.{flat_map}
use jules_solidity_pppascal.Instruction.Disassembler.Printing.{disassemble-described, described}
use jules_solidity_pppascal.Instruction.Disassembler.Reading.{each_instruction-Reads, Reads}
use jules_solidity_pppascal.Instruction.Info.{
  get_push_number, swap_instruction, dup_instruction, get_log_number, is_log_instruction,
  is_valid_instruction, get_dup_number, instruction_info, log_instruction, push_instruction,
  is_dup_instruction, is_push_instruction, is_swap_instruction, get_swap_number,
}
use jules_solidity_pppascal.Instruction.Info.Families.{
  numbered_families, named_inst, instruction_named, Family, instruction_named-name,
}
use jules_solidity_pppascal.Instruction.Opcode.{Instruction}
use jules_solidity_pppascal.Instruction.Table.{c_instructions, c_instruction_info}
use jules_solidity_pppascal.Instruction.Opcode

abbrev program : List (Instruction × ℕ)
program = (Opcode.push2, 0x1234) ∷ (Opcode.add, 0) ∷ []

program-Fits : All Fits program
unfolding additional_of is_valid_instruction instruction_info lookup c_instruction_info
program-Fits = ((omega arith, omega arith), ((omega arith, omega arith), tt))

each_instruction-encode_example : each_instruction (encode program) ≡ ok program
each_instruction-encode_example = each_instruction-encode program program-Fits

each_instruction-Reads_example :
    (calls : List (Instruction × ℕ)) × (each_instruction (0x7f ∷ 1 ∷ []) ≡ ok calls)
    × Reads (0x7f ∷ 1 ∷ []) calls
each_instruction-Reads_example =
    each_instruction-Reads (0x7f ∷ 1 ∷ []) (omega arith, (omega arith, tt))

disassemble-described_example :
    (calls : List (Instruction × ℕ)) × Reads (0x7f ∷ 1 ∷ []) calls
    × (disassemble (0x7f ∷ 1 ∷ []) ≡ ok (flat_map described calls))
disassemble-described_example =
    disassemble-described (0x7f ∷ 1 ∷ []) (omega arith, (omega arith, tt))

numbered_families_example :
    Family push_instruction is_push_instruction get_push_number 1 32 5 0 1 5
    × Family dup_instruction is_dup_instruction get_dup_number 1 16 0 5 6 5
    × Family swap_instruction is_swap_instruction get_swap_number 1 16 0 6 6 5
    × Family log_instruction is_log_instruction get_log_number 0 4 0 7 0 5
numbered_families_example = numbered_families 5

instruction_named-name_example :
    instruction_named (instruction_info Opcode.add).name c_instructions ≡ named_inst Opcode.add
instruction_named-name_example = instruction_named-name Opcode.add (omega arith)
