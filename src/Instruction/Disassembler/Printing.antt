-- ===== src/Instruction/Disassembler/Printing.antt =====
-- The text of `disassemble` in libevmasm/Instruction.cpp.
use mathlib.Core.List.{flat_map}
use jules_solidity_pppascal.Common.{
  Option, ◌≡◌, Bool, true, ◌++◌, ◌&&◌, if◌then◌else◌, All, ◌<◌, not, leb, some, ◌∷◌, ok, false, ltb,
  ◌-◌, Bool-cases, refl, ◌+◌, inl, ap, [], ◌==◌, inr, none, ◌/◌, ◌∙◌, ◌%◌, ◌*◌, ◌^◌, suc,
  append-nil,
}
use jules_solidity_pppascal.Common.Bits.{all_below_sound, all_below}
use jules_solidity_pppascal.Common.Dict.{lookup}
use jules_solidity_pppascal.Common.Text.{eq_text, to_upper_hex, eq_text-eq, codes}
use jules_solidity_pppascal.CommonData.Endian.{IsByte}
use jules_solidity_pppascal.CommonData.Endian.Laws.{value}
use jules_solidity_pppascal.Instruction.Disassembler.{print_instruction, disassemble, ℕ, List}
use jules_solidity_pppascal.Instruction.Disassembler.Reading.{
  each_instruction-Reads, Reads, at_end, whole, cut,
}
use jules_solidity_pppascal.Instruction.Info.{is_valid_instruction, instruction_info, unknown_info}
use jules_solidity_pppascal.Instruction.Opcode.{Instruction}
use jules_solidity_pppascal.Instruction.Table.{InstructionInfo, c_instruction_info}

abbrev takes_data : Instruction → Bool
takes_data inst = leb 0x60 inst && leb inst 0x7f

-- Numbers of one or two digits.
abbrev short_number : ℕ → List ℕ
short_number n = if ltb n 10 then (b'0' + n) ∷ [] else (b'0' + n / 10) ∷ (b'0' + n % 10) ∷ []

abbrev push_name : Instruction → List ℕ
push_name inst = codes "PUSH" ++ short_number (inst - 0x5f)

-- What should stand in the text for an instruction with its data: for 0x60 to 0x7f the word PUSH
-- with the number of bytes, 1 to 32, and the data, for other instructions of the table their name
-- alone, and for all other bytes the byte. Data and bytes are hexadecimal behind 0x, and each part
-- has a blank behind it.
unfoldable pub described : Instruction × ℕ → List ℕ
described (inst, imm) =
    if takes_data inst
    then push_name inst ++ codes " " ++ (codes "0x" ++ to_upper_hex imm ++ codes " ")
    else (elim (lookup inst c_instruction_info) [
      | none ↦ codes "0x" ++ to_upper_hex inst ++ codes " "
      | some info ↦ info.name ++ codes " "
    ])

-- What the table says of the text of an instruction.
abbrev row_fits : Instruction → Option InstructionInfo → Bool
row_fits inst none = not (takes_data inst)
row_fits inst (some info) =
    if takes_data inst
    then eq_text info.name (push_name inst) && not (info.additional == 0)
    else info.additional == 0

rows : all_below 256 (λ inst. row_fits inst (lookup inst c_instruction_info)) ≡ true
unfolding all_below lookup c_instruction_info eq_text
rows = refl

both : (a b : Bool) → (a && not b) ≡ true → (a ≡ true) × (b ≡ false)
both true true h = cc
both true false h = (refl, refl)
both false b h = cc

valid-lookup :
    (inst : ℕ) (o : Option InstructionInfo)
    → lookup inst c_instruction_info ≡ o
    → is_valid_instruction inst ≡ (elim o [ some _ ↦ true | none ↦ false ])
unfolding is_valid_instruction
valid-lookup inst o is = ap (λ o. elim o [ some _ ↦ true | none ↦ false ]) is

info-lookup :
    (inst : ℕ) (info : InstructionInfo)
    → lookup inst c_instruction_info ≡ some info
    → instruction_info inst ≡ info
unfolding instruction_info
info-lookup inst info is = ap (λ o. elim o [ some i ↦ i | none ↦ unknown_info inst ]) is

print_instruction-described :
    (inst imm : ℕ) → inst < 256 → print_instruction (inst, imm) ≡ described (inst, imm)
unfolding print_instruction described
print_instruction-described inst imm small =
    by_row (lookup inst c_instruction_info) refl
      (all_below_sound 256 (λ i. row_fits i (lookup i c_instruction_info)) inst rows small)
  where
    by_row :
        (o : Option InstructionInfo)
        → lookup inst c_instruction_info ≡ o
        → row_fits inst o ≡ true
        → print_instruction (inst, imm) ≡ described (inst, imm)
    by_row none is row = elim (Bool-cases (takes_data inst)) [
      | inl pushes ↦ cc (rw pushes at row)
      | inr other ↦ rw (valid-lookup inst none is, is, other) refl
    ]
    by_row (some info) is row = elim (Bool-cases (takes_data inst)) [
      | inr other ↦
          rw
            (
              valid-lookup inst (some info) is,
              info-lookup inst info is,
              is,
              other,
              (rw other at row),
            )
            (append-nil (info.name ++ codes " "))
      | inl pushes ↦
          (let (named, more) =
              both (eq_text info.name (push_name inst)) (info.additional == 0) (rw pushes at row) in
            rw (valid-lookup inst (some info) is, info-lookup inst info is, pushes, more)
              (ap (λ name. name ++ codes " " ++ (codes "0x" ++ to_upper_hex imm ++ codes " "))
                (eq_text-eq info.name (push_name inst) named)))
    ]

All-behind : (bytes rest : List ℕ) → All IsByte (bytes ++ rest) → All IsByte rest
All-behind [] rest h = h
All-behind (b ∷ bytes) rest (_, h) = All-behind bytes rest h

flat_map-described :
    {mem : List ℕ} {calls : List (Instruction × ℕ)}
    → Reads mem calls
    → All IsByte mem
    → flat_map print_instruction calls ≡ flat_map described calls
unfolding flat_map
flat_map-described at_end h = refl
flat_map-described (whole {inst} {mem} {calls} bytes size reads) (hi, h) =
    ap (λ t. t ++ flat_map print_instruction calls)
      (print_instruction-described inst (value 0 bytes) hi)
    ∙ ap (λ t. described (inst, value 0 bytes) ++ t)
        (flat_map-described reads (All-behind bytes mem h))
flat_map-described (cut {inst} {bytes} missing size) (hi, h) =
    ap (λ t. t ++ []) (print_instruction-described inst (value 0 bytes * 256 ^ suc missing) hi)

-- Any bytes at all are disassembled, without an error, to the text of the instructions that they say,
-- one after the other to the end of the code, where zeros stand for bytes of data that are missing.
-- The bytes 0x60 to 0x7f are written as PUSH1 to PUSH32 with their data in hexadecimal behind 0x,
-- other instructions of the table as their name, all other bytes in hexadecimal behind 0x. Each of
-- these parts has a blank behind it.
pub disassemble-described :
    (mem : List ℕ)
    → All IsByte mem
    → (calls : List (Instruction × ℕ)) × Reads mem calls
      × (disassemble mem ≡ ok (flat_map described calls))
unfolding disassemble
disassemble-described mem h =
    let (calls, read, reads) = each_instruction-Reads mem h in
    (calls, reads, rw read (ap ok (flat_map-described reads h)))
