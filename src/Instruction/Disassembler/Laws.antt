-- ===== src/Instruction/Disassembler/Laws.antt =====
-- `eachInstruction` and `disassemble` of libevmasm/Instruction.cpp, on code that is put together from
-- instructions and on any code.
use Prim.Native.Nat.{suc}
use native.Mathlib.Nat.{mod-eq_of_lt, pow-le-pow_right, le_trans}
use jules_solidity_pppascal.Common.{
  All, ◌+◌, ◌*◌, ◌^◌, length, ◌≤◌, ◌++◌, ◌≡◌, ◌∷◌, ◌∙◌, ok, [], arith, ◌<◌, zero, refl,
  length-append, ap, subst, sym, ℕ,
}
use jules_solidity_pppascal.CommonData.Endian.{IsByte, to_big_endian}
use jules_solidity_pppascal.CommonData.Endian.Laws.{
  to_big_endian-IsByte, value, length-to_big_endian, value-to_big_endian, room_for_byte,
  shift_in_fits,
}
use jules_solidity_pppascal.Instruction.Disassembler.{
  read_data, additional_of, each_instruction, each_instruction_loop, List,
}
use jules_solidity_pppascal.Instruction.Info.Families.{additional-push}
use jules_solidity_pppascal.Instruction.Opcode.{Instruction}
use Prim.Native.Nat.add

pub read_data-append :
    (bytes rest : List ℕ) (imm : ℕ)
    → All IsByte bytes
    → (imm + 1) * 256 ^ length bytes ≤ 2 ^ 256
    → read_data (length bytes) imm (bytes ++ rest) ≡ (value imm bytes, 0, rest)
unfolding read_data value
read_data-append [] rest imm h fits = refl
read_data-append (b ∷ bytes) rest imm (hb, h) fits =
    let (small, later) = room_for_byte 256 imm b (length bytes) hb fits in
    rw (shift_in_fits 256 imm b small hb) (read_data-append bytes rest (imm * 256 + b) h later)

-- At the end of the code the bytes that are missing are counted.
pub read_data_cut :
    (bytes : List ℕ) (missing imm : ℕ)
    → All IsByte bytes
    → (imm + 1) * 256 ^ length bytes ≤ 2 ^ 256
    → read_data (length bytes + missing) imm bytes ≡ (value imm bytes, missing, [])
unfolding read_data value
read_data_cut [] zero imm h fits = refl
read_data_cut [] (suc missing) imm h fits =
    subst (λ n. read_data n imm [] ≡ (imm, suc missing, [])) (sym (add.zero (suc missing))) refl
read_data_cut (b ∷ bytes) missing imm (hb, h) fits =
    let (small, later) = room_for_byte 256 imm b (length bytes) hb fits in
    subst (λ n. read_data n imm (b ∷ bytes) ≡ (value (imm * 256 + b) bytes, missing, []))
      (sym (add.suc (length bytes) missing))
      (rw (read_data, shift_in_fits 256 imm b small hb)
        (read_data_cut bytes missing (imm * 256 + b) h later))

-- An instruction with its data as code.
abbrev pub encode_one : Instruction × ℕ → List ℕ
encode_one (inst, imm) = inst ∷ to_big_endian (additional_of inst) imm

unfoldable pub encode : List (Instruction × ℕ) → List ℕ
encode [] = []
encode (call ∷ calls) = encode_one call ++ encode calls

abbrev pub Fits : Instruction × ℕ → Type 0
Fits (inst, imm) = (inst < 256) × (imm < 256 ^ additional_of inst)

pub additional-le : (inst : Instruction) → inst < 256 → additional_of inst ≤ 32
unfolding additional_of
additional-le inst h = ground (arith, additional-push inst h)

pub word_of_bytes : (n : ℕ) → n ≤ 32 → 256 ^ n ≤ 2 ^ 256
word_of_bytes n h = le_trans (pow-le-pow_right (omega arith) h) (omega arith)

read_data-encode :
    (inst imm : ℕ) (rest : List ℕ)
    → Fits (inst, imm)
    → read_data (additional_of inst) 0 (to_big_endian (additional_of inst) imm ++ rest)
      ≡ (imm, 0, rest)
read_data-encode inst imm rest (hi, hm) =
    let n = additional_of inst in
    let bytes = to_big_endian n imm in
    let len = length-to_big_endian n imm in
    let run = read_data-append bytes rest 0 (to_big_endian-IsByte n imm) in
    let whole : value 0 bytes ≡ imm = value-to_big_endian n imm ∙ mod-eq_of_lt hm in
    rw (len, whole) at (run (rw len (omega (arith, word_of_bytes n (additional-le inst hi)))))

each_instruction_loop-encode :
    (calls : List (Instruction × ℕ)) (fuel : ℕ)
    → All Fits calls
    → length (encode calls) ≤ fuel
    → each_instruction_loop fuel (encode calls) ≡ ok calls
unfolding encode each_instruction_loop
each_instruction_loop-encode [] zero h le = refl
each_instruction_loop-encode [] (suc fuel) h le = refl
each_instruction_loop-encode ((inst, imm) ∷ calls) zero h le = absurd (omega arith)
each_instruction_loop-encode ((inst, imm) ∷ calls) (suc fuel) (h, hs) le =
    rw
      (
        read_data-encode inst imm (encode calls) h,
        each_instruction_loop-encode calls fuel hs
            (omega (arith, length-append (to_big_endian (additional_of inst) imm) (encode calls))),
      )
      (ap (λ (t : ℕ). ok ((inst, t) ∷ calls)) (omega (arith, word inst imm h)))
  where
    word : (inst imm : ℕ) → Fits (inst, imm) → imm < 2 ^ 256
    word inst imm (hi, hm) =
        le_trans hm (word_of_bytes (additional_of inst) (additional-le inst hi))

-- Code that was written instruction by instruction, each a byte followed by as many bytes of data
-- as it takes, with data that fits them, is read back as just these instructions with their data.
pub each_instruction-encode :
    (calls : List (Instruction × ℕ)) → All Fits calls → each_instruction (encode calls) ≡ ok calls
unfolding each_instruction
each_instruction-encode calls h =
    each_instruction_loop-encode calls (length (encode calls)) h (omega arith)
