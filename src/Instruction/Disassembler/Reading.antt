-- ===== src/Instruction/Disassembler/Reading.antt =====
-- `eachInstruction` of libevmasm/Instruction.cpp, on any code.
use native.Mathlib.Nat.{one-le-pow, mod-eq_of_lt}
use jules_solidity_pppascal.Common.{
  ◌<◌, ◌≡◌, All, ◌++◌, ok, length, inl, ◌+◌, arith, ◌⊎◌, ◌≤◌, suc, ◌∷◌, zero, ◌*◌, inr, ap, ◌^◌,
  length-append, refl, ◌∙◌, subst, sym,
}
use jules_solidity_pppascal.CommonData.Endian.{IsByte}
use jules_solidity_pppascal.CommonData.Endian.Laws.{value-lt, pow-bytes, value, pow-add}
use jules_solidity_pppascal.Instruction.Disassembler.{
  each_instruction, additional_of, List, ℕ, each_instruction_loop, [],
}
use jules_solidity_pppascal.Instruction.Disassembler.Laws.{
  read_data-append, additional-le, word_of_bytes, read_data_cut,
}
use jules_solidity_pppascal.Instruction.Opcode.{Instruction}

-- What code says, instruction by instruction: each is a byte with as many bytes of data as it takes,
-- a big-endian number. If the code ends within the data of an instruction, zeros are read for the
-- bytes that are missing, and this instruction is the last.
pub data Reads : List ℕ → List (Instruction × ℕ) → Type 0 where
  at_end : Reads [] []
  whole :
      {inst : Instruction} {mem : List ℕ} {calls : List (Instruction × ℕ)} (bytes : List ℕ)
      → length bytes ≡ additional_of inst
      → Reads mem calls
      → Reads (inst ∷ (bytes ++ mem)) ((inst, value 0 bytes) ∷ calls)
  cut :
      {inst : Instruction} {bytes : List ℕ} (missing : ℕ)
      → length bytes + suc missing ≡ additional_of inst
      → Reads (inst ∷ bytes) ((inst, value 0 bytes * 256 ^ suc missing) ∷ [])

-- Code has as many bytes as are asked for and others behind them, or fewer.
abbrev Parted : ℕ → List ℕ → Type 0
Parted n mem =
    ((bytes rest : List ℕ) × (mem ≡ bytes ++ rest)
      × (length bytes ≡ n)
      × All IsByte bytes
      × All IsByte rest)
    ⊎ ((missing : ℕ) × (length mem + suc missing ≡ n))

parted : (n : ℕ) (mem : List ℕ) → All IsByte mem → Parted n mem
parted zero mem h = inl ([], mem, refl, refl, tt, h)
parted (suc n) [] h = inr (n, omega arith)
parted (suc n) (b ∷ mem) (hb, h) = elim (parted n mem h) [
  | inl (bytes, rest, same, size, hs, hr) ↦
      inl (b ∷ bytes, rest, ap (λ l. b ∷ l) same, omega (arith, size), (hb, hs), hr)
  | inr (missing, size) ↦ inr (missing, omega (arith, size))
]

-- Behind the last byte there are no more calls.
loop-nil : (fuel : ℕ) → each_instruction_loop fuel [] ≡ ok []
unfolding each_instruction_loop
loop-nil zero = refl
loop-nil (suc fuel) = refl

loop_whole :
    (fuel inst : ℕ) (bytes rest : List ℕ) (calls : List (Instruction × ℕ))
    → inst < 256
    → All IsByte bytes
    → length bytes ≡ additional_of inst
    → each_instruction_loop fuel rest ≡ ok calls
    → each_instruction_loop (suc fuel) (inst ∷ (bytes ++ rest)) ≡ ok ((inst, value 0 bytes) ∷ calls)
unfolding each_instruction_loop
loop_whole fuel inst bytes rest calls hi h size later =
    rw (← size, read_data-append bytes rest 0 h fits, later)
      (ap (λ (t : ℕ). ok ((inst, t) ∷ calls)) (omega (arith, value-lt 0 bytes h, room)))
  where
    room : 256 ^ length bytes ≤ 2 ^ 256
    room = rw size (word_of_bytes (additional_of inst) (additional-le inst hi))

    fits : (0 + 1) * 256 ^ length bytes ≤ 2 ^ 256
    fits = omega (arith, room)

loop_cut :
    (fuel inst missing : ℕ) (bytes : List ℕ)
    → inst < 256
    → All IsByte bytes
    → length bytes + missing ≡ additional_of inst
    → each_instruction_loop (suc fuel) (inst ∷ bytes)
      ≡ ok ((inst, value 0 bytes * 256 ^ missing) ∷ [])
unfolding each_instruction_loop
loop_cut fuel inst missing bytes hi h size =
    rw (← size, read_data_cut bytes missing 0 h fits)
      (ap (λ (t : ℕ). ok ((inst, t) ∷ [])) (rw (pow-bytes missing) (mod-eq_of_lt small)))
  where
    whole_word : 256 ^ length bytes * 256 ^ missing ≤ 2 ^ 256
    whole_word = rw (← pow-add, size) (word_of_bytes (additional_of inst) (additional-le inst hi))

    fits : (0 + 1) * 256 ^ length bytes ≤ 2 ^ 256
    fits = grind (arith, whole_word, one-le-pow missing 256)

    small : value 0 bytes * 256 ^ missing < 2 ^ 256
    small = grind (arith, value-lt 0 bytes h, whole_word, one-le-pow missing 256)

loop-Reads :
    (fuel : ℕ) (mem : List ℕ)
    → All IsByte mem
    → length mem ≤ fuel
    → (calls : List (Instruction × ℕ)) × (each_instruction_loop fuel mem ≡ ok calls)
      × Reads mem calls
loop-Reads fuel [] h le = ([], loop-nil fuel, at_end)
loop-Reads zero (inst ∷ mem) h le = absurd (omega arith)
loop-Reads (suc fuel) (inst ∷ mem) (hi, h) le = elim (parted (additional_of inst) mem h) [
  | inl (bytes, rest, same, size, hs, hr) ↦
      (let shorter : length rest ≤ fuel =
          omega (arith, le, ap length same, length-append bytes rest) in
        let (calls, later, reads) = loop-Reads fuel rest hr shorter in
        (
          (inst, value 0 bytes) ∷ calls,
          ap (λ l. each_instruction_loop (suc fuel) (inst ∷ l)) same
              ∙ loop_whole fuel inst bytes rest calls hi hs size later,
          subst (λ l. Reads (inst ∷ l) ((inst, value 0 bytes) ∷ calls)) (sym same)
              (whole bytes size reads),
        ))
  | inr (missing, size) ↦ (
    (inst, value 0 mem * 256 ^ suc missing) ∷ [],
    loop_cut fuel inst (suc missing) mem hi h size,
    cut missing size,
  )
]

-- Any bytes at all are read, without an error, as the instructions that they say: each a byte with
-- the bytes of its data, to the end of the code, where zeros stand for bytes that are missing.
pub each_instruction-Reads :
    (mem : List ℕ)
    → All IsByte mem
    → (calls : List (Instruction × ℕ)) × (each_instruction mem ≡ ok calls) × Reads mem calls
unfolding each_instruction
each_instruction-Reads mem h = loop-Reads (length mem) mem h (omega arith)
