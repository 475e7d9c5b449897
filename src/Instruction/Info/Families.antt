-- ===== src/Instruction/Info/Families.antt =====
-- The tables of instructions and the numbered families: libevmasm/Instruction.h and
-- libevmasm/Instruction.cpp.
use Prim.Native.Nat.{ℕ, suc}
use native.Mathlib.Decide.{dec_lt}
use jules_solidity_pppascal.Common.{
  ◌≡◌, ◌+◌, true, ◌&&◌, ◌==◌, ok, refl, arith, ◌⊎◌, ◌<◌, err, invalid_opcode, List, if◌then◌else◌,
  Result, Option, ◌||◌, ◌↔◌, inr, some, inl, not, none, ◌≤◌, zero, false, [], ◌∷◌,
}
use jules_solidity_pppascal.Common.Bits.{all_below, all_below_sound}
use jules_solidity_pppascal.Common.Text.{eq_text}
use jules_solidity_pppascal.Instruction.Info.{
  is_push_instruction, is_dup_instruction, is_swap_instruction, is_log_instruction, get_push_number,
  get_dup_number, get_swap_number, get_log_number, push_instruction, dup_instruction,
  swap_instruction, log_instruction, instruction_info, is_valid_instruction, Bool,
}
use jules_solidity_pppascal.Instruction.Opcode.{Instruction}
use jules_solidity_pppascal.Instruction.Table.{c_instructions}
use jules_solidity_pppascal.Instruction.Opcode

tables : Unit {0}
unfolding all_below instruction_info is_valid_instruction is_push_instruction is_dup_instruction
    is_swap_instruction is_log_instruction c_instructions eq_text
tables = tt

-- What the table says of a valid instruction.
shape : Instruction → ℕ → ℕ → ℕ → Bool
shape inst additional args ret =
    is_valid_instruction inst
    && (instruction_info inst).additional == additional
    && (instruction_info inst).args == args
    && (instruction_info inst).ret == ret

pub record HasShape (inst : Instruction) (additional args ret : ℕ) : Type 0 where
  pub valid : is_valid_instruction inst ≡ true
  pub additional_is : (instruction_info inst).additional ≡ additional
  pub args_is : (instruction_info inst).args ≡ args
  pub ret_is : (instruction_info inst).ret ≡ ret

shape-HasShape :
    (inst : Instruction) (additional args ret : ℕ)
    → shape inst additional args ret ≡ true
    → HasShape inst additional args ret
unfolding shape
shape-HasShape inst additional args ret h = ground arith

push_table : all_below 32 (λ n. shape (0x60 + n) (suc n) 0 1) ≡ true
unfolding tables shape
push_table = refl

dup_table : all_below 16 (λ n. shape (0x80 + n) 0 (suc n) (suc (suc n))) ≡ true
unfolding tables shape
dup_table = refl

swap_table : all_below 16 (λ n. shape (0x90 + n) 0 (suc (suc n)) (suc (suc n))) ≡ true
unfolding tables shape
swap_table = refl

log_table : all_below 5 (λ n. shape (0xa0 + n) 0 (n + 2) 0) ≡ true
unfolding tables shape
log_table = refl

-- `make` gives, for each number from `least` to `most`, an instruction that `belongs` to the family,
-- has that number and the given shape in the table; for any other number it throws.
pub Family :
    (make : ℕ → Result Instruction) (belongs : Instruction → Bool) (number_of : Instruction → ℕ)
    (least most additional args ret n : ℕ)
    → Type 0
Family make belongs number_of least most additional args ret n =
    ((inst : Instruction) × (make n ≡ ok inst)
      × (belongs inst ≡ true)
      × (number_of inst ≡ n)
      × HasShape inst additional args ret)
    ⊎ (((n < least) ⊎ (most < n)) × (make n ≡ err invalid_opcode))

push-Family : (n : ℕ) → Family push_instruction is_push_instruction get_push_number 1 32 n 0 1 n
unfolding Family push_instruction is_push_instruction get_push_number
push-Family zero = inr (inl (omega arith), refl)
push-Family (suc m) = elim (dec_lt m 32) [
  | yes h ↦ inl (
    0x60 + m,
    ground arith,
    ground arith,
    ground arith,
    shape-HasShape _ _ _ _ (all_below_sound 32 _ m push_table h),
  )
  | no h ↦ inr (inr (omega arith), ground arith)
]

pub dup-HasShape : (m : ℕ) → m < 16 → HasShape (0x80 + m) 0 (suc m) (suc (suc m))
dup-HasShape m h = shape-HasShape _ _ _ _ (all_below_sound 16 _ m dup_table h)

pub swap-HasShape : (m : ℕ) → m < 16 → HasShape (0x90 + m) 0 (suc (suc m)) (suc (suc m))
swap-HasShape m h = shape-HasShape _ _ _ _ (all_below_sound 16 _ m swap_table h)

dup-Family : (n : ℕ) → Family dup_instruction is_dup_instruction get_dup_number 1 16 0 n (suc n) n
unfolding Family dup_instruction is_dup_instruction get_dup_number
dup-Family zero = inr (inl (omega arith), refl)
dup-Family (suc m) = elim (dec_lt m 16) [
  | yes h ↦ inl (0x80 + m, ground arith, ground arith, ground arith, dup-HasShape m h)
  | no h ↦ inr (inr (omega arith), ground arith)
]

swap-Family :
    (n : ℕ) → Family swap_instruction is_swap_instruction get_swap_number 1 16 0 (suc n) (suc n) n
unfolding Family swap_instruction is_swap_instruction get_swap_number
swap-Family zero = inr (inl (omega arith), refl)
swap-Family (suc m) = elim (dec_lt m 16) [
  | yes h ↦ inl (0x90 + m, ground arith, ground arith, ground arith, swap-HasShape m h)
  | no h ↦ inr (inr (omega arith), ground arith)
]

-- Instructions that take two words and leave one.
unfoldable pub is_binary : Instruction → Bool
is_binary inst =
    inst == Opcode.mul
    || inst == Opcode.div
    || inst == Opcode.and_op
    || inst == Opcode.signextend
    || inst == Opcode.shl
    || inst == Opcode.shr

binary_table : all_below 256 (λ inst. not (is_binary inst) || shape inst 0 2 1) ≡ true
unfolding tables shape is_binary
binary_table = refl

not_or_elim : (a b : Bool) → (not a || b) ≡ true → a ≡ true → b ≡ true
not_or_elim a b h k = ground arith

pub binary-HasShape :
    (inst : Instruction) → inst < 256 → is_binary inst ≡ true → HasShape inst 0 2 1
binary-HasShape inst h b =
    shape-HasShape inst 0 2 1 (not_or_elim _ _ (all_below_sound 256 _ inst binary_table h) b)

pub pop-HasShape : HasShape Opcode.pop 0 1 0
unfolding tables shape
pop-HasShape = shape-HasShape Opcode.pop 0 1 0 refl

log-Family : (n : ℕ) → Family log_instruction is_log_instruction get_log_number 0 4 0 (n + 2) 0 n
unfolding Family log_instruction is_log_instruction get_log_number
log-Family n = elim (dec_lt n 5) [
  | yes h ↦ inl (
    0xa0 + n,
    ground arith,
    ground arith,
    ground arith,
    shape-HasShape _ _ _ _ (all_below_sound 5 _ n log_table h),
  )
  | no h ↦ inr (inr (omega arith), ground arith)
]

-- PUSH1 to PUSH32 take as many further bytes of code as their number says, have no argument and one
-- result; DUPn has n arguments and n + 1 results, SWAPn has n + 1 of both, LOGn has n + 2 arguments
-- and no result. Each of the four functions answers for the numbers of its family and throws for
-- all others.
pub numbered_families :
    (n : ℕ)
    → Family push_instruction is_push_instruction get_push_number 1 32 n 0 1 n
      × Family dup_instruction is_dup_instruction get_dup_number 1 16 0 n (suc n) n
      × Family swap_instruction is_swap_instruction get_swap_number 1 16 0 (suc n) (suc n) n
      × Family log_instruction is_log_instruction get_log_number 0 4 0 (n + 2) 0 n
numbered_families n = (push-Family n, dup-Family n, swap-Family n, log-Family n)

additional_check : Instruction → Bool
additional_check inst =
    if is_push_instruction inst
    then (is_valid_instruction inst && (instruction_info inst).additional == get_push_number inst)
    else (instruction_info inst).additional == 0

additional_table : all_below 256 additional_check ≡ true
unfolding tables additional_check get_push_number
additional_table = refl

-- Of the 256 bytes exactly the PUSH instructions are followed by data, at most 32 bytes of it.
pub additional-push :
    (inst : Instruction)
    → inst < 256
    → ((0 < (instruction_info inst).additional) ↔ (is_push_instruction inst ≡ true))
      × ((instruction_info inst).additional ≤ 32)
unfolding additional_check get_push_number is_push_instruction
additional-push inst h =
    ground (arith, all_below_sound 256 additional_check inst additional_table h)

-- The mnemonic of an instruction, looked up.
unfoldable pub instruction_named : List ℕ → List (List ℕ × Instruction) → Option Instruction
instruction_named name [] = none
instruction_named name ((known, inst) ∷ table) =
    if eq_text known name then some inst else instruction_named name table

-- Without a mnemonic in `c_instructions`.
abbrev pub nameless : Instruction → Bool
nameless inst = inst == Opcode.synccall || inst == Opcode.callbackdest

eq_option : Option Instruction → Option Instruction → Bool
eq_option (some i) (some j) = i == j
eq_option none none = true
eq_option _ _ = false

eq_option-eq : (a b : Option Instruction) → eq_option a b ≡ true → a ≡ b
unfolding eq_option
eq_option-eq (some i) (some j) h = ground arith
eq_option-eq (some i) none h = cc
eq_option-eq none (some j) h = cc
eq_option-eq none none h = refl

abbrev pub named_inst : Instruction → Option Instruction
named_inst inst = if is_valid_instruction inst && not (nameless inst) then some inst else none

named_check : Instruction → Bool
named_check inst =
    eq_option (instruction_named (instruction_info inst).name c_instructions) (named_inst inst)

named_table : all_below 256 named_check ≡ true
unfolding tables named_check instruction_named eq_option
named_table = refl

-- Looking up the name of a byte's instruction among the mnemonics gives that byte back, if the byte
-- is a valid instruction other than SYNCCALL and CALLBACKDEST, and nothing otherwise.
pub instruction_named-name :
    (inst : Instruction)
    → inst < 256
    → instruction_named (instruction_info inst).name c_instructions ≡ named_inst inst
unfolding named_check
instruction_named-name inst h =
    eq_option-eq _ _ (all_below_sound 256 named_check inst named_table h)
