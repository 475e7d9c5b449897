-- ===== src/Codegen/Stack/Words.antt =====
-- Code that shifts the word on the top: leftShiftNumberOnStack and rightShiftNumberOnStack in
-- libsolidity/codegen/CompilerUtils.cpp.
use jules_solidity_pppascal.Codegen.Stack.Effects.{bind-Runs, instruction-Runs, Runs, number-Runs}
use jules_solidity_pppascal.Common.Int.{pos}
use jules_solidity_pppascal.Codegen.Context.{append_number, Context, append_instruction}
use jules_solidity_pppascal.Codegen.Machine.{
  push_of, sign_extend, perform_plain, supports, binary, perform,
}
use jules_solidity_pppascal.EvmVersion.{has_bitwise_shifting, Version, less_version}
use jules_solidity_pppascal.Common.Masks.{pow-pos}
use jules_solidity_pppascal.Codegen.Stack.{
  left_shift_number_on_stack, right_shift_number_on_stack, append_swap, internal_compiler_error,
}
use jules_solidity_pppascal.Codegen.Stack.Moves.{
  assert-Runs, around-Runs, swap_middle-Runs, if-Runs,
}
use jules_solidity_pppascal.AssemblyItem.{word_mod}
use jules_solidity_pppascal.Instruction.Info.Families.{is_binary, binary-HasShape}
use Prim.Native.Nat.{ℕ, bit_and, suc}
use native.Mathlib.Nat.{mul_comm}
use jules_solidity_pppascal.Common.{
  suc, List, ◌∷◌, ◌<◌, ◌≡◌, true, some, ◌*◌, refl, ◌/◌, if◌then◌else◌, arith, ◌^◌, ◌>>=◌, ◌==◌, ◌%◌,
  ap, lt→ltb, false, ◌∙◌, [],
}
use jules_solidity_pppascal.Instruction.Opcode

binary-Runs :
    (inst h a b v : ℕ) (c : Context) (s : List ℕ)
    → inst < 256
    → is_binary inst ≡ true
    → supports c.evm_version inst ≡ true
    → perform inst (a ∷ b ∷ s) ≡ some (v ∷ s)
    → c.asm.current_deposit ≡ pos (suc (suc h))
    → Runs (suc h) c (a ∷ b ∷ s) (v ∷ s) (append_instruction inst c)
binary-Runs inst h a b v c s small is has performed height =
    instruction-Runs inst (suc (suc h)) (suc h) 2 1 0 c (a ∷ b ∷ s) (v ∷ s)
      (binary-HasShape inst small is) (omega arith) (omega arith) (omega arith) height has performed

-- A number, then an instruction on it and the word below.
pub with_number-Runs :
    (inst h a b v : ℕ) (c : Context) (s : List ℕ)
    → inst < 256
    → is_binary inst ≡ true
    → supports c.evm_version inst ≡ true
    → perform inst (a ∷ b ∷ s) ≡ some (v ∷ s)
    → c.asm.current_deposit ≡ pos (suc h)
    → Runs (suc h) c (b ∷ s) (v ∷ s) (append_number a c >>= λ c'. append_instruction inst c')
with_number-Runs inst h a b v c s small is has performed height =
    bind-Runs (suc (suc h)) (suc h) c (b ∷ s) (a ∷ b ∷ s) (v ∷ s) (append_number a c) _
      (number-Runs a (suc h) c (b ∷ s) height)
      λ f height'. binary-Runs inst h a b v (record c { asm = f }) s small is has performed height'

pub perform-signextend :
    (k x : ℕ) (s : List ℕ) → perform Opcode.signextend (k ∷ x ∷ s) ≡ some (sign_extend k x ∷ s)
unfolding perform perform_plain binary push_of
perform-signextend k x s = refl

pub perform-and :
    (a x : ℕ) (s : List ℕ) → perform Opcode.and_op (a ∷ x ∷ s) ≡ some (bit_and a x ∷ s)
unfolding perform perform_plain binary push_of
perform-and a x s = refl

perform-mul :
    (a x : ℕ) (s : List ℕ) → perform Opcode.mul (a ∷ x ∷ s) ≡ some ((a * x % word_mod) ∷ s)
unfolding perform perform_plain binary push_of
perform-mul a x s = refl

perform-div :
    (a x : ℕ) (s : List ℕ)
    → perform Opcode.div (a ∷ x ∷ s) ≡ some ((if x == 0 then 0 else a / x) ∷ s)
unfolding perform perform_plain binary push_of
perform-div a x s = refl

perform-shl :
    (n x : ℕ) (s : List ℕ)
    → n < 256
    → perform Opcode.shl (n ∷ x ∷ s) ≡ some ((x * 2 ^ n % word_mod) ∷ s)
unfolding perform perform_plain binary push_of
perform-shl n x s small =
    ap (λ b. some ((if b then x * 2 ^ n % word_mod else 0) ∷ s)) (lt→ltb n 256 small)

perform-shr :
    (n x : ℕ) (s : List ℕ) → n < 256 → perform Opcode.shr (n ∷ x ∷ s) ≡ some ((x / 2 ^ n) ∷ s)
unfolding perform perform_plain binary push_of
perform-shr n x s small = ap (λ b. some ((if b then x / 2 ^ n else 0) ∷ s)) (lt→ltb n 256 small)

divide-Runs :
    (h p x : ℕ) (c : Context) (s : List ℕ)
    → 0 < p
    → c.asm.current_deposit ≡ pos (suc h)
    → Runs (suc h) c (x ∷ s) ((x / p) ∷ s) (
        append_number p c >>= λ c'.
        append_instruction Opcode.swap1 c' >>= append_instruction Opcode.div)
unfolding is_binary append_instruction append_swap supports
divide-Runs h p x c s positive height =
    bind-Runs (suc (suc h)) (suc h) c (x ∷ s) (p ∷ x ∷ s) _ (append_number p c) _
      (number-Runs p (suc h) c (x ∷ s) height)
      λ f height'.
        bind-Runs (suc (suc h)) (suc h) (record c { asm = f }) _ (x ∷ p ∷ s) _ _ _
          (swap_middle-Runs 0 (suc (suc h)) p x (record c { asm = f }) [] s refl (omega arith)
            height')
          λ g height''.
            binary-Runs Opcode.div h x p _ (record c { asm = g }) s (omega arith) refl refl
              (perform-div x p s ∙ ap (λ b. some ((if b then 0 else x / p) ∷ s)) not_zero) height''
  where
    not_zero : (p == 0) ≡ false
    not_zero = ground (arith, positive)

shifting-supports :
    (v : Version)
    → has_bitwise_shifting v ≡ true
    → (supports v Opcode.shl ≡ true) × (supports v Opcode.shr ≡ true)
unfolding has_bitwise_shifting less_version supports
shifting-supports v h = (ground (arith, h), ground (arith, h))

-- leftShiftNumberOnStack multiplies the word on the top by 2^n, with SHL or without it.
left_shift-Runs :
    (h n x : ℕ) (s : List ℕ) (c : Context)
    → n < 256
    → c.asm.current_deposit ≡ pos (suc h)
    → Runs (suc h) c (x ∷ s) ((x * 2 ^ n % word_mod) ∷ s) (left_shift_number_on_stack n c)
unfolding left_shift_number_on_stack is_binary supports
left_shift-Runs h n x s c small height =
    assert-Runs (suc h) c _ _ _ internal_compiler_error _ (lt→ltb n 256 small) (
      around-Runs (suc h) (suc h) c _ _ _ _
        (λ d.
          if has_bitwise_shifting c.evm_version
          then append_number n d >>= append_instruction Opcode.shl
          else append_number (2 ^ n) d >>= append_instruction Opcode.mul)
        height
        λ d same height'.
          if-Runs (suc h) d _ _ (has_bitwise_shifting c.evm_version) _ _
            (λ has.
              with_number-Runs Opcode.shl h n x _ d s (omega arith) refl
                (shifting-supports d.evm_version (ap has_bitwise_shifting same ∙ has)).0
                (perform-shl n x s small) height')
            (with_number-Runs Opcode.mul h (2 ^ n) x _ d s (omega arith) refl refl
              (perform-mul (2 ^ n) x s ∙ ap (λ k. some (k % word_mod ∷ s)) (mul_comm (2 ^ n) x))
              height'))

-- rightShiftNumberOnStack divides the word on the top by 2^n, with SHR or without it.
right_shift-Runs :
    (h n x : ℕ) (s : List ℕ) (c : Context)
    → n < 256
    → c.asm.current_deposit ≡ pos (suc h)
    → Runs (suc h) c (x ∷ s) ((x / 2 ^ n) ∷ s) (right_shift_number_on_stack n c)
unfolding right_shift_number_on_stack is_binary append_instruction
right_shift-Runs h n x s c small height =
    assert-Runs (suc h) c _ _ _ internal_compiler_error _ (lt→ltb n 256 small) (
      around-Runs (suc h) (suc h) c _ _ _ _
        (λ d.
          if has_bitwise_shifting c.evm_version
          then append_number n d >>= append_instruction Opcode.shr
          else append_number (2 ^ n) d >>= λ d'.
              append_instruction Opcode.swap1 d' >>= append_instruction Opcode.div)
        height
        λ d same height'.
          if-Runs (suc h) d _ _ (has_bitwise_shifting c.evm_version) _ _
            (λ has.
              with_number-Runs Opcode.shr h n x _ d s (omega arith) refl
                (shifting-supports d.evm_version (ap has_bitwise_shifting same ∙ has)).1
                (perform-shr n x s small) height')
            (divide-Runs h (2 ^ n) x d s (pow-pos n) height'))

-- leftShiftNumberOnStack multiplies the word on the top by 2^n and rightShiftNumberOnStack divides
-- it, for n below 256. The code runs on every version of the machine, with SHL and SHR or without.
pub shift-Runs :
    (h n x : ℕ) (s : List ℕ) (c : Context)
    → n < 256
    → c.asm.current_deposit ≡ pos (suc h)
    → Runs (suc h) c (x ∷ s) ((x * 2 ^ n % word_mod) ∷ s) (left_shift_number_on_stack n c)
      × Runs (suc h) c (x ∷ s) ((x / 2 ^ n) ∷ s) (right_shift_number_on_stack n c)
shift-Runs h n x s c small height =
    (left_shift-Runs h n x s c small height, right_shift-Runs h n x s c small height)
