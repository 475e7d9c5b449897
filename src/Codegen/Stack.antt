-- ===== src/Codegen/Stack.antt =====
-- The stack operations of the code generator: libsolidity/codegen/CompilerUtils.cpp. `unsigned` has
-- 32 bits. A variable's `toAssemblyText` in debug information is an argument.
pub mod Effects
pub mod Slots
pub mod Moves
pub mod Copies
pub mod Words
pub mod Cleaning
use jules_solidity_pppascal.Instruction.Opcode
use Prim.Native.Nat.{ℕ, suc}
use jules_solidity_pppascal.Common.{
  List, Result, ◌++◌, ◌+◌, ◌∷◌, ok, ◌>>=◌, Bool, ◌>>◌, ◌%◌, assert_throw, if◌then◌else◌, ltb, zero,
  [], leb, ◌==◌, ◌/◌, internal_compiler_error, ◌-◌, stack_too_deep, ◌^◌,
}
use jules_solidity_pppascal.AssemblyItem.{word_mod, AssemblyItem, ordinary}
use jules_solidity_pppascal.Codegen.Context.{
  append_instruction, append_number, VariableDeclaration, append_jump_to_tag, adjust_stack_offset,
  stack_height, append_context_debug_info, base_to_current_stack_offset, unsigned_mod, Context,
  base_stack_offset_of_variable,
}
use jules_solidity_pppascal.Common.Int.{to_int}
use jules_solidity_pppascal.Common.Text.{to_decimal, codes}
use jules_solidity_pppascal.EvmVersion.{has_bitwise_shifting}
use jules_solidity_pppascal.Instruction.Info.{dup_instruction, swap_instruction}

unfoldable pub utils_info : List ℕ → Context → Context
unfolding append_context_debug_info
utils_info text c = append_context_debug_info (codes "CompilerUtils::" ++ text) c

two_numbers : ℕ → ℕ → List ℕ
unfolding to_decimal
two_numbers a b = codes "(" ++ to_decimal a ++ codes ", " ++ to_decimal b ++ codes ")"

one_number : ℕ → List ℕ
unfolding to_decimal
one_number a = codes "(" ++ to_decimal a ++ codes ")"

unfoldable pub append_dup : ℕ → Context → Result Context
unfolding dup_instruction append_instruction
append_dup number c = do inst ← dup_instruction number; append_instruction inst c

unfoldable pub append_swap : ℕ → Context → Result Context
unfolding swap_instruction append_instruction
append_swap number c = do inst ← swap_instruction number; append_instruction inst c

unfoldable pub copies : ℕ → ℕ → Context → Result Context
unfolding append_dup
copies zero stack_depth c = ok c
copies (suc left) stack_depth c = do c' ← append_dup stack_depth c; copies left stack_depth c'

unfoldable pub copy_to_stack_top : ℕ → ℕ → Context → Result Context
unfolding utils_info two_numbers copies
copy_to_stack_top stack_depth item_size c = do
  assert_throw (leb stack_depth 16) stack_too_deep
  copies item_size stack_depth
      (utils_info (codes "copyToStackTop" ++ two_numbers stack_depth item_size) c)

-- SWAPm, then down to SWAP1
unfoldable pub swaps_down : ℕ → Context → Result Context
unfolding append_swap
swaps_down zero c = ok c
swaps_down (suc m) c = do c' ← append_swap (suc m) c; swaps_down m c'

-- `left` swaps from SWAPi on
unfoldable pub swaps_up : ℕ → ℕ → Context → Result Context
unfolding append_swap
swaps_up i zero c = ok c
swaps_up i (suc left) c = do c' ← append_swap i c; swaps_up (suc i) left c'

unfoldable pub rotate_stack_up : ℕ → Context → Result Context
unfolding utils_info one_number swaps_down
rotate_stack_up items c = do
  assert_throw (leb ((items + unsigned_mod - 1) % unsigned_mod) 16) stack_too_deep
  c' ← swaps_down (items - 1) (utils_info (codes "rotateStackUp" ++ one_number items) c)
  ok (append_context_debug_info (codes "end of CompilerUtils::rotateStackUp()") c')

unfoldable pub rotate_stack_down : ℕ → Context → Result Context
unfolding utils_info one_number swaps_up
rotate_stack_down items c = do
  assert_throw (leb ((items + unsigned_mod - 1) % unsigned_mod) 16) stack_too_deep
  c' ← swaps_up 1 (items - 1) (utils_info (codes "rotateStackDown" ++ one_number items) c)
  ok (append_context_debug_info (codes "end of CompilerUtils::rotateStackDown()") c')

unfoldable pub times : ℕ → (Context → Result Context) → Context → Result Context
times zero step c = ok c
times (suc n) step c = do c' ← step c; times n step c'

unfoldable pub move_into_stack : ℕ → ℕ → Context → Result Context
unfolding utils_info two_numbers times rotate_stack_up rotate_stack_down
move_into_stack stack_depth item_size c =
    let items = (stack_depth + item_size) % unsigned_mod in
    let c' = utils_info (codes "moveIntoStack" ++ two_numbers stack_depth item_size) c in
    if leb stack_depth item_size
    then times stack_depth (rotate_stack_down items) c'
    else times item_size (rotate_stack_up items) c'

unfoldable pub move_to_stack_top : ℕ → ℕ → Context → Result Context
unfolding utils_info two_numbers move_into_stack
move_to_stack_top stack_depth item_size c =
    move_into_stack item_size stack_depth
      (utils_info (codes "moveToStackTop" ++ two_numbers stack_depth item_size) c)

unfoldable pub pops : ℕ → Context → Result Context
unfolding append_instruction
pops zero c = ok c
pops (suc amount) c = do c' ← append_instruction Opcode.pop c; pops amount c'

unfoldable pub pop_stack_slots : ℕ → Context → Result Context
unfolding utils_info one_number pops
pop_stack_slots amount c = do
  c' ← pops amount (utils_info (codes "popStackSlots" ++ one_number amount) c)
  ok (append_context_debug_info (codes "end of CompilerUtils::popStackSlots()") c')

unfoldable pub pop_and_jump : ℕ → AssemblyItem → List ℕ → Context → Result Context
unfolding stack_height utils_info to_decimal pop_stack_slots append_jump_to_tag adjust_stack_offset
    to_int
pop_and_jump to_height jump_to text c = do
  height ← stack_height c
  assert_throw (leb to_height height) internal_compiler_error
  let c₁ =
      utils_info
        (codes "popAndJump(toHeight="
          ++ to_decimal to_height
          ++ codes ", jumpTo="
          ++ text
          ++ codes ")")
        c
  height' ← stack_height c₁
  let amount = height' - to_height
  c₂ ← pop_stack_slots amount c₁
  c₃ ← append_jump_to_tag jump_to ordinary c₂
  c₄ ← adjust_stack_offset (to_int amount) c₃
  ok (append_context_debug_info (codes "end of CompilerUtils::popAndJump()") c₄)

unfoldable pub swap_pops : ℕ → ℕ → Context → Result Context
unfolding append_swap append_instruction
swap_pops zero depth c = ok c
swap_pops (suc left) depth c = do
  c₁ ← append_swap depth c
  c₂ ← append_instruction Opcode.pop c₁
  swap_pops left depth c₂

unfoldable pub move_to_stack_variable : VariableDeclaration → Context → Result Context
unfolding utils_info base_to_current_stack_offset base_stack_offset_of_variable swap_pops
move_to_stack_variable variable c = do
  let c₁ = utils_info (codes "moveToStackVariable(" ++ variable.variable_name ++ codes ")") c
  offset ← base_stack_offset_of_variable variable.address c₁
  let stack_position = base_to_current_stack_offset offset c₁
  let size = variable.size_on_stack
  assert_throw (leb size stack_position) internal_compiler_error
  assert_throw (leb ((stack_position - size + 1) % unsigned_mod) 16) stack_too_deep
  swap_pops size ((stack_position - size + 1) % unsigned_mod) c₁

unfoldable pub size_on_stack_of : List ℕ → ℕ
size_on_stack_of [] = 0
size_on_stack_of (size ∷ sizes) = (size + size_on_stack_of sizes) % unsigned_mod

-- For an integer type of the given width.
unfoldable pub clean_higher_order_bits : ℕ → Bool → Context → Result Context
unfolding append_number append_instruction
clean_higher_order_bits num_bits is_signed c =
    if num_bits == 256
    then ok c
    else if is_signed
    then (do
      c₁ ← append_number ((num_bits / 8 + word_mod - 1) % word_mod) c
      append_instruction Opcode.signextend c₁)
    else (do
      c₁ ← append_number ((2 ^ num_bits % word_mod + word_mod - 1) % word_mod) c
      append_instruction Opcode.and_op c₁)

unfoldable pub left_shift_number_on_stack : ℕ → Context → Result Context
unfolding utils_info to_decimal append_number append_instruction has_bitwise_shifting
left_shift_number_on_stack bits c = do
  assert_throw (ltb bits 256) internal_compiler_error
  let c₁ = utils_info (codes "leftShiftNumberOnStack(bits=" ++ to_decimal bits ++ codes ")") c
  c₃ ←
      if has_bitwise_shifting c.evm_version
      then (do c₂ ← append_number bits c₁; append_instruction Opcode.shl c₂)
      else (do c₂ ← append_number (2 ^ bits) c₁; append_instruction Opcode.mul c₂)
  ok (append_context_debug_info (codes "end of CompilerUtils::leftShiftNumberOnStack()") c₃)

unfoldable pub right_shift_number_on_stack : ℕ → Context → Result Context
unfolding utils_info to_decimal append_number append_instruction has_bitwise_shifting
right_shift_number_on_stack bits c = do
  assert_throw (ltb bits 256) internal_compiler_error
  let c₁ = utils_info (codes "rightShiftNumberOnStack(bits=" ++ to_decimal bits ++ codes ")") c
  c₃ ←
      if has_bitwise_shifting c.evm_version
      then (do c₂ ← append_number bits c₁; append_instruction Opcode.shr c₂)
      else (do
        c₂ ← append_number (2 ^ bits) c₁
        d ← append_instruction Opcode.swap1 c₂
        append_instruction Opcode.div d)
  ok (append_context_debug_info (codes "end of CompilerUtils::rightShiftNumberOnStack()") c₃)
