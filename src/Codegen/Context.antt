-- ===== src/Codegen/Context.antt =====
-- The state of the code generator: libsolidity/codegen/CompilerContext.h and CompilerContext.cpp. A
-- declaration is known by its address, a number; what is asked of it is in `VariableDeclaration`.
-- `m_asm` is the assembly `asm`; of `m_runtimeContext` only whether it is set matters here. Output
-- in verbose mode and source locations are left out.
pub mod Variables
pub mod Immutables
use jules_solidity_pppascal.Instruction.Opcode
use Prim.Native.Nat.{ℕ}
use jules_solidity_pppascal.Common.{
  Result, Bool, List, ◌%◌, ◌+◌, ok, ◌>>=◌, Option, length, some, ◌^◌, ◌>>◌, ◌∷◌, [], assert_throw,
  ◌*◌, none, ◌-◌, ◌++◌, false, err, not, internal_compiler_error, true, if◌then◌else◌,
  unimplemented_feature, leb, ◌&&◌, is_nil, ◌==◌, undefined, ◌||◌,
}
use jules_solidity_pppascal.Assembly.{
  new_tag, adjust_deposit, append_debug_info, set_deposit, Fields, new_push_tag, append_item,
}
use jules_solidity_pppascal.Assembly.Emit.{erase}
use jules_solidity_pppascal.AssemblyItem.{
  tag_of, instruction_item, size_mod, JumpType, push_tag_of, push_item, AssemblyItem,
}
use jules_solidity_pppascal.Common.Dict.{insert, lookup}
use jules_solidity_pppascal.Common.Int.{negsuc, pos, is_negative, ℤ}
use jules_solidity_pppascal.Common.Text.{codes, to_decimal}
use jules_solidity_pppascal.CommonData.Endian.Laws.{value}
use jules_solidity_pppascal.EvmVersion.{Version}
use jules_solidity_pppascal.Instruction.Opcode.{Instruction}

-- What is asked of a VariableDeclaration and its type.
pub record VariableDeclaration : Type 0 where
  pub address : ℕ
  pub variable_name : List ℕ
  pub immutable : Bool
  pub is_value_type : Bool
  pub memory_head_size : ℕ
  pub size_on_stack : ℕ

pub record FunctionCompilationQueue : Type 0 where
  pub entry_labels : List (ℕ × AssemblyItem)
  pub already_compiled_functions : List ℕ
  pub functions_to_compile : List ℕ

pub record Context : Type 0 where
  pub asm : Fields
  pub evm_version : Version
  pub has_runtime_context : Bool
  pub state_variables : List (ℕ × (ℕ × ℕ))
  pub immutable_variables : List (ℕ × ℕ)
  pub reserved_memory_size : Option ℕ
  pub local_variables : List (ℕ × List ℕ)
  pub function_compilation_queue : FunctionCompilationQueue
  pub await_callbacks : List (ℕ × AssemblyItem)

-- The value of `CompilerUtils::generalPurposeMemoryStart`.
abbrev pub general_purpose_memory_start : ℕ
general_purpose_memory_start = 0x80

abbrev pub unsigned_mod : ℕ
unsigned_mod = 2 ^ 32

-- static_cast<unsigned> of an int.
unfoldable pub to_unsigned : ℤ → ℕ
to_unsigned (pos n) = n % unsigned_mod
to_unsigned (negsuc n) = unsigned_mod - 1 - n % unsigned_mod

-- operator<<
unfoldable pub append_to : AssemblyItem → Context → Result Context
unfolding append_item
append_to item c = do (_, f) ← append_item item c.asm; ok (record c { asm = f })

unfoldable pub append_instruction : Instruction → Context → Result Context
unfolding append_to
append_instruction inst c = append_to (instruction_item inst) c

unfoldable pub append_number : ℕ → Context → Result Context
unfolding append_to push_item
append_number value c = append_to (push_item value) c

unfoldable pub append_context_debug_info : List ℕ → Context → Context
unfolding append_debug_info
append_context_debug_info info c = record c { asm = append_debug_info info c.asm }

unfoldable pub stack_height : Context → Result ℕ
unfolding to_unsigned
stack_height c = do
  assert_throw (not (is_negative c.asm.current_deposit)) internal_compiler_error
  ok (to_unsigned c.asm.current_deposit)

unfoldable pub set_stack_offset : ℤ → Context → Result Context
unfolding set_deposit
set_stack_offset offset c = do f ← set_deposit offset c.asm; ok (record c { asm = f })

unfoldable pub adjust_stack_offset : ℤ → Context → Result Context
unfolding adjust_deposit
adjust_stack_offset adjustment c = do f ← adjust_deposit adjustment c.asm; ok (record c { asm = f })

unfoldable pub add_state_variable : VariableDeclaration → ℕ → ℕ → Context → Context
unfolding insert
add_state_variable declaration storage_offset byte_offset c = record c {
  state_variables = insert declaration.address (storage_offset, byte_offset) c.state_variables;
}

-- The number of reserved bytes is a size_t; an optional that is not set may not be read.
unfoldable pub add_immutable : VariableDeclaration → Context → Result Context
unfolding insert
add_immutable variable c = do
  assert_throw variable.immutable internal_compiler_error
  assert_throw variable.is_value_type unimplemented_feature
  assert_throw c.has_runtime_context internal_compiler_error
  reserved ← elim c.reserved_memory_size [ some r ↦ ok r | none ↦ err undefined ]
  assert_throw (variable.memory_head_size == 32) internal_compiler_error
  ok (record c {
    immutable_variables =
        insert variable.address ((general_purpose_memory_start + reserved) % size_mod)
          c.immutable_variables;
    reserved_memory_size = some ((reserved + variable.memory_head_size) % size_mod);
  })

unfoldable pub immutable_memory_offset : VariableDeclaration → Context → Result ℕ
unfolding lookup
immutable_memory_offset variable c = elim (lookup variable.address c.immutable_variables) [
  | none ↦ err internal_compiler_error
  | some offset ↦ (do assert_throw c.has_runtime_context internal_compiler_error; ok offset)
]

-- reservedMemory: the size, and the state in which it is used up.
unfoldable pub reserved_memory : Context → Result (ℕ × Context)
reserved_memory c = elim c.reserved_memory_size [
  | none ↦ err internal_compiler_error
  | some reserved ↦ ok (reserved, record c { reserved_memory_size = none })
]

unfoldable pub add_variable : VariableDeclaration → ℕ → Context → Result Context
unfolding lookup insert to_unsigned
add_variable declaration offset_to_current c = do
  assert_throw
      (not (is_negative c.asm.current_deposit)
        && leb offset_to_current (to_unsigned c.asm.current_deposit))
      internal_compiler_error
  assert_throw (declaration.size_on_stack == 1 || declaration.size_on_stack == 2)
      internal_compiler_error
  let offset = to_unsigned c.asm.current_deposit - offset_to_current
  let offsets : List ℕ = elim (lookup declaration.address c.local_variables) [
    | none ↦ []
    | some old ↦ old
  ]
  ok (record c {
    local_variables = insert declaration.address (offsets ++ offset ∷ []) c.local_variables;
  })

-- The last entry of a vector, and the rest.
unfoldable pub last_of : List ℕ → Option ℕ
last_of [] = none
last_of (x ∷ []) = some x
last_of (x ∷ y ∷ xs) = last_of (y ∷ xs)

unfoldable pub pop_back : List ℕ → List ℕ
pop_back [] = []
pop_back (x ∷ []) = []
pop_back (x ∷ y ∷ xs) = x ∷ pop_back (y ∷ xs)

removal : ℕ → Context → List ℕ → Result Context
unfolding insert erase pop_back
removal declaration c [] = err internal_compiler_error
removal declaration c (x ∷ xs) = ok (record c {
  local_variables =
      if is_nil (pop_back (x ∷ xs))
      then erase declaration c.local_variables
      else insert declaration (pop_back (x ∷ xs)) c.local_variables;
})

unfoldable pub remove_variable : ℕ → Context → Result Context
unfolding lookup removal
remove_variable declaration c = elim (lookup declaration c.local_variables) [
  | none ↦ err internal_compiler_error
  | some offsets ↦ removal declaration c offsets
]

-- The variables whose place is not below the height, in the order of the map.
variables_above : ℕ → ℕ → List (ℕ × List ℕ) → Result (List ℕ)
unfolding last_of
variables_above current height [] = ok []
variables_above current height ((declaration, offsets) ∷ variables) = do
  let last : Option ℕ = last_of offsets
  offset ← elim last [ none ↦ err internal_compiler_error | some x ↦ ok x ]
  assert_throw (leb offset current) internal_compiler_error
  later ← variables_above current height variables
  ok (if leb height offset then declaration ∷ later else later)

remove_all : List ℕ → Context → Result Context
unfolding remove_variable
remove_all [] c = ok c
remove_all (declaration ∷ declarations) c = do
  c' ← remove_variable declaration c
  remove_all declarations c'

unfoldable pub remove_variables_above_stack_height : ℕ → Context → Result Context
unfolding stack_height variables_above remove_all
remove_variables_above_stack_height height c = do
  to_remove ← elim c.local_variables [
    | [] ↦ ok []
    | _ ∷ _ ↦ (do current ← stack_height c; variables_above current height c.local_variables)
  ]
  remove_all to_remove c

unfoldable pub number_of_local_variables : Context → ℕ
number_of_local_variables c = length c.local_variables % unsigned_mod

unfoldable pub is_local_variable : ℕ → Context → Bool
unfolding lookup
is_local_variable declaration c = elim (lookup declaration c.local_variables) [
  | none ↦ false
  | some _ ↦ true
]

unfoldable pub is_state_variable : ℕ → Context → Bool
unfolding lookup
is_state_variable declaration c = elim (lookup declaration c.state_variables) [
  | none ↦ false
  | some _ ↦ true
]

unfoldable pub base_stack_offset_of_variable : ℕ → Context → Result ℕ
unfolding lookup last_of
base_stack_offset_of_variable declaration c = elim (lookup declaration c.local_variables) [
  | none ↦ err internal_compiler_error
  | some offsets ↦ (elim (last_of offsets) [ none ↦ err internal_compiler_error | some x ↦ ok x ])
]

unfoldable pub base_to_current_stack_offset : ℕ → Context → ℕ
unfolding to_unsigned
base_to_current_stack_offset base_offset c =
    (to_unsigned c.asm.current_deposit + 2 * unsigned_mod - base_offset - 1) % unsigned_mod

unfoldable pub current_to_base_stack_offset : ℕ → Context → ℕ
unfolding to_unsigned
current_to_base_stack_offset offset c =
    (to_unsigned c.asm.current_deposit + 2 * unsigned_mod - offset - 1) % unsigned_mod

unfoldable pub storage_location_of_variable : ℕ → Context → Result (ℕ × ℕ)
unfolding lookup
storage_location_of_variable declaration c = elim (lookup declaration c.state_variables) [
  | none ↦ err internal_compiler_error
  | some location ↦ ok location
]

-- appendJump(jumpType)
unfoldable pub append_jump : JumpType → Context → Result Context
unfolding append_to
append_jump jump c = append_to (record (instruction_item Opcode.jump) { jump_type = jump }) c

unfoldable pub append_jump_to_tag : AssemblyItem → JumpType → Context → Result Context
unfolding append_to append_jump push_tag_of
append_jump_to_tag t jump c = do
  pushed ← push_tag_of t
  c' ← append_to pushed c
  append_jump jump c'

-- The tag of the pushed item is returned.
unfoldable pub push_new_tag : List ℕ → Context → Result (AssemblyItem × Context)
unfolding new_push_tag append_item tag_of
push_new_tag description c = do
  (item, f) ← new_push_tag description c.asm
  (appended, f') ← append_item item f
  t ← tag_of appended
  ok (t, record c { asm = f' })

unfoldable pub new_context_tag : List ℕ → Context → Result (AssemblyItem × Context)
unfolding new_tag
new_context_tag description c = do
  (item, f) ← new_tag description c.asm
  ok (item, record c { asm = f })

unfoldable pub add_callback_dest : ℕ → Context → Result Context
unfolding lookup insert new_context_tag append_to append_instruction to_decimal
add_callback_dest callback_id c = elim (lookup callback_id c.await_callbacks) [
  | some _ ↦ ok c
  | none ↦ (do
    (callback_tag, c₁) ← new_context_tag (codes "callback dest of " ++ to_decimal callback_id) c
    let c₂ : Context = record c₁ {
      await_callbacks = insert callback_id callback_tag c₁.await_callbacks;
    }
    c₃ ← append_to callback_tag c₂
    append_instruction Opcode.callbackdest c₃)
]
