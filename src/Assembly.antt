-- ===== src/Assembly.antt =====
-- Assemblies: libevmasm/Assembly.h and libevmasm/Assembly.cpp. An assembly is a tree: the fields of
-- the class at each node, `m_subs` below it. The hash functions of libsolutil are arguments. A map
-- is the list of its entries; hashes are numbers. Source locations are left out. What `assemble`
-- caches in the object, `m_assembledObject` and `m_tagPositionsInBytecode`, is its result here.
pub mod Paths
pub mod Emit
pub mod Assemble
use jules_solidity_pppascal.Instruction.Opcode
use jules_solidity_pppascal.Common.{
  [], ◌∷◌, List, Bool, false, true, Result, ◌>>◌, ℕ, ◌>>=◌, Option, assert_throw, length, ok, ◌++◌,
  ltb, none, not, some, assembly_exception, invalid_deposit, if◌then◌else◌, ◌%◌, ◌+◌, ◌^◌,
}
use jules_solidity_pppascal.AssemblyItem.{
  AssemblyItem, tag, push_tag, push_data, push_sub, push_sub_size, push_library_address,
  push_immutable, assign_immutable, push_program_size, typed_item, instruction_item, data_of,
  deposit, push_tag_of,
}
use jules_solidity_pppascal.Common.Dict.{lookup, insert}
use jules_solidity_pppascal.Common.Int.{ℤ, pos, ◌+ℤ◌, is_negative, to_int}
use jules_solidity_pppascal.Common.Rose.{Rose, Roses, node, nil, cons, count, snoc}
use jules_solidity_pppascal.Common.Text.{eq_text, codes}
use jules_solidity_pppascal.Instruction.Opcode.{Instruction}

pub record Fields : Type 0 where
  pub invalid : Bool
  pub used_tags : ℕ
  pub named_tags : List (List ℕ × ℕ)
  pub items : List AssemblyItem
  pub data_blocks : List (ℕ × List ℕ)
  pub auxiliary_data : List ℕ
  pub strings : List (ℕ × List ℕ)
  pub libraries : List (ℕ × List ℕ)
  pub immutables : List (ℕ × List ℕ)
  pub sub_paths : List (List ℕ × ℕ)
  pub current_deposit : ℤ
  pub debug_infos : List (ℕ × List ℕ)
  pub current_modifier_depth : ℕ

abbrev pub Assembly : Type 0
Assembly = Rose Fields

-- A new object. Tag 0 is reserved.
abbrev pub empty_fields : Fields
empty_fields = record {
  invalid = false;
  used_tags = 1;
  named_tags = [];
  items = [];
  data_blocks = [];
  auxiliary_data = [];
  strings = [];
  libraries = [];
  immutables = [];
  sub_paths = [];
  current_deposit = pos 0;
  debug_infos = [];
  current_modifier_depth = 0;
}

-- newTag and newPushTag
unfoldable pub new_tag : List ℕ → Fields → Result (AssemblyItem × Fields)
new_tag description f = do
  assert_throw (ltb f.used_tags 0xffffffff) assembly_exception
  ok (typed_item tag f.used_tags description, record f { used_tags = f.used_tags + 1 })

unfoldable pub new_push_tag : List ℕ → Fields → Result (AssemblyItem × Fields)
new_push_tag description f = do
  assert_throw (ltb f.used_tags 0xffffffff) assembly_exception
  ok (typed_item push_tag f.used_tags description, record f { used_tags = f.used_tags + 1 })

unfoldable pub find_name : List ℕ → List (List ℕ × ℕ) → Option ℕ
unfolding eq_text
find_name name [] = none
find_name name ((known, t) ∷ names) = if eq_text known name then some t else find_name name names

is_empty : List ℕ → Bool
is_empty [] = true
is_empty (c ∷ s) = false

unfoldable pub named_tag : List ℕ → Fields → Result (AssemblyItem × Fields)
unfolding find_name new_tag data_of is_empty
named_tag name f = do
  assert_throw (not (is_empty name)) assembly_exception
  elim (find_name name f.named_tags) [
    | some t ↦ ok (typed_item tag t name, f)
    | none ↦ (do
      (item, f') ← new_tag name f
      t ← data_of item
      ok (
        typed_item tag (t % 2 ^ 64) name,
        record f' { named_tags = (name, t % 2 ^ 64) ∷ f'.named_tags },
      ))
  ]

-- append(AssemblyItem): the item that was appended, and the new state.
unfoldable pub append_item : AssemblyItem → Fields → Result (AssemblyItem × Fields)
unfolding deposit to_int ◌+ℤ◌
append_item item f = do
  assert_throw (not (is_negative f.current_deposit)) assembly_exception
  d ← deposit item
  let appended : AssemblyItem = record item { modifier_depth = f.current_modifier_depth }
  ok (
    appended,
    record f { current_deposit = f.current_deposit +ℤ to_int d; items = f.items ++ appended ∷ [] },
  )

-- appendDebugInfo
unfoldable pub append_debug_info : List ℕ → Fields → Fields
unfolding lookup insert
append_debug_info info f =
    let message : List ℕ = elim (lookup (length f.items) f.debug_infos) [
      | none ↦ info
      | some old ↦ old ++ (10 ∷ codes "  // ") ++ info
    ] in
    record f { debug_infos = insert (length f.items) message f.debug_infos }

-- appendJump() and appendJumpI(): a new tag is pushed, then the jump. The push is returned.
unfoldable pub append_jump_new : Instruction → List ℕ → Fields → Result (AssemblyItem × Fields)
unfolding new_push_tag append_item
append_jump_new jump_inst description f = do
  (item, f₁) ← new_push_tag description f
  (ret, f₂) ← append_item item f₁
  (_, f₃) ← append_item (instruction_item jump_inst) f₂
  ok (ret, f₃)

-- appendJump(tag) and appendJumpI(tag)
unfoldable pub append_jump_to : Instruction → AssemblyItem → Fields → Result (AssemblyItem × Fields)
unfolding push_tag_of append_item
append_jump_to jump_inst target f = do
  item ← push_tag_of target
  (ret, f₁) ← append_item item f
  (_, f₂) ← append_item (instruction_item jump_inst) f₁
  ok (ret, f₂)

unfoldable pub adjust_deposit : ℤ → Fields → Result Fields
unfolding ◌+ℤ◌
adjust_deposit adjustment f = do
  let d = f.current_deposit +ℤ adjustment
  assert_throw (not (is_negative d)) invalid_deposit
  ok (record f { current_deposit = d })

unfoldable pub set_deposit : ℤ → Fields → Result Fields
set_deposit d f = do
  assert_throw (not (is_negative d)) invalid_deposit
  ok (record f { current_deposit = d })

unfoldable pub append_auxiliary_data : List ℕ → Fields → Fields
append_auxiliary_data bytes f = record f { auxiliary_data = f.auxiliary_data ++ bytes }

unfoldable pub mark_as_invalid : Fields → Fields
mark_as_invalid f = record f { invalid = true }

-- newSub, with the item for the place of its code.
unfoldable pub new_sub : Assembly → Assembly → AssemblyItem × Assembly
new_sub sub (node f subs) = (typed_item push_sub (count subs) [], node f (snoc subs sub))

module _ (keccak256 blake2b : List ℕ → ℕ) where
  unfoldable pub new_data : List ℕ → Fields → AssemblyItem × Fields
  unfolding insert
  new_data bytes f = (
    typed_item push_data (blake2b bytes) [],
    record f { data_blocks = insert (blake2b bytes) bytes f.data_blocks },
  )

  unfoldable pub new_push_library_address : List ℕ → Fields → AssemblyItem × Fields
  unfolding insert
  new_push_library_address identifier f = (
    typed_item push_library_address (keccak256 identifier) [],
    record f { libraries = insert (keccak256 identifier) identifier f.libraries },
  )

  unfoldable pub new_push_immutable : List ℕ → Fields → AssemblyItem × Fields
  unfolding insert
  new_push_immutable identifier f = (
    typed_item push_immutable (blake2b identifier) [],
    record f { immutables = insert (blake2b identifier) identifier f.immutables },
  )

  unfoldable pub new_immutable_assignment : List ℕ → Fields → AssemblyItem × Fields
  unfolding insert
  new_immutable_assignment identifier f = (
    typed_item assign_immutable (blake2b identifier) [],
    record f { immutables = insert (blake2b identifier) identifier f.immutables },
  )
