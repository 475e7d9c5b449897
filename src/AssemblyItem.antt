-- ===== src/AssemblyItem.antt =====
-- One item of an assembly: libevmasm/AssemblyItem.h and libevmasm/AssemblyItem.cpp. Source
-- locations are left out: no code that is modelled here reads them.
pub mod Tags
pub mod Order
pub mod Sizes
use Prim.Native.Nat.{ℕ, bit_or, max}
use jules_solidity_pppascal.Common.{
  none, List, Option, Bool, Result, ◌^◌, ◌>>=◌, ok, if◌then◌else◌, ◌>>◌, true, ◌%◌, [], some, ◌||◌,
  ◌==◌, assert_throw, ◌-◌, ◌+◌, false, not, ◌&&◌, ◌*◌, ltb, exception, err, ◌/◌, invalid_opcode,
  undefined,
}
use jules_solidity_pppascal.Common.Text.{codes}
use jules_solidity_pppascal.CommonData.Endian.{bytes_required}
use jules_solidity_pppascal.Instruction.Info.{
  instruction_info, is_dup_instruction, is_swap_instruction,
}
use jules_solidity_pppascal.Instruction.Opcode.{Instruction}

pub data AssemblyItemType : Type 0 where
  undefined_item operation push push_string push_tag push_sub push_sub_size : AssemblyItemType
  push_program_size tag push_data push_library_address push_deploy_time_address : AssemblyItemType
  push_immutable assign_immutable : AssemblyItemType

-- The values of the enumeration, by which types are compared.
abbrev pub type_number : AssemblyItemType → ℕ
type_number undefined_item = 0
type_number operation = 1
type_number push = 2
type_number push_string = 3
type_number push_tag = 4
type_number push_sub = 5
type_number push_sub_size = 6
type_number push_program_size = 7
type_number tag = 8
type_number push_data = 9
type_number push_library_address = 10
type_number push_deploy_time_address = 11
type_number push_immutable = 12
type_number assign_immutable = 13

abbrev pub eq_type : AssemblyItemType → AssemblyItemType → Bool
eq_type a b = type_number a == type_number b

pub data JumpType : Type 0 where
  ordinary into_function out_of_function : JumpType

-- A pointer is an `Option`. `payload` is `m_data`, which is set unless the item is an operation;
-- `instruction` is `m_instruction`, which is set only then.
pub record AssemblyItem : Type 0 where
  pub type : AssemblyItemType
  pub instruction : Instruction
  pub payload : Option ℕ
  pub jump_type : JumpType
  pub pushed_value : Option ℕ
  pub immutable_occurrences : Option ℕ
  pub debug_info : List ℕ
  pub modifier_depth : ℕ

abbrev pub size_mod : ℕ
size_mod = 2 ^ 64

-- numeric_limits<size_t>::max()
abbrev pub size_max : ℕ
size_max = 2 ^ 64 - 1

abbrev pub word_mod : ℕ
word_mod = 2 ^ 256

-- The constructors. The last takes any type; an operation's instruction is the low byte of the data.
abbrev pub bare : AssemblyItemType → AssemblyItem
bare t = record {
  type = t;
  instruction = 0;
  payload = none;
  jump_type = ordinary;
  pushed_value = none;
  immutable_occurrences = none;
  debug_info = [];
  modifier_depth = 0;
}

abbrev pub instruction_item : Instruction → AssemblyItem
instruction_item i = record (bare operation) { instruction = i }

unfoldable pub typed_item : AssemblyItemType → ℕ → List ℕ → AssemblyItem
typed_item operation v debug_info = record (bare operation) {
  instruction = v % 256;
  debug_info = debug_info;
}
typed_item t v debug_info = record (bare t) { payload = some v; debug_info = debug_info }

unfoldable pub push_item : ℕ → AssemblyItem
unfolding typed_item
push_item v = typed_item push v []

-- data()
unfoldable pub data_of : AssemblyItem → Result ℕ
data_of item = do
  assert_throw (not (eq_type item.type operation)) exception
  elim item.payload [ some v ↦ ok v | none ↦ err undefined ]

unfoldable pub set_data : AssemblyItem → ℕ → Result AssemblyItem
set_data item v = do
  assert_throw (not (eq_type item.type operation)) exception
  ok (record item { payload = some v })

-- instruction()
unfoldable pub instruction_of : AssemblyItem → Result Instruction
instruction_of item = do assert_throw (eq_type item.type operation) exception; ok item.instruction

abbrev pub is_some_tag : AssemblyItemType → Bool
is_some_tag t = eq_type t push_tag || eq_type t tag

-- tag() and pushTag()
unfoldable pub tag_of : AssemblyItem → Result AssemblyItem
unfolding data_of typed_item
tag_of item = do
  assert_throw (is_some_tag item.type) exception
  v ← data_of item
  ok (typed_item tag v item.debug_info)

unfoldable pub push_tag_of : AssemblyItem → Result AssemblyItem
unfolding data_of typed_item
push_tag_of item = do
  assert_throw (is_some_tag item.type) exception
  v ← data_of item
  ok (typed_item push_tag v item.debug_info)

-- The data of a tag that belongs to a sub-assembly holds the number of that assembly, plus 1, above
-- the 64 bits of the tag. The subtraction is done in 256 bits and the result cut to 64.
unfoldable pub split_foreign_push_tag : AssemblyItem → Result (ℕ × ℕ)
unfolding data_of
split_foreign_push_tag item = do
  assert_throw (is_some_tag item.type) exception
  combined ← data_of item
  ok ((combined / size_mod + word_mod - 1) % word_mod % size_mod, combined % size_mod)

-- The result of `|`, with the number of the sub-assembly shifted up in 256 bits.
unfoldable pub combine : ℕ → ℕ → ℕ
combine sub_id t = if sub_id == size_max then t else bit_or t ((sub_id + 1) * 2 ^ 64 % word_mod)

unfoldable pub set_push_tag_sub_id_and_tag : AssemblyItem → ℕ → ℕ → Result AssemblyItem
unfolding set_data
set_push_tag_sub_id_and_tag item sub_id t = do
  assert_throw (is_some_tag item.type) exception
  set_data item (combine sub_id t)

unfoldable pub to_sub_assembly_tag : AssemblyItem → ℕ → Result AssemblyItem
unfolding data_of set_push_tag_sub_id_and_tag
to_sub_assembly_tag item sub_id = do
  v ← data_of item
  assert_throw (ltb v (2 ^ 64)) exception
  assert_throw (is_some_tag item.type) exception
  set_push_tag_sub_id_and_tag (record item { type = push_tag }) sub_id (v % size_mod)

-- operator== and operator<
unfoldable pub eq_item : AssemblyItem → AssemblyItem → Result Bool
unfolding data_of instruction_of
eq_item a b =
    if not (eq_type a.type b.type)
    then ok false
    else if eq_type a.type operation
    then (do i ← instruction_of a; j ← instruction_of b; ok (i == j))
    else (do v ← data_of a; w ← data_of b; ok (v == w))

unfoldable pub less_item : AssemblyItem → AssemblyItem → Result Bool
unfolding data_of instruction_of
less_item a b =
    if not (eq_type a.type b.type)
    then ok (ltb (type_number a.type) (type_number b.type))
    else if eq_type a.type operation
    then (do i ← instruction_of a; j ← instruction_of b; ok (ltb i j))
    else (do v ← data_of a; w ← data_of b; ok (ltb v w))

-- 1 + (3 + 32) * occurrences; with no number known, 1024 of them are assumed.
abbrev immutable_size : Option ℕ → ℕ
immutable_size (some n) = (1 + (3 + 32) * n) % size_mod
immutable_size none = 1 + (3 + 32) * 1024

bytes_by_type : AssemblyItemType → ℕ → AssemblyItem → Result ℕ
unfolding data_of
bytes_by_type operation address_length item = ok 1
bytes_by_type tag address_length item = ok 1
bytes_by_type push_string address_length item = ok (1 + 32)
bytes_by_type push address_length item = do v ← data_of item; ok (1 + max 1 (bytes_required v))
bytes_by_type push_sub_size address_length item = ok (1 + 4)
bytes_by_type push_program_size address_length item = ok (1 + 4)
bytes_by_type push_tag address_length item = ok ((1 + address_length) % size_mod)
bytes_by_type push_data address_length item = ok ((1 + address_length) % size_mod)
bytes_by_type push_sub address_length item = ok ((1 + address_length) % size_mod)
bytes_by_type push_library_address address_length item = ok (1 + 21)
bytes_by_type push_deploy_time_address address_length item = ok (1 + 21)
bytes_by_type push_immutable address_length item = ok (1 + 32)
bytes_by_type assign_immutable address_length item = ok (immutable_size item.immutable_occurrences)
bytes_by_type undefined_item address_length item = err invalid_opcode

-- AssemblyItem::bytesRequired
unfoldable pub item_bytes_required : AssemblyItem → ℕ → Result ℕ
unfolding bytes_by_type
item_bytes_required item address_length = bytes_by_type item.type address_length item

unfoldable pub arguments : AssemblyItem → Result ℕ
unfolding instruction_of
arguments item =
    if eq_type item.type operation
    then (do i ← instruction_of item; ok (instruction_info i).args)
    else ok (if eq_type item.type assign_immutable then 2 else 0)

unfoldable pub returned : AssemblyItemType → AssemblyItem → Result ℕ
unfolding instruction_of
returned operation item = do i ← instruction_of item; ok (instruction_info i).ret
returned tag item = ok 0
returned assign_immutable item = ok 0
returned undefined_item item = ok 0
returned _ item = ok 1

unfoldable pub return_values : AssemblyItem → Result ℕ
unfolding returned
return_values item = returned item.type item

-- A size_t: less than nothing wraps around.
unfoldable pub deposit : AssemblyItem → Result ℕ
unfolding return_values arguments
deposit item = do
  out ← return_values item
  args ← arguments item
  ok ((out + size_mod - args) % size_mod)

is_ordinary : JumpType → Bool
is_ordinary ordinary = true
is_ordinary _ = false

functional_by_type : AssemblyItemType → AssemblyItem → Result Bool
unfolding instruction_of
functional_by_type operation item = do
  i ← instruction_of item
  ok (not (is_dup_instruction i) && not (is_swap_instruction i))
functional_by_type tag item = ok false
functional_by_type assign_immutable item = ok false
functional_by_type undefined_item item = ok false
functional_by_type _ item = ok true

unfoldable pub can_be_functional : AssemblyItem → Result Bool
unfolding functional_by_type is_ordinary
can_be_functional item =
    if not (is_ordinary item.jump_type) then ok false else functional_by_type item.type item

unfoldable pub get_jump_type_as_string : AssemblyItem → List ℕ
get_jump_type_as_string item = elim item.jump_type [
  | into_function ↦ codes "[in]"
  | out_of_function ↦ codes "[out]"
  | ordinary ↦ []
]
