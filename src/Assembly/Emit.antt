-- ===== src/Assembly/Emit.antt =====
-- The code of one item: the `switch` in the main loop of `Assembly::assemble`. Positions that are
-- not known yet are left as zeros and noted, to be filled in afterwards.
pub mod Places
pub mod Steps
pub mod Jumpdests
pub mod References
pub mod Targets
use jules_solidity_pppascal.Instruction.Opcode
use Prim.Native.Nat.{max}
use jules_solidity_pppascal.Common.{
  ◌++◌, [], ◌>>=◌, ◌∷◌, get_elem?, err, take, if◌then◌else◌, ◌>>◌, none, out_of_range, is_nil, ◌==◌,
  undefined, replicate, ◌-◌, ◌%◌, ◌^◌, set, leb, invalid_opcode,
}
use jules_solidity_pppascal.Assembly.{
  Fields, List, Result, Option, ℕ, some, ok, length, assert_throw, assembly_exception, ltb, not,
}
use jules_solidity_pppascal.Assembly.Paths.{decode_sub_path, descend}
use jules_solidity_pppascal.AssemblyItem.{
  AssemblyItem, AssemblyItemType, undefined_item, operation, push, push_string, push_tag, push_sub,
  push_sub_size, push_program_size, tag, push_data, push_library_address, push_deploy_time_address,
  push_immutable, assign_immutable, eq_type, data_of, instruction_of, split_foreign_push_tag,
  size_max,
}
use jules_solidity_pppascal.Common.Dict.{lookup, insert}
use jules_solidity_pppascal.Common.Rose.{Rose, Roses, root, child?, count}
use jules_solidity_pppascal.CommonData.Endian.{bytes_required, to_big_endian, to_compact_big_endian}
use jules_solidity_pppascal.Instruction.Info.{push_instruction}
use jules_solidity_pppascal.Instruction.Opcode.{Instruction}
use jules_solidity_pppascal.LinkerObject.{LinkerObject}

-- What `assemble` leaves in an assembly.
pub record Output : Type 0 where
  pub object : LinkerObject
  pub tag_positions : List ℕ

-- The local variables that the loop reads: how wide references are, the instructions that push
-- them, and the assembled sub-assemblies.
pub record Layout : Type 0 where
  pub bytes_per_tag : ℕ
  pub tag_push : Instruction
  pub bytes_per_data_ref : ℕ
  pub data_ref_push : Instruction
  pub subs : Roses Output

-- The local variables that the loop changes. `unassigned` is `immutableReferencesBySub`.
pub record Emitted : Type 0 where
  pub object : LinkerObject
  pub tag_positions : List ℕ
  pub tag_refs : List (ℕ × (ℕ × ℕ))
  pub data_refs : List (ℕ × ℕ)
  pub sub_refs : List (ℕ × ℕ)
  pub size_refs : List ℕ
  pub unassigned : List (ℕ × (List ℕ × List ℕ))

abbrev pub size_of : Emitted → ℕ
size_of e = length e.object.bytecode

-- Bytes put behind the code.
abbrev pub put : List ℕ → Emitted → Emitted
put bytes e = record e { object = record e.object { bytecode = e.object.bytecode ++ bytes } }

-- std::map::at
abbrev pub at {ℓ} : {V : Type ℓ} → Option V → Result V
at (some v) = ok v
at none = err out_of_range

-- std::multimap::insert: behind the entries with the same key.
unfoldable pub insert_multi : ℕ → ℕ → List (ℕ × ℕ) → List (ℕ × ℕ)
insert_multi k v [] = (k, v) ∷ []
insert_multi k v ((j, w) ∷ m) =
    let later = insert_multi k v m in if ltb k j then (k, v) ∷ (j, w) ∷ m else (j, w) ∷ later

-- subAssemblyById
unfoldable pub sub_assembly_by_id : Fields → Roses Output → ℕ → Result (Rose Output)
unfolding decode_sub_path descend
sub_assembly_by_id f subs id = do
  path ← decode_sub_path (count subs) id f
  elim path [
    | [] ↦ err assembly_exception
    | i ∷ deeper ↦ (do sub ← at (child? subs i); descend deeper sub)
  ]

-- The position of the invalid jump destination is the first that is no tag.
unfoldable pub mark_first : AssemblyItemType → Emitted → Result Emitted
mark_first t e = if eq_type t tag then ok e else elim (get_elem? e.tag_positions 0) [
  | none ↦ err undefined
  | some first ↦ ok (
      if first == size_max
      then record e { tag_positions = set e.tag_positions 0 (size_of e) }
      else e)
]

-- A push of a number, as short as it can be, but not of nothing.
unfoldable pub push_number : ℕ → Result (List ℕ)
unfolding push_instruction bytes_required to_big_endian
push_number v = do
  let b = max 1 (bytes_required v)
  inst ← push_instruction b
  ok (inst ∷ to_big_endian b v)

-- The loop over the places of an immutable: the value and the base are kept on the stack for all
-- places but the last.
unfoldable pub store_immutables : List ℕ → Result (List ℕ)
unfolding push_instruction to_compact_big_endian
store_immutables [] = ok []
store_immutables (offset ∷ offsets) = do
  let bytes = to_compact_big_endian offset 0
  inst ← push_instruction (length bytes)
  rest ← store_immutables offsets
  let keep : List ℕ = if is_nil offsets then [] else Opcode.dup2 ∷ Opcode.dup2 ∷ []
  ok (keep ++ inst ∷ (bytes ++ Opcode.add ∷ Opcode.mstore ∷ rest))

abbrev offsets_of : Option (List ℕ × List ℕ) → List ℕ
offsets_of (some (name, offsets)) = offsets
offsets_of none = []

-- m.erase(k)
unfoldable pub erase {ℓ} : {V : Type ℓ} → ℕ → List (ℕ × V) → List (ℕ × V)
erase k [] = []
erase k ((j, v) ∷ m) = let rest = erase k m in if j == k then rest else (j, v) ∷ rest

-- One more place at which an immutable is used.
abbrev add_place : Option (List ℕ × List ℕ) → List ℕ → ℕ → List ℕ × List ℕ
add_place (some (old, places)) name place = (name, places ++ place ∷ [])
add_place none name place = (name, place ∷ [])

place_tag : AssemblyItem → Emitted → Result Emitted
unfolding data_of split_foreign_push_tag
place_tag item e = do
  v ← data_of item
  assert_throw (not (v == 0)) assembly_exception
  split ← split_foreign_push_tag item
  assert_throw (split.0 == size_max) assembly_exception
  assert_throw (ltb (size_of e) 0xffffffff) assembly_exception
  elim (get_elem? e.tag_positions (v % 2 ^ 64)) [
    | none ↦ err undefined
    | some old ↦ (do
      assert_throw (old == size_max) assembly_exception
      ok (
          put (Opcode.jumpdest ∷ [])
            (record e { tag_positions = set e.tag_positions (v % 2 ^ 64) (size_of e) })))
  ]

pub emit_type : Fields → Layout → AssemblyItemType → AssemblyItem → Emitted → Result Emitted
unfolding data_of instruction_of split_foreign_push_tag push_number store_immutables erase place_tag
    lookup insert insert_multi sub_assembly_by_id
emit_type f l operation item e = do inst ← instruction_of item; ok (put (inst ∷ []) e)
emit_type f l push_string item e = do
  v ← data_of item
  s ← at (lookup v f.strings)
  ok (put (Opcode.push32 ∷ (take 32 s ++ replicate (32 - length s) 0)) e)
emit_type f l push item e = do v ← data_of item; bytes ← push_number v; ok (put bytes e)
emit_type f l push_tag item e = do
  let e₁ = put (l.tag_push ∷ []) e
  split ← split_foreign_push_tag item
  ok (
      put (replicate l.bytes_per_tag 0)
        (record e₁ { tag_refs = insert (size_of e₁) split e₁.tag_refs }))
emit_type f l push_data item e = do
  let e₁ = put (l.data_ref_push ∷ []) e
  v ← data_of item
  ok (
      put (replicate l.bytes_per_data_ref 0)
        (record e₁ { data_refs = insert_multi v (size_of e₁ % 2 ^ 32) e₁.data_refs }))
emit_type f l push_sub item e = do
  v ← data_of item
  assert_throw (leb v size_max) assembly_exception
  let e₁ = put (l.data_ref_push ∷ []) e
  ok (
      put (replicate l.bytes_per_data_ref 0)
        (record e₁ { sub_refs = insert_multi v (size_of e₁) e₁.sub_refs }))
emit_type f l push_sub_size item e = do
  v ← data_of item
  assert_throw (leb v size_max) assembly_exception
  sub ← sub_assembly_by_id f l.subs v
  bytes ← push_number (length (root sub).object.bytecode)
  ok (put bytes e)
emit_type f l push_program_size item e =
    let e₁ = put (l.data_ref_push ∷ []) e in
    ok (
      put (replicate l.bytes_per_data_ref 0)
        (record e₁ { size_refs = e₁.size_refs ++ (size_of e₁ % 2 ^ 32) ∷ [] }))
emit_type f l push_library_address item e = do
  let e₁ = put (Opcode.push21 ∷ []) e
  v ← data_of item
  name ← at (lookup v f.libraries)
  ok (
      put (replicate 21 0) (record e₁ {
        object = record e₁.object {
          link_references = insert (size_of e₁) name e₁.object.link_references;
        };
      }))
emit_type f l push_immutable item e = do
  let e₁ = put (Opcode.push32 ∷ []) e
  v ← data_of item
  name ← at (lookup v f.immutables)
  let refs = e₁.object.immutable_references
  ok (
      put (replicate 32 0) (record e₁ {
        object = record e₁.object {
          immutable_references = insert v (add_place (lookup v refs) name (size_of e₁)) refs;
        };
      }))
emit_type f l assign_immutable item e = do
  v ← data_of item
  let offsets = offsets_of (lookup v e.unassigned)
  bytes ← store_immutables offsets
  let all : List ℕ = if is_nil offsets then Opcode.pop ∷ Opcode.pop ∷ [] else bytes
  ok (put all (record e { unassigned = erase v e.unassigned }))
emit_type f l push_deploy_time_address item e = ok (put (Opcode.push21 ∷ replicate 21 0) e)
emit_type f l tag item e = place_tag item e
emit_type f l undefined_item item e = err invalid_opcode

-- One round of the loop, and the loop.
unfoldable pub emit_item : Fields → Layout → AssemblyItem → Emitted → Result Emitted
unfolding mark_first emit_type
emit_item f l item e = do e₁ ← mark_first item.type e; emit_type f l item.type item e₁

unfoldable pub emit_items : Fields → Layout → List AssemblyItem → Emitted → Result Emitted
unfolding emit_item
emit_items f l [] e = ok e
emit_items f l (item ∷ items) e = emit_item f l item e >>= emit_items f l items
