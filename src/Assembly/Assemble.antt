-- ===== src/Assembly/Assemble.antt =====
-- `Assembly::bytesRequired` and `Assembly::assemble`: the sizes, the main loop, and the passes that
-- fill in what the loop left open.
pub mod Fills
pub mod Noting
pub mod Jumps
pub mod Sizes
pub mod References
pub mod Resolving
use jules_solidity_pppascal.Instruction.Opcode
use jules_solidity_pppascal.Common.{
  true, false, ◌++◌, ◌>>◌, err, ◌>>=◌, if◌then◌else◌, ◌∷◌, [], ◌||◌, ◌+◌, get_elem?, ◌==◌, stuck,
  ◌%◌, ◌&&◌, none, is_nil, suc, ◌^◌, leb, code_generation_error, replicate, zero,
}
use jules_solidity_pppascal.Assembly.{
  Fields, Assembly, Result, List, ℕ, Bool, ok, length, false, assert_throw, not, some,
  assembly_exception, ltb,
}
use jules_solidity_pppascal.Assembly.Emit.{Output, Layout, Emitted, sub_assembly_by_id, emit_items}
use jules_solidity_pppascal.AssemblyItem.{
  AssemblyItem, push_immutable, assign_immutable, eq_type, data_of, size_max, item_bytes_required,
}
use jules_solidity_pppascal.Common.Buffer.{overwrite}
use jules_solidity_pppascal.Common.Dict.{lookup, insert}
use jules_solidity_pppascal.Common.Rose.{Rose, Roses, node, nil, cons, root, child?, count}
use jules_solidity_pppascal.CommonData.Endian.{bytes_required, to_big_endian}
use jules_solidity_pppascal.Instruction.Info.{push_instruction}
use jules_solidity_pppascal.Instruction.Opcode.{Instruction}
use jules_solidity_pppascal.LinkerObject.{LinkerObject, append}

-- The sum over `m_data`, and that over the items.
unfoldable pub data_size : List (ℕ × List ℕ) → ℕ
data_size [] = 0
data_size ((h, bytes) ∷ blocks) = length bytes + data_size blocks

unfoldable pub items_size : ℕ → List AssemblyItem → Result ℕ
unfolding item_bytes_required
items_size tag_size [] = ok 0
items_size tag_size (item ∷ items) = do
  n ← item_bytes_required item tag_size
  rest ← items_size tag_size items
  ok (n + rest)

-- The loop of `bytesRequired`, over growing sizes of tags. A `size_t` takes 8 bytes at most, so at
-- the latest it ends when tags are 8 bytes long.
unfoldable pub bytes_required_loop : ℕ → ℕ → Fields → Result ℕ
unfolding items_size data_size bytes_required
bytes_required_loop zero tag_size f = err stuck
bytes_required_loop (suc fuel) tag_size f =
    let larger = bytes_required_loop fuel (tag_size + 1) f in
    do
      n ← items_size tag_size f.items
      let ret = (1 + data_size f.data_blocks + n) % 2 ^ 64
      if leb (bytes_required ret) tag_size then ok (ret % 2 ^ 32) else larger

unfoldable pub code_bytes_required : ℕ → Fields → Result ℕ
unfolding bytes_required_loop
code_bytes_required sub_tag_size f = bytes_required_loop 9 sub_tag_size f

-- The loop over the sub-assemblies: the immutables that one of them refers to, and the largest
-- position of a tag in them (at least 1), which serves as the first size of tags to be tried.
largest_position : List ℕ → ℕ → ℕ
largest_position [] size = size
largest_position (p ∷ positions) size =
    largest_position positions (if not (p == size_max) && ltb size p then p else size)

survey_subs :
    Roses Output → ℕ → List (ℕ × (List ℕ × List ℕ)) → Result (ℕ × List (ℕ × (List ℕ × List ℕ)))
unfolding largest_position
survey_subs nil size immutables = ok (size, immutables)
survey_subs (cons sub subs) size immutables = do
  let refs = (root sub).object.immutable_references
  assert_throw (is_nil refs || is_nil immutables) assembly_exception
  survey_subs subs (largest_position (root sub).tag_positions size)
      (if is_nil refs then immutables else refs)

-- The occurrences of each assigned immutable are noted in its item. Asking for one that no
-- sub-assembly uses makes an empty entry.
pub note_occurrences :
    List AssemblyItem
    → List (ℕ × (List ℕ × List ℕ))
    → Result (List AssemblyItem × List (ℕ × (List ℕ × List ℕ)))
unfolding data_of lookup insert
note_occurrences [] immutables = ok ([], immutables)
note_occurrences (item ∷ items) immutables = elim (eq_type item.type assign_immutable) [
  | true ↦ (do
    v ← data_of item
    let entry : List ℕ × List ℕ = elim (lookup v immutables) [ some e ↦ e | none ↦ ([], []) ]
    (items', immutables') ← note_occurrences items (insert v entry immutables)
    ok (record item { immutable_occurrences = some (length entry.1) } ∷ items', immutables'))
  | false ↦ (do
    (items', immutables') ← note_occurrences items immutables
    ok (item ∷ items', immutables'))
]

any_type : (AssemblyItem → Bool) → List AssemblyItem → Bool
any_type p [] = false
any_type p (item ∷ items) = p item || any_type p items

sub_sizes : Roses Output → ℕ
sub_sizes nil = 0
sub_sizes (cons sub subs) = length (root sub).object.bytecode + sub_sizes subs

-- Filling in a number at a place of the code.
unfoldable pub fill : ℕ → ℕ → ℕ → LinkerObject → Result LinkerObject
unfolding overwrite to_big_endian
fill place width v o = do
  code ← overwrite place (to_big_endian width v) o.bytecode
  ok (record o { bytecode = code })

-- The code of the sub-assemblies that are referred to, in the order of their numbers; a
-- sub-assembly is put in once for each reference.
pub fill_subs : Fields → Layout → List (ℕ × ℕ) → LinkerObject → Result LinkerObject
unfolding fill sub_assembly_by_id append
fill_subs f l [] o = ok o
fill_subs f l ((id, place) ∷ refs) o = do
  o₁ ← fill place l.bytes_per_data_ref (length o.bytecode) o
  sub ← sub_assembly_by_id f l.subs id
  fill_subs f l refs (append o₁ (root sub).object)

-- The table of the positions of the tags that a reference goes by.
pub positions_for : ℕ → List ℕ → Roses Output → Result (List ℕ)
positions_for sub_id own subs = if sub_id == size_max then ok own else elim (child? subs sub_id) [
  | some sub ↦ ok (root sub).tag_positions
  | none ↦ err assembly_exception
]

unfoldable pub fill_tag : Layout → List ℕ → ℕ × (ℕ × ℕ) → LinkerObject → Result LinkerObject
unfolding fill positions_for bytes_required
fill_tag l own (place, (sub_id, tag_id)) o = do
  positions ← positions_for sub_id own l.subs
  elim (get_elem? positions tag_id) [
    | none ↦ err assembly_exception
    | some p ↦ (do
      assert_throw (not (p == size_max)) assembly_exception
      assert_throw (leb (bytes_required p) l.bytes_per_tag) assembly_exception
      fill place l.bytes_per_tag p o)
  ]

unfoldable pub fill_tags : Layout → List ℕ → List (ℕ × (ℕ × ℕ)) → LinkerObject → Result LinkerObject
unfolding fill_tag
fill_tags l own [] o = ok o
fill_tags l own (ref ∷ refs) o = fill_tag l own ref o >>= fill_tags l own refs

-- The references to one block of data, which is then put behind the code.
fill_data_refs : ℕ → ℕ → List (ℕ × ℕ) → ℕ → LinkerObject → Result LinkerObject
unfolding fill
fill_data_refs width h [] end_of_code o = ok o
fill_data_refs width h ((key, place) ∷ refs) end_of_code o =
    if key == h
    then fill place width end_of_code o >>= fill_data_refs width h refs end_of_code
    else fill_data_refs width h refs end_of_code o

is_referred : ℕ → List (ℕ × ℕ) → Bool
is_referred h [] = false
is_referred h ((key, place) ∷ refs) = key == h || is_referred h refs

pub fill_data : ℕ → List (ℕ × ℕ) → List (ℕ × List ℕ) → LinkerObject → Result LinkerObject
unfolding fill_data_refs is_referred
fill_data width refs [] o = ok o
fill_data width refs ((h, bytes) ∷ blocks) o =
    if not (is_referred h refs) then fill_data width refs blocks o else (do
      o₁ ← fill_data_refs width h refs (length o.bytecode) o
      fill_data width refs blocks (record o₁ { bytecode = o₁.bytecode ++ bytes }))

pub fill_sizes : ℕ → List ℕ → LinkerObject → Result LinkerObject
unfolding fill
fill_sizes width [] o = ok o
fill_sizes width (place ∷ places) o =
    fill place width (length o.bytecode) o >>= fill_sizes width places

abbrev add_bytes : List ℕ → LinkerObject → LinkerObject
add_bytes bytes o = record o { bytecode = o.bytecode ++ bytes }

abbrev pub empty_object : LinkerObject
empty_object = record { bytecode = []; link_references = []; immutable_references = [] }

-- How wide references are, from the sizes that are expected.
unfoldable pub make_layout : Fields → Roses Output → ℕ → Result Layout
unfolding push_instruction bytes_required sub_sizes
make_layout f subs code_size = do
  let bytes_per_tag = bytes_required code_size
  tag_push ← push_instruction bytes_per_tag
  let whole = (code_size + 1 + length f.auxiliary_data + sub_sizes subs) % 2 ^ 32
  data_ref_push ← push_instruction (bytes_required whole)
  ok (record {
    bytes_per_tag = bytes_per_tag;
    tag_push = tag_push;
    bytes_per_data_ref = bytes_required whole;
    data_ref_push = data_ref_push;
    subs = subs;
  })

-- Everything behind the main loop.
unfoldable pub finish : Fields → Layout → Emitted → Result Output
unfolding fill_subs fill_tags fill_data fill_sizes
finish f l e = do
  assert_throw (is_nil e.unassigned) code_generation_error
  let behind : List ℕ =
      if count l.subs == 0 && is_nil f.data_blocks && is_nil f.auxiliary_data
      then []
      else Opcode.invalid ∷ []
  o₁ ← fill_subs f l e.sub_refs (add_bytes behind e.object)
  o₂ ← fill_tags l e.tag_positions e.tag_refs o₁
  o₃ ← fill_data l.bytes_per_data_ref e.data_refs f.data_blocks o₂
  o₄ ← fill_sizes l.bytes_per_data_ref e.size_refs (add_bytes f.auxiliary_data o₃)
  ok (record { object = o₄; tag_positions = e.tag_positions })

-- An assembly whose sub-assemblies are assembled.
unfoldable pub assemble_node : Fields → Roses Output → Result Output
unfolding survey_subs note_occurrences any_type code_bytes_required make_layout emit_items finish
assemble_node f subs = do
  (sub_tag_size, immutables) ← survey_subs subs 1 []
  (items, unassigned) ← note_occurrences f.items immutables
  let sets = any_type (λ item. eq_type item.type assign_immutable) f.items
  let pushes = any_type (λ item. eq_type item.type push_immutable) f.items
  assert_throw (not (sets && pushes)) assembly_exception
  code_size ← code_bytes_required (sub_tag_size % 2 ^ 32) (record f { items = items })
  l ← make_layout f subs code_size
  e ← emit_items f l items (record {
    object = empty_object;
    tag_positions = replicate f.used_tags size_max;
    tag_refs = [];
    data_refs = [];
    sub_refs = [];
    size_refs = [];
    unassigned = unassigned;
  })
  finish f l e

-- The whole tree, from the leaves up.
unfoldable mutual
  unfolding assemble_node

  pub assemble : Assembly → Result (Rose Output)
  assemble (node f subs) = do
    assert_throw (not f.invalid) assembly_exception
    outs ← assemble_subs subs
    out ← assemble_node f outs
    ok (node out outs)

  pub assemble_subs : Roses Fields → Result (Roses Output)
  assemble_subs nil = ok nil
  assemble_subs (cons sub subs) = do
    out ← assemble sub
    outs ← assemble_subs subs
    ok (cons out outs)
