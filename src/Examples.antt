-- ===== src/Examples.antt =====
-- The theorems at concrete inputs: assembly items, link references, code and numbers.
mod Code
mod Bytes
mod Assembling
mod Generating
mod Typing
mod Texts
use Prim.Native.Nat.{ℕ}
use jules_solidity_pppascal.Common.{
  ◌<◌, List, replicate, inr, ◌≡◌, arith, some, ◌∷◌, refl, ok, [], ◌⊎◌, ◌-◌, true, length, All, ◌≤◌,
  err, exception,
}
use jules_solidity_pppascal.Assembly.{empty_fields, Fields}
use jules_solidity_pppascal.Assembly.Paths.{
  encode_sub_path, insert_path, find_id, decode_sub_path, find_path,
}
use jules_solidity_pppascal.Assembly.Paths.Laws.{
  decode-encode_other, Encoded, encode_sub_path-Encoded, PathsInv,
}
use jules_solidity_pppascal.AssemblyItem.{
  size_max, less_item, size_mod, to_sub_assembly_tag, bare, data_of, tag, AssemblyItem, push_tag,
  split_foreign_push_tag, push, set_push_tag_sub_id_and_tag,
}
use jules_solidity_pppascal.AssemblyItem.Order.{less_trans, OneOf, less-trichotomy}
use jules_solidity_pppascal.AssemblyItem.Tags.{split-set, split-to_sub_assembly_tag}
use jules_solidity_pppascal.Common.Text.{codes, eq_text}
use jules_solidity_pppascal.LinkerObject.{link, LinkerObject}
use jules_solidity_pppascal.LinkerObject.Link.{link-Linked, unmatched, Linked}

abbrev tag_five : AssemblyItem
tag_five = record (bare tag) { payload = some 5 }

abbrev push_of : ℕ → AssemblyItem
push_of v = record (bare push) { payload = some v }

abbrev one_path : Fields
one_path = record empty_fields { sub_paths = (0 ∷ 1 ∷ [], size_max) ∷ [] }

abbrev two_paths : Fields
two_paths = record empty_fields {
  sub_paths = (0 ∷ 1 ∷ [], size_max) ∷ (0 ∷ 2 ∷ [], size_max - 1) ∷ [];
}

one_path-PathsInv : PathsInv 2 one_path
unfolding find_id find_path eq_text
one_path-PathsInv = record {
  above = (omega arith, tt);
  outside = (omega arith, tt);
  distinct = (refl, refl, tt);
}

second_path : encode_sub_path 2 (0 ∷ 2 ∷ []) one_path ≡ ok (size_max - 1, two_paths)
unfolding encode_sub_path find_path insert_path eq_text
second_path = refl

encode_sub_path-Encoded_example : Encoded 2 (0 ∷ 2 ∷ []) one_path two_paths (size_max - 1)
encode_sub_path-Encoded_example =
    encode_sub_path-Encoded 2 (0 ∷ 2 ∷ []) one_path two_paths (size_max - 1) one_path-PathsInv
      (omega arith) second_path

first_path : decode_sub_path 2 size_max one_path ≡ ok (0 ∷ 1 ∷ [])
unfolding decode_sub_path find_id
first_path = refl

decode-encode_other_example : decode_sub_path 2 size_max two_paths ≡ ok (0 ∷ 1 ∷ [])
decode-encode_other_example =
    decode-encode_other 2 (0 ∷ 2 ∷ []) (0 ∷ 1 ∷ []) one_path two_paths (size_max - 1) size_max
      one_path-PathsInv (omega arith) second_path first_path

abbrev call : LinkerObject
call = record {
  bytecode = 0x74 ∷ replicate 21 0;
  link_references = (1, codes "f:L") ∷ [];
  immutable_references = [];
}

abbrev addresses : List (List ℕ × List ℕ)
addresses = (codes "L", replicate 21 7) ∷ []

link-Linked_example :
    (code : List ℕ) × (link call addresses
      ≡ ok (record call {
        bytecode = code;
        link_references = unmatched addresses call.link_references;
      }))
    × (length code ≡ length call.bytecode)
    × All (Linked addresses call.bytecode code) call.link_references
link-Linked_example = link-Linked call addresses (refl, tt) (omega arith, omega arith, tt)

split-set_example :
    (stored : AssemblyItem) × (set_push_tag_sub_id_and_tag tag_five 3 9 ≡ ok stored)
    × (stored.type ≡ tag)
    × (split_foreign_push_tag stored ≡ ok (3, 9))
split-set_example = split-set tag_five 3 9 refl (omega arith) (omega arith)

split-to_sub_assembly_tag_example :
    ((5 < size_mod)
      × ((moved : AssemblyItem) × (to_sub_assembly_tag tag_five 3 ≡ ok moved)
          × (moved.type ≡ push_tag)
          × (split_foreign_push_tag moved ≡ ok (3, 5))))
    ⊎ ((size_mod ≤ 5) × (to_sub_assembly_tag tag_five 3 ≡ err exception))
split-to_sub_assembly_tag_example = split-to_sub_assembly_tag tag_five 3 5 refl refl (omega arith)

less-trichotomy_example : OneOf (push_of 3) tag_five
less-trichotomy_example = less-trichotomy (push_of 3) tag_five (inr (3, refl)) (inr (5, refl))

smaller_push : less_item (push_of 3) (push_of 4) ≡ ok true
unfolding less_item data_of
smaller_push = refl

push_first : less_item (push_of 4) tag_five ≡ ok true
unfolding less_item
push_first = refl

less_trans_example : less_item (push_of 3) tag_five ≡ ok true
less_trans_example =
    less_trans (push_of 3) (push_of 4) tag_five (inr (3, refl)) (inr (4, refl)) (inr (5, refl))
      smaller_push push_first
