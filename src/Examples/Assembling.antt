-- ===== src/Examples/Assembling.antt =====
-- A small assembly, assembled, and the theorems on it.
use jules_solidity_pppascal.Assembly.Assemble.Sizes.{Measured, code_bytes_required-Measured}
use jules_solidity_pppascal.Assembly.Assemble.Resolving.{
  ResolvedCode, Assembled, assemble-ResolvedCode,
}
use jules_solidity_pppascal.Assembly.Assemble.{assemble, code_bytes_required}
use jules_solidity_pppascal.Common.Rose.{children, root, Rose, node, nil}
use jules_solidity_pppascal.AssemblyItem.{instruction_item, typed_item, push_tag, tag, size_max}
use jules_solidity_pppascal.Assembly.{empty_fields, Assembly}
use jules_solidity_pppascal.Assembly.Emit.{Output}
use jules_solidity_pppascal.Assembly.Assemble.Jumps.{assemble-jumpdest}
use jules_solidity_pppascal.AssemblyItem.Sizes.{Sized}
use jules_solidity_pppascal.Common.{[], some, ok, ◌≡◌, ◌∷◌, refl, get_elem?, All, inr, arith, inl}
use jules_solidity_pppascal.Instruction.Opcode

abbrev two_tags : Assembly
two_tags =
    node
      (record empty_fields {
        used_tags = 3;
        items =
            record (typed_item tag 0 []) { type = push_tag; payload = some 2 }
            ∷ instruction_item Opcode.jump
            ∷ record (typed_item tag 0 []) { payload = some 2 }
            ∷ [];
      })
      nil

abbrev assembled : Rose Output
assembled =
    node
      (record {
        object = record {
          bytecode = 0x60 ∷ 3 ∷ 0x56 ∷ 0x5b ∷ [];
          link_references = [];
          immutable_references = [];
        };
        tag_positions = 0 ∷ size_max ∷ 3 ∷ [];
      })
      nil

two_tags_code : assemble two_tags ≡ ok assembled
unfolding assemble typed_item
two_tags_code = refl

-- The tag's position and the code there.
assemble-jumpdest_example : get_elem? (0x60 ∷ 3 ∷ 0x56 ∷ 0x5b ∷ []) 3 ≡ some Opcode.jumpdest
assemble-jumpdest_example =
    assemble-jumpdest two_tags assembled 2 3 two_tags_code (omega arith) (omega arith) refl
      (λ e. absurd (omega arith))

two_tags-Sized : All Sized (root two_tags).items
unfolding typed_item
two_tags-Sized = ((refl, inr (2, refl)), ((refl, inl refl), ((refl, inr (2, refl)), tt)))

code_bytes_required-Measured_example :
    Measured (root two_tags) 1 (code_bytes_required 1 (root two_tags))
code_bytes_required-Measured_example = code_bytes_required-Measured 1 (root two_tags) two_tags-Sized

assemble-ResolvedCode_example :
    Assembled nil (children assembled)
    × ResolvedCode (root two_tags) (children assembled) (root assembled)
assemble-ResolvedCode_example =
    assemble-ResolvedCode (root two_tags) nil assembled two_tags_code (omega arith)
