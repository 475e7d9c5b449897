-- ===== src/Assembly/Emit/Steps.antt =====
-- The cases of the `switch` in the main loop of `Assembly::assemble`, in libevmasm/Assembly.cpp.
use jules_solidity_pppascal.Common.{◌^◌, [], ◌++◌, ◌∷◌, ◌%◌, ◌==◌, ◌-◌, get_elem?, refl}
use jules_solidity_pppascal.Assembly.{Fields, assert_throw, length, assembly_exception, not, ltb}
use jules_solidity_pppascal.Assembly.Emit.{
  sub_assembly_by_id, push_number, Emitted, store_immutables, emit_type, erase, size_of, Layout,
  instruction_of, replicate, leb, offsets_of, place_tag, at, take, undefined,
}
use jules_solidity_pppascal.Assembly.Emit.Places.{
  push_program_size-Step, push_address-Step, push_sub-Step, put-Step, assign-Step, place-Step,
  push_tag-Step, push_data-Step, Step,
}
use jules_solidity_pppascal.AssemblyItem.{
  size_max, instruction_of, push, push_sub_size, data_of, AssemblyItem, push_library_address,
  split_foreign_push_tag, AssemblyItemType, push_deploy_time_address, push_tag, push_sub,
  push_string, assign_immutable, undefined_item, push_immutable, operation, tag, push_data,
  push_program_size,
}
use jules_solidity_pppascal.Common.Dict.{lookup}
use jules_solidity_pppascal.Common.Post.{bind-Post, Post, ok-Post, option-Post}
use jules_solidity_pppascal.Common.Rose.{root}
use jules_solidity_pppascal.Instruction.Opcode

place_tag-Step :
    (l : Layout) (item : AssemblyItem) (e : Emitted) → Post (Step l e) (place_tag item e)
unfolding place_tag
place_tag-Step l item e = bind-Post (Step l e) (data_of item) _ λ v.
    bind-Post (Step l e) (assert_throw (not (v == 0)) assembly_exception) _ λ _.
      bind-Post (Step l e) (split_foreign_push_tag item) _ λ split.
        bind-Post (Step l e) (assert_throw (split.0 == size_max) assembly_exception) _ λ _.
          bind-Post (Step l e) (assert_throw (ltb (size_of e) 0xffffffff) assembly_exception) _ λ _.
            option-Post (Step l e) (get_elem? e.tag_positions (v % 2 ^ 64)) undefined _ λ old.
              bind-Post (Step l e) (assert_throw (old == size_max) assembly_exception) _
                λ _. ok-Post (Step l e) _ (place-Step l e (v % 2 ^ 64))

pub emit_type-Step :
    (f : Fields) (l : Layout) (t : AssemblyItemType) (item : AssemblyItem) (e : Emitted)
    → Post (Step l e) (emit_type f l t item e)
unfolding emit_type
emit_type-Step f l operation item e =
    bind-Post (Step l e) (instruction_of item) _
      (λ inst. ok-Post (Step l e) _ (put-Step l e (inst ∷ [])))
emit_type-Step f l push_string item e = bind-Post (Step l e) (data_of item) _ λ v.
    bind-Post (Step l e) (at (lookup v f.strings)) _ λ s.
      ok-Post (Step l e) _
        (put-Step l e (Opcode.push32 ∷ (take 32 s ++ replicate (32 - length s) 0)))
emit_type-Step f l push item e =
    bind-Post (Step l e) (data_of item) _
      λ v. bind-Post (Step l e) (push_number v) _ λ bytes. ok-Post (Step l e) _ (put-Step l e bytes)
emit_type-Step f l push_tag item e =
    bind-Post (Step l e) (split_foreign_push_tag item) _
      λ split. ok-Post (Step l e) _ (push_tag-Step l e l.tag_push split refl)
emit_type-Step f l push_data item e =
    bind-Post (Step l e) (data_of item) _
      λ v. ok-Post (Step l e) _ (push_data-Step l e l.data_ref_push v)
emit_type-Step f l push_sub item e = bind-Post (Step l e) (data_of item) _ λ v.
    bind-Post (Step l e) (assert_throw (leb v size_max) assembly_exception) _
      λ _. ok-Post (Step l e) _ (push_sub-Step l e l.data_ref_push v)
emit_type-Step f l push_sub_size item e = bind-Post (Step l e) (data_of item) _ λ v.
    bind-Post (Step l e) (assert_throw (leb v size_max) assembly_exception) _ λ _.
      bind-Post (Step l e) (sub_assembly_by_id f l.subs v) _ λ sub.
        bind-Post (Step l e) (push_number (length (root sub).object.bytecode)) _
          λ bytes. ok-Post (Step l e) _ (put-Step l e bytes)
emit_type-Step f l push_program_size item e =
    ok-Post (Step l e) _ (push_program_size-Step l e l.data_ref_push)
emit_type-Step f l push_library_address item e = bind-Post (Step l e) (data_of item) _ λ v.
    bind-Post (Step l e) (at (lookup v f.libraries)) _
      λ name. ok-Post (Step l e) _ (push_address-Step l e Opcode.push21 21 _ _)
emit_type-Step f l push_immutable item e = bind-Post (Step l e) (data_of item) _ λ v.
    bind-Post (Step l e) (at (lookup v f.immutables)) _
      λ name. ok-Post (Step l e) _ (push_address-Step l e Opcode.push32 32 _ _)
emit_type-Step f l assign_immutable item e = bind-Post (Step l e) (data_of item) _ λ v.
    bind-Post (Step l e) (store_immutables (offsets_of (lookup v e.unassigned))) _
      λ bytes. ok-Post (Step l e) _ (assign-Step l e _ (erase v e.unassigned))
emit_type-Step f l push_deploy_time_address item e =
    ok-Post (Step l e) _ (put-Step l e (Opcode.push21 ∷ replicate 21 0))
emit_type-Step f l tag item e = place_tag-Step l item e
emit_type-Step f l undefined_item item e = unfold Post in λ e' h. cc
