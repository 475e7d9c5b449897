-- ===== src/Assembly/Assemble/Noting.antt =====
-- What precedes the main loop of `Assembly::assemble`, in libevmasm/Assembly.cpp.
use jules_solidity_pppascal.Common.{
  ◌+◌, ◌%◌, ◌^◌, ◌∙◌, ◌≡◌, >>=-eq-ok, ok-injective, ap, sym, refl, Bool-cases, inl, ◌++◌, inr, [],
  ◌∷◌, subst,
}
use jules_solidity_pppascal.Assembly.{Fields, ok}
use jules_solidity_pppascal.Assembly.Assemble.{
  make_layout, note_occurrences, sub_sizes, ℕ, length, List,
}
use jules_solidity_pppascal.Assembly.Emit.{Layout, Output}
use jules_solidity_pppascal.Assembly.Emit.Targets.{target_of, targets}
use jules_solidity_pppascal.AssemblyItem.{
  assign_immutable, data_of, AssemblyItem, eq_type, split_foreign_push_tag,
}
use jules_solidity_pppascal.Common.Post.{Post}
use jules_solidity_pppascal.Common.Rose.{Roses}
use jules_solidity_pppascal.CommonData.Endian.{bytes_required}
use jules_solidity_pppascal.Instruction.Info.{push_instruction}

-- Noting the occurrences of immutables leaves the references to tags alone.
pub noted-targets :
    (items : List AssemblyItem) (immutables : List (ℕ × (List ℕ × List ℕ)))
    → Post (λ noted. targets noted.0 ≡ targets items) (note_occurrences items immutables)
unfolding note_occurrences targets target_of split_foreign_push_tag data_of Post
noted-targets [] immutables noted done = ap (λ n. targets n.0) (sym (ok-injective done))
noted-targets (item ∷ items) immutables noted done =
    elim (Bool-cases (eq_type item.type assign_immutable)) [
      | inl assigns ↦
          let (v, _, later) = >>=-eq-ok (data_of item) _ (rw (assigns, note_occurrences) at done) in
          let (rest, found, same) = >>=-eq-ok (note_occurrences items _) _ later in
          ap (λ n. targets n.0) (sym (ok-injective same))
          ∙ ap (λ ts. target_of item ++ ts) (noted-targets items _ rest found)
      | inr other ↦
          let (rest, found, same) =
            >>=-eq-ok (note_occurrences items immutables) _
              (rw (other, note_occurrences) at done) in
          ap (λ n. targets n.0) (sym (ok-injective same))
          ∙ ap (λ ts. target_of item ++ ts) (noted-targets items immutables rest found)
    ]

-- The layout has the sub-assemblies, and the instruction that pushes as many bytes as a tag takes.
pub make_layout-parts :
    (f : Fields) (subs : Roses Output) (code_size : ℕ)
    → Post
        (λ l. (l.subs ≡ subs) × (push_instruction l.bytes_per_tag ≡ ok l.tag_push))
        (make_layout f subs code_size)
unfolding make_layout Post
make_layout-parts f subs code_size l done =
    let (tag_push, pushes, later) =
      >>=-eq-ok (push_instruction (bytes_required code_size)) _ done in
    let (data_ref_push, _, same) =
      >>=-eq-ok
        (push_instruction
          (bytes_required ((code_size + 1 + length f.auxiliary_data + sub_sizes subs) % 2 ^ 32)))
        _ later in
    subst (λ (l : Layout). (l.subs ≡ subs) × (push_instruction l.bytes_per_tag ≡ ok l.tag_push))
      (ok-injective same) (refl, pushes)
