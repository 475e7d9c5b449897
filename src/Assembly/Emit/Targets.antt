-- ===== src/Assembly/Emit/Targets.antt =====
-- Which items the main loop of `Assembly::assemble` notes references to tags for, in
-- libevmasm/Assembly.cpp.
-- What an item refers to, if it pushes a tag, and what items refer to, in order.
use jules_solidity_pppascal.AssemblyItem.{
  tag, assign_immutable, push_sub_size, push_string, AssemblyItemType, push_data,
  split_foreign_push_tag, push, push_tag, undefined_item, operation, size_max,
  push_deploy_time_address, push_immutable, eq_type, AssemblyItem, push_sub, instruction_of,
  push_library_address, push_program_size, data_of,
}
use jules_solidity_pppascal.Assembly.Emit.{
  size_of, store_immutables, sub_assembly_by_id, emit_type, mark_first, push_number, emit_items,
  Emitted, emit_item, Layout,
}
use jules_solidity_pppascal.Assembly.{Fields}
use jules_solidity_pppascal.Assembly.Emit.Jumpdests.{mark, emit_items-Kept}
use jules_solidity_pppascal.Common.Rose.{root}
use jules_solidity_pppascal.Assembly.Emit.References.{
  RefsInv, first-RefsInv, item-RefsInv, Refs, insert-snoc,
}
use jules_solidity_pppascal.Assembly.Emit.Places.{room-length}
use jules_solidity_pppascal.Common.Dict.{insert, lookup}
use jules_solidity_pppascal.Common.Post.{option-Post, Post, ok-Post, if-Post, bind-Post}
use jules_solidity_pppascal.Common.{
  true, false, ◌++◌, inl, ◌≡◌, >>=-eq-ok, ◌∷◌, inr, [], ◌⊎◌, ap, refl, ◌==◌, ◌+◌, if◌then◌else◌,
  ◌∙◌, ◌<◌, sym, append-nil, ok-injective, ◌^◌, arith, ◌%◌, append_assoc, get_elem?,
}
use jules_solidity_pppascal.Assembly.{
  Fields, List, ℕ, ok, assert_throw, not, assembly_exception, ltb, length,
}
use jules_solidity_pppascal.Assembly.Emit.{
  at, Emitted, emit_items, store_immutables, push_number, mark_first, sub_assembly_by_id, emit_item,
  Layout, emit_type, size_of, place_tag, undefined, leb, err, offsets_of,
}
use jules_solidity_pppascal.Assembly.Emit.Jumpdests.{mark, emit_items-Kept}
use jules_solidity_pppascal.Assembly.Emit.Places.{room-length}
use jules_solidity_pppascal.Assembly.Emit.References.{
  RefsInv, first-RefsInv, Refs, insert-snoc, item-RefsInv,
}
use jules_solidity_pppascal.AssemblyItem.{
  push_program_size, push_tag, split_foreign_push_tag, push_sub_size, operation, push_immutable,
  AssemblyItem, size_max, push_deploy_time_address, assign_immutable, push_string, tag,
  undefined_item, AssemblyItemType, eq_type, push, data_of, push_data, instruction_of, push_sub,
  push_library_address,
}
use jules_solidity_pppascal.Common.Dict.{lookup, insert}
use jules_solidity_pppascal.Common.Post.{option-Post, bind-Post, ok-Post, if-Post, Post}
use jules_solidity_pppascal.Common.Rose.{root}

unfoldable pub target_of : AssemblyItem → List (ℕ × ℕ)
target_of item =
    if eq_type item.type push_tag
    then elim (split_foreign_push_tag item) [ ok split ↦ split ∷ [] | err e ↦ [] ]
    else []

unfoldable pub targets : List AssemblyItem → List (ℕ × ℕ)
unfolding target_of
targets [] = []
targets (item ∷ items) = target_of item ++ targets items

abbrev pub referred : Refs → List (ℕ × ℕ)
referred [] = []
referred ((place, target) ∷ refs) = target ∷ referred refs

referred-append : (xs ys : Refs) → referred (xs ++ ys) ≡ referred xs ++ referred ys
referred-append [] ys = refl
referred-append ((place, target) ∷ xs) ys = ap (λ t. target ∷ t) (referred-append xs ys)

-- The references after the code of an item of the given type.
abbrev Noted : AssemblyItemType → AssemblyItem → Emitted → Emitted → Type 0
Noted t item e e' =
    ((eq_type t push_tag ≡ false) × (e'.tag_refs ≡ e.tag_refs))
    ⊎ ((eq_type t push_tag ≡ true)
        × ((split : ℕ × ℕ) × (split_foreign_push_tag item ≡ ok split)
            × (e'.tag_refs ≡ insert (size_of e + 1) split e.tag_refs)))

place_tag-Noted : (item : AssemblyItem) (e : Emitted) → Post (Noted tag item e) (place_tag item e)
unfolding place_tag
place_tag-Noted item e = bind-Post (Noted tag item e) (data_of item) _ λ v.
    bind-Post (Noted tag item e) (assert_throw (not (v == 0)) assembly_exception) _ λ _.
      bind-Post (Noted tag item e) (split_foreign_push_tag item) _ λ split.
        bind-Post (Noted tag item e) (assert_throw (split.0 == size_max) assembly_exception) _ λ _.
          bind-Post (Noted tag item e)
            (assert_throw (ltb (size_of e) 0xffffffff) assembly_exception) _
            λ _.
              option-Post (Noted tag item e) (get_elem? e.tag_positions (v % 2 ^ 64)) undefined _
                λ old.
                  bind-Post (Noted tag item e) (assert_throw (old == size_max) assembly_exception) _
                    λ _. ok-Post (Noted tag item e) _ (inl (refl, refl))

module _ (f : Fields) (l : Layout) (item : AssemblyItem) (e : Emitted) where
  push_tag-Noted : Post (Noted push_tag item e) (emit_type f l push_tag item e)
  unfolding emit_type Post
  push_tag-Noted e' done =
      let (split, found, same) = >>=-eq-ok (split_foreign_push_tag item) _ done in
      inr (
        refl,
        (
          split,
          found,
          ap (λ (x : Emitted). x.tag_refs) (sym (ok-injective same))
              ∙ ap (λ (q : ℕ). insert q split e.tag_refs)
                  (room-length e.object.bytecode l.tag_push l.bytes_per_tag).0,
        ),
      )

  emit_type-Noted : (t : AssemblyItemType) → Post (Noted t item e) (emit_type f l t item e)
  unfolding emit_type Post
  emit_type-Noted operation =
      bind-Post (Noted operation item e) (instruction_of item) _
        λ inst. ok-Post (Noted operation item e) _ (inl (refl, refl))
  emit_type-Noted push_string = bind-Post (Noted push_string item e) (data_of item) _ λ v.
      bind-Post (Noted push_string item e) (at (lookup v f.strings)) _
        λ s. ok-Post (Noted push_string item e) _ (inl (refl, refl))
  emit_type-Noted push = bind-Post (Noted push item e) (data_of item) _ λ v.
      bind-Post (Noted push item e) (push_number v) _
        λ bytes. ok-Post (Noted push item e) _ (inl (refl, refl))
  emit_type-Noted push_tag = push_tag-Noted
  emit_type-Noted push_data =
      bind-Post (Noted push_data item e) (data_of item) _
        λ v. ok-Post (Noted push_data item e) _ (inl (refl, refl))
  emit_type-Noted push_sub = bind-Post (Noted push_sub item e) (data_of item) _ λ v.
      bind-Post (Noted push_sub item e) (assert_throw (leb v size_max) assembly_exception) _
        λ _. ok-Post (Noted push_sub item e) _ (inl (refl, refl))
  emit_type-Noted push_sub_size = bind-Post (Noted push_sub_size item e) (data_of item) _ λ v.
      bind-Post (Noted push_sub_size item e) (assert_throw (leb v size_max) assembly_exception) _
        λ _. bind-Post (Noted push_sub_size item e) (sub_assembly_by_id f l.subs v) _ λ sub.
          bind-Post (Noted push_sub_size item e) (push_number (length (root sub).object.bytecode)) _
            λ bytes. ok-Post (Noted push_sub_size item e) _ (inl (refl, refl))
  emit_type-Noted push_program_size = ok-Post (Noted push_program_size item e) _ (inl (refl, refl))
  emit_type-Noted push_library_address =
      bind-Post (Noted push_library_address item e) (data_of item) _ λ v.
        bind-Post (Noted push_library_address item e) (at (lookup v f.libraries)) _
          λ name. ok-Post (Noted push_library_address item e) _ (inl (refl, refl))
  emit_type-Noted push_immutable = bind-Post (Noted push_immutable item e) (data_of item) _ λ v.
      bind-Post (Noted push_immutable item e) (at (lookup v f.immutables)) _
        λ name. ok-Post (Noted push_immutable item e) _ (inl (refl, refl))
  emit_type-Noted assign_immutable = bind-Post (Noted assign_immutable item e) (data_of item) _ λ v.
      bind-Post (Noted assign_immutable item e)
        (store_immutables (offsets_of (lookup v e.unassigned))) _
        λ bytes. ok-Post (Noted assign_immutable item e) _ (inl (refl, refl))
  emit_type-Noted push_deploy_time_address =
      ok-Post (Noted push_deploy_time_address item e) _ (inl (refl, refl))
  emit_type-Noted tag = place_tag-Noted item e
  emit_type-Noted undefined_item = λ e' h. cc

-- Marking the position of no tag leaves the references and the code alone.
abbrev Untouched : Emitted → Emitted → Type 0
Untouched e e₁ = (e₁.tag_refs ≡ e.tag_refs) × (size_of e₁ ≡ size_of e)

mark_first-Untouched : (t : AssemblyItemType) (e : Emitted) → Post (Untouched e) (mark_first t e)
unfolding mark_first
mark_first-Untouched t e =
    if-Post (Untouched e) (eq_type t tag) _ _ (ok-Post (Untouched e) e (refl, refl)) (
      option-Post (Untouched e) (get_elem? e.tag_positions 0) undefined _ λ first.
        ok-Post (Untouched e) _
          (elim (first == size_max) as (λ b. Untouched e (if b then mark e else e)) [
            | true ↦ (refl, refl)
            | false ↦ (refl, refl)
          ]))

Noted-referred :
    (l : Layout) (item : AssemblyItem) (e e' : Emitted)
    → RefsInv l e
    → Noted item.type item e e'
    → referred e'.tag_refs ≡ referred e.tag_refs ++ target_of item
unfolding target_of
Noted-referred l item e e' v (inl (other, same)) =
    ap referred same ∙ rw other (sym (append-nil (referred e.tag_refs)))
Noted-referred l item e e' v (inr (pushes, (split, found, added))) =
    ap referred (
      added
      ∙ insert-snoc l.bytes_per_tag 0 (size_of e) (size_of e + 1) split e.tag_refs (omega arith)
          v.ordered)
    ∙ referred-append e.tag_refs ((size_of e + 1, split) ∷ [])
    ∙ rw (pushes, found) refl

item-referred :
    (f : Fields) (l : Layout) (item : AssemblyItem) (e e' : Emitted)
    → RefsInv l e
    → emit_item f l item e ≡ ok e'
    → referred e'.tag_refs ≡ referred e.tag_refs ++ target_of item
unfolding emit_item Post
item-referred f l item e e' v done =
    let (e₁, marked, emitted) = >>=-eq-ok (mark_first item.type e) _ done in
    let (same, _) = mark_first-Untouched item.type e e₁ marked in
    Noted-referred l item e₁ e' (first-RefsInv item.type l e v e₁ marked)
      (emit_type-Noted f l item e₁ item.type e' emitted)
    ∙ ap (λ refs. referred refs ++ target_of item) same

-- The main loop notes one reference for each item that pushes a tag, in the order of the items.
pub emit_items-targets :
    (f : Fields) (l : Layout) (items : List AssemblyItem) (e e' : Emitted)
    → RefsInv l e
    → emit_items f l items e ≡ ok e'
    → size_of e' < 2 ^ 32
    → referred e'.tag_refs ≡ referred e.tag_refs ++ targets items
unfolding emit_items targets
emit_items-targets f l [] e e' v done small =
    ap (λ (x : Emitted). referred x.tag_refs) (sym (ok-injective done))
    ∙ sym (append-nil (referred e.tag_refs))
emit_items-targets f l (item ∷ items) e e' v done small =
    let (e₁, first, rest) = >>=-eq-ok (emit_item f l item e) _ done in
    let (later, _) = emit_items-Kept f l items e₁ e' rest in
    emit_items-targets f l items e₁ e' (item-RefsInv f l item e e₁ v first (omega arith)) rest small
    ∙ ap (λ ts. ts ++ targets items) (item-referred f l item e e₁ v first)
    ∙ append_assoc (referred e.tag_refs) (target_of item) (targets items)
