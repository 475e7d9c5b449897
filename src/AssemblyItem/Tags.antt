-- ===== src/AssemblyItem/Tags.antt =====
-- Tags of sub-assemblies, packed into the data of a tag: libevmasm/AssemblyItem.cpp.
use native.Mathlib.Decide.{dec_lt}
use native.Mathlib.Nat.{mod-eq_of_lt}
use jules_solidity_pppascal.Common.{
  ◌<◌, ◌≡◌, ◌/◌, refl, ◌%◌, ◌+◌, ◌-◌, ◌*◌, ◌^◌, arith, ◌⊎◌, ap, ◌≤◌, inl, lt→ltb, inr, bit_or, ℕ,
}
use jules_solidity_pppascal.AssemblyItem.{
  AssemblyItemType, push_tag, AssemblyItem, size_mod, size_max, word_mod, is_some_tag,
  split_foreign_push_tag, combine, set_push_tag_sub_id_and_tag, to_sub_assembly_tag, eq_type,
  operation, true, ok, false, some, err, exception,
}
use jules_solidity_pppascal.Common.Bits.{bit_or_low_high}

combine-foreign :
    (sub_id t : ℕ) → sub_id < size_max → t < size_mod → combine sub_id t ≡ t + (sub_id + 1) * 2 ^ 64
unfolding combine
combine-foreign sub_id t hs ht = ground (
  arith,
  ap (λ (n : ℕ). bit_or t n)
      (mod-eq_of_lt {n = (sub_id + 1) * 2 ^ 64} {m = word_mod} (omega arith)),
  bit_or_low_high 64 t (sub_id + 1) ht,
)

combine-local : (t : ℕ) → combine size_max t ≡ t
unfolding combine
combine-local t = refl

sub_of : ℕ → ℕ
sub_of combined = (combined / size_mod + word_mod - 1) % word_mod % size_mod

split-combine :
    (sub_id t : ℕ)
    → sub_id < size_mod
    → t < size_mod
    → (sub_of (combine sub_id t) ≡ sub_id) × (combine sub_id t % size_mod ≡ t)
unfolding sub_of
split-combine sub_id t hs ht = elim (dec_lt sub_id size_max) [
  | yes foreign ↦ rw (combine-foreign sub_id t foreign ht) (omega arith, omega arith)
  | no local ↦
      let e : sub_id ≡ size_max = omega arith in rw (e, combine-local t) (omega arith, omega arith)
]

tag-ne-operation : (t : AssemblyItemType) → is_some_tag t ≡ true → eq_type t operation ≡ false
tag-ne-operation t h = ground arith

split-packed :
    (item : AssemblyItem) (sub_id t : ℕ)
    → is_some_tag item.type ≡ true
    → item.payload ≡ some (combine sub_id t)
    → sub_id < size_mod
    → t < size_mod
    → split_foreign_push_tag item ≡ ok (sub_id, t)
unfolding split_foreign_push_tag
split-packed item sub_id t h e hs ht =
    let plain = tag-ne-operation item.type h in
    let (sub, low) = split-combine sub_id t hs ht in
    rw (h, plain, e) (unfold sub_of in rw (sub, low))

-- Whatever numbers of 64 bits are stored for the sub-assembly and the tag in an item that is a tag
-- or a push of one: the item keeps its type, and both are read back.
pub split-set :
    (item : AssemblyItem) (sub_id t : ℕ)
    → is_some_tag item.type ≡ true
    → sub_id < size_mod
    → t < size_mod
    → (stored : AssemblyItem) × (set_push_tag_sub_id_and_tag item sub_id t ≡ ok stored)
      × (stored.type ≡ item.type)
      × (split_foreign_push_tag stored ≡ ok (sub_id, t))
unfolding set_push_tag_sub_id_and_tag
split-set item sub_id t h hs ht =
    let plain = tag-ne-operation item.type h in
    (
      record item { payload = some (combine sub_id t) },
      rw (h, plain),
      refl,
      split-packed (record item { payload = some (combine sub_id t) }) sub_id t h refl hs ht,
    )

-- An item that is a tag or a push of one and holds the number of a tag alone, with no sub-assembly
-- above its 64 bits, becomes a push of the tag of the given sub-assembly, and both numbers are
-- read back; an item that holds more is refused with an exception.
pub split-to_sub_assembly_tag :
    (item : AssemblyItem) (sub_id t : ℕ)
    → is_some_tag item.type ≡ true
    → item.payload ≡ some t
    → sub_id < size_mod
    → ((t < size_mod)
        × ((moved : AssemblyItem) × (to_sub_assembly_tag item sub_id ≡ ok moved)
            × (moved.type ≡ push_tag)
            × (split_foreign_push_tag moved ≡ ok (sub_id, t))))
      ⊎ ((size_mod ≤ t) × (to_sub_assembly_tag item sub_id ≡ err exception))
split-to_sub_assembly_tag item sub_id t h e hs = elim (dec_lt t size_mod) [
  | yes small ↦ inl (
    small,
    (
      record item { type = push_tag; payload = some (combine sub_id t) },
      unfold to_sub_assembly_tag set_push_tag_sub_id_and_tag in
          rw (tag-ne-operation item.type h, e, lt→ltb t size_mod small, h, mod-eq_of_lt small) refl,
      refl,
      split-packed (record item { type = push_tag; payload = some (combine sub_id t) }) sub_id t
          refl refl hs small,
    ),
  )
  | no large ↦
      inr (omega arith, unfold to_sub_assembly_tag in ground (arith, tag-ne-operation item.type h))
]
