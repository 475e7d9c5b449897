-- ===== src/AssemblyItem/Sizes.antt =====
-- `bytesRequired` of an item: libevmasm/AssemblyItem.cpp.
use jules_solidity_pppascal.Common.{◌≡◌, refl, inl, inr, ◌+◌, max, ℕ}
use jules_solidity_pppascal.AssemblyItem.{
  bytes_by_type, push_library_address, push_program_size, undefined_item, assign_immutable, eq_type,
  operation, push, push_deploy_time_address, AssemblyItemType, push_immutable, push_data,
  push_sub_size, item_bytes_required, push_string, data_of, AssemblyItem, push_tag, push_sub, tag,
  ok, false,
}
use jules_solidity_pppascal.AssemblyItem.Order.{HasData}
use jules_solidity_pppascal.CommonData.Endian.{bytes_required}

-- An item whose size is known.
abbrev pub Sized : AssemblyItem → Type 0
Sized item = (eq_type item.type undefined_item ≡ false) × HasData item

bytes_by_type-ok :
    (t : AssemblyItemType) (tag_size : ℕ) (item : AssemblyItem)
    → item.type ≡ t
    → Sized item
    → (n : ℕ) × (bytes_by_type t tag_size item ≡ ok n)
unfolding bytes_by_type data_of
bytes_by_type-ok operation tag_size item e h = (_, refl)
bytes_by_type-ok tag tag_size item e h = (_, refl)
bytes_by_type-ok push_string tag_size item e h = (_, refl)
bytes_by_type-ok push tag_size item e (known, inl plain) = cc (rw e at plain)
bytes_by_type-ok push tag_size item e (known, inr (v, payload)) =
    (1 + max 1 (bytes_required v), rw (e, payload))
bytes_by_type-ok push_sub_size tag_size item e h = (_, refl)
bytes_by_type-ok push_program_size tag_size item e h = (_, refl)
bytes_by_type-ok push_tag tag_size item e h = (_, refl)
bytes_by_type-ok push_data tag_size item e h = (_, refl)
bytes_by_type-ok push_sub tag_size item e h = (_, refl)
bytes_by_type-ok push_library_address tag_size item e h = (_, refl)
bytes_by_type-ok push_deploy_time_address tag_size item e h = (_, refl)
bytes_by_type-ok push_immutable tag_size item e h = (_, refl)
bytes_by_type-ok assign_immutable tag_size item e h = (_, refl)
bytes_by_type-ok undefined_item tag_size item e (known, has) = cc (rw e at known)

pub item_bytes_required-ok :
    (tag_size : ℕ) (item : AssemblyItem)
    → Sized item
    → (n : ℕ) × (item_bytes_required item tag_size ≡ ok n)
unfolding item_bytes_required
item_bytes_required-ok tag_size item h = bytes_by_type-ok item.type tag_size item refl h
