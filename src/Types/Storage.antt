-- ===== src/Types/Storage.antt =====
-- Where the members of a contract or a struct lie in storage: `StorageOffsets`, memberStorageOffset
-- and the sizes of arrays in libsolidity/ast/Types.cpp. Of the type of a member, what is asked of it
-- is in `StorageItem`; a bigint does not wrap.
pub mod Laying
pub mod Apart
use jules_solidity_pppascal.Common.{
  true, false, none, some, zero, suc, ok, [], ◌∷◌, Bool, Option, ℕ, List, if◌then◌else◌, Result,
  ◌*◌, ◌+◌, ◌>>◌, ◌==◌, ltb, err, internal_compiler_error, ◌&&◌, assert_throw, ◌/◌, not, ◌-◌, leb,
  ◌>>=◌, ◌^◌, max,
}
use jules_solidity_pppascal.Common.Dict.{lookup}
use jules_solidity_pppascal.Common.Text.{eq_text}

pub record StorageItem : Type 0 where
  pub is_stored : Bool
  pub bytes_in_slot : ℕ
  pub slots : ℕ

-- Where the next item begins, from the slot and the byte behind the last one.
unfoldable pub place_of : ℕ → ℕ → StorageItem → ℕ × ℕ
place_of slot byte t = if ltb 32 (byte + t.bytes_in_slot) then (slot + 1, 0) else (slot, byte)

-- Where it ends.
unfoldable pub after_item : ℕ × ℕ → StorageItem → ℕ × ℕ
after_item place t =
    if t.slots == 1 && leb (place.1 + t.bytes_in_slot) 32
    then (place.0, place.1 + t.bytes_in_slot)
    else (place.0 + t.slots, 0)

-- The loop of computeOffsets, and what follows it: the size in slots, and the offsets of the items
-- from index i on.
unfoldable pub offsets_loop : ℕ → ℕ × ℕ → List StorageItem → Result (ℕ × List (ℕ × (ℕ × ℕ)))
unfolding place_of after_item
offsets_loop i at [] = do
  let size : ℕ = if ltb 0 at.1 then at.0 + 1 else at.0
  assert_throw (ltb size (2 ^ 256)) internal_compiler_error
  ok (size, [])
offsets_loop i at (t ∷ types) =
    let later = offsets_loop (i + 1) at types in
    let placed : ℕ × ℕ = place_of at.0 at.1 t in
    let rest = offsets_loop (i + 1) (after_item placed t) types in
    if not t.is_stored then later else (do
      assert_throw (ltb placed.0 (2 ^ 256)) internal_compiler_error
      assert_throw (leb 1 t.slots) internal_compiler_error
      (size, offsets) ← rest
      ok (size, (i, placed) ∷ offsets))

unfoldable pub compute_offsets : List StorageItem → Result (ℕ × List (ℕ × (ℕ × ℕ)))
unfolding offsets_loop
compute_offsets types = offsets_loop 0 (0, 0) types

-- StorageOffsets::offset
unfoldable pub offset_at : ℕ → List (ℕ × (ℕ × ℕ)) → Option (ℕ × ℕ)
unfolding lookup
offset_at index offsets = lookup index offsets

-- MemberList::memberStorageOffset: the members' names in order.
unfoldable pub member_storage_offset :
    List ℕ → ℕ → List (List ℕ) → List (ℕ × (ℕ × ℕ)) → Option (ℕ × ℕ)
unfolding eq_text offset_at
member_storage_offset name index [] offsets = none
member_storage_offset name index (member ∷ members) offsets =
    let later = member_storage_offset name (index + 1) members offsets in
    if eq_text member name then offset_at index offsets else later

-- ArrayType::storageSize, from the length, if it is fixed, and the sizes of the base type.
unfoldable pub array_storage_size : Option ℕ → ℕ → ℕ → Result ℕ
array_storage_size none base_bytes base_slots = ok 1
array_storage_size (some n) base_bytes base_slots = do
  let size : ℕ =
      if base_bytes == 0
      then 1
      else if ltb base_bytes 32
      then (n + (32 / base_bytes - 1)) / (32 / base_bytes)
      else n * base_slots
  assert_throw (ltb size (2 ^ 256)) internal_compiler_error
  ok (max 1 size)

-- ArrayType::storageSizeUpperBound
unfoldable pub array_storage_size_upper_bound : Option ℕ → ℕ → ℕ
array_storage_size_upper_bound none base_bound = 1
array_storage_size_upper_bound (some n) base_bound = n * base_bound

-- ArrayType::unlimitedStaticCalldataSize, for an array of fixed length.
unfoldable pub unlimited_static_calldata_size : Option ℕ → ℕ → Bool → Result ℕ
unlimited_static_calldata_size none stride padded = err internal_compiler_error
unlimited_static_calldata_size (some n) stride padded =
    ok (if padded then (n * stride + 31) / 32 * 32 else n * stride)

-- ArrayType::isDynamicallyEncoded
unfoldable pub is_dynamically_encoded : Option ℕ → Bool → Bool
is_dynamically_encoded none base_is_dynamic = true
is_dynamically_encoded (some n) base_is_dynamic = base_is_dynamic

-- ArrayType::calldataEncodedSize and calldataEncodedTailSize
unfoldable pub calldata_encoded_size : Option ℕ → Bool → ℕ → Bool → Result ℕ
unfolding unlimited_static_calldata_size is_dynamically_encoded
calldata_encoded_size n base_is_dynamic stride padded = do
  assert_throw (not (is_dynamically_encoded n base_is_dynamic)) internal_compiler_error
  size ← unlimited_static_calldata_size n stride padded
  assert_throw (leb size (2 ^ 32 - 1)) internal_compiler_error
  ok size

unfoldable pub calldata_encoded_tail_size : Option ℕ → Bool → ℕ → Result ℕ
unfolding unlimited_static_calldata_size
calldata_encoded_tail_size none base_is_dynamic stride = ok 32
calldata_encoded_tail_size (some n) base_is_dynamic stride = do
  assert_throw base_is_dynamic internal_compiler_error
  size ← unlimited_static_calldata_size (some n) stride false
  assert_throw (leb size (2 ^ 32 - 1)) internal_compiler_error
  ok size
