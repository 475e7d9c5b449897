-- ===== src/AssemblyItem/Order.antt =====
-- operator< and operator== of items: libevmasm/AssemblyItem.h.
use jules_solidity_pppascal.Common.{◌≡◌, if◌then◌else◌, ◌⊎◌, ◌&&◌, arith, none, ◌==◌, ℕ}
use jules_solidity_pppascal.AssemblyItem.{
  AssemblyItem, operation, type_number, eq_type, eq_item, less_item, true, ok, some, ltb, false,
}

-- Every item that is no operation has data.
abbrev pub HasData : AssemblyItem → Type 0
HasData item = (eq_type item.type operation ≡ true) ⊎ ((v : ℕ) × (item.payload ≡ some v))

-- The number by which two items of one type are compared.
unfoldable pub content : AssemblyItem → ℕ
content item =
    if eq_type item.type operation
    then item.instruction
    else elim item.payload [ some v ↦ v | none ↦ 0 ]

-- The comparison spelt out: by type, then by content.
less-content :
    (a b : AssemblyItem)
    → HasData a
    → HasData b
    → less_item a b
      ≡ ok (
          if eq_type a.type b.type
          then ltb (content a) (content b)
          else ltb (type_number a.type) (type_number b.type))
unfolding less_item content
less-content a b ha hb = ground arith

eq-content :
    (a b : AssemblyItem)
    → HasData a
    → HasData b
    → eq_item a b ≡ ok (eq_type a.type b.type && content a == content b)
unfolding eq_item content
eq-content a b ha hb = ground arith

-- Exactly one of "less", "equal" and "greater" holds of the two, and the other two are denied.
abbrev pub OneOf : AssemblyItem → AssemblyItem → Type 0
OneOf a b =
    ((less_item a b ≡ ok true) × (eq_item a b ≡ ok false) × (less_item b a ≡ ok false))
    ⊎ (((less_item a b ≡ ok false) × (eq_item a b ≡ ok true) × (less_item b a ≡ ok false))
        ⊎ ((less_item a b ≡ ok false) × (eq_item a b ≡ ok false) × (less_item b a ≡ ok true)))

-- Of two items that have data, unless they are operations, exactly one of a < b, a == b and b < a
-- holds; the other two comparisons return false, and none of them throws.
pub less-trichotomy : (a b : AssemblyItem) → HasData a → HasData b → OneOf a b
less-trichotomy a b ha hb =
    rw (less-content a b ha hb, less-content b a hb ha, eq-content a b ha hb) (ground arith)

-- The order of items that have data, unless they are operations, is transitive.
pub less_trans :
    (a b c : AssemblyItem)
    → HasData a
    → HasData b
    → HasData c
    → less_item a b ≡ ok true
    → less_item b c ≡ ok true
    → less_item a c ≡ ok true
less_trans a b c ha hb hc h k =
    rw (less-content a c ha hc)
      (ground (arith, rw (less-content a b ha hb) at h, rw (less-content b c hb hc) at k))
