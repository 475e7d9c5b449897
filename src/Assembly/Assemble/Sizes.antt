-- ===== src/Assembly/Assemble/Sizes.antt =====
-- The loop of `Assembly::bytesRequired`, in libevmasm/Assembly.cpp.
use native.Mathlib.Decide.{dec_lt}
use jules_solidity_pppascal.Common.{
  lt→leb, le→leb, ◌∙◌, All, ◌%◌, ◌<◌, ◌≡◌, arith, ◌^◌, ◌≤◌, ◌+◌, [], ◌∷◌, zero, refl, suc,
}
use jules_solidity_pppascal.Assembly.{Fields, ℕ, List, Result, ok}
use jules_solidity_pppascal.Assembly.Assemble.{
  data_size, code_bytes_required, items_size, bytes_required_loop,
}
use jules_solidity_pppascal.AssemblyItem.{AssemblyItem}
use jules_solidity_pppascal.AssemblyItem.Sizes.{item_bytes_required-ok, Sized}
use jules_solidity_pppascal.CommonData.Endian.{bytes_required}
use jules_solidity_pppascal.CommonData.Endian.Laws.{bytes_required_le}

items_size-ok :
    (tag_size : ℕ) (items : List AssemblyItem)
    → All Sized items
    → (n : ℕ) × (items_size tag_size items ≡ ok n)
unfolding items_size
items_size-ok tag_size [] h = (0, refl)
items_size-ok tag_size (item ∷ items) (h, hs) =
    let (n, first) = item_bytes_required-ok tag_size item h in
    let (rest, later) = items_size-ok tag_size items hs in (n + rest, rw (first, later))

-- The size that is returned is that of the code with tags of `tag_size` bytes, and these are enough
-- for every position in it.
pub record Measured (f : Fields) (least : ℕ) (r : Result ℕ) : Type 0 where
  pub tag_size : ℕ
  pub of_items : ℕ
  pub from_least : least ≤ tag_size
  pub items_measured : items_size tag_size f.items ≡ ok of_items
  pub enough : bytes_required ((1 + data_size f.data_blocks + of_items) % 2 ^ 64) ≤ tag_size
  pub answered : r ≡ ok ((1 + data_size f.data_blocks + of_items) % 2 ^ 64 % 2 ^ 32)

bytes_required-size : (v : ℕ) → bytes_required (v % 2 ^ 64) ≤ 8
bytes_required-size v = (bytes_required_le (v % 2 ^ 64) 8).1 (omega arith)

-- One round of the loop ends it, or goes on with larger tags.
round_ends :
    (fuel tag_size n : ℕ) (f : Fields)
    → items_size tag_size f.items ≡ ok n
    → bytes_required ((1 + data_size f.data_blocks + n) % 2 ^ 64) ≤ tag_size
    → bytes_required_loop (suc fuel) tag_size f
      ≡ ok ((1 + data_size f.data_blocks + n) % 2 ^ 64 % 2 ^ 32)
unfolding bytes_required_loop
round_ends fuel tag_size n f measured fits = rw (measured, le→leb _ tag_size fits) refl

round_goes_on :
    (fuel tag_size n : ℕ) (f : Fields)
    → items_size tag_size f.items ≡ ok n
    → tag_size < bytes_required ((1 + data_size f.data_blocks + n) % 2 ^ 64)
    → bytes_required_loop (suc fuel) tag_size f ≡ bytes_required_loop fuel (tag_size + 1) f
unfolding bytes_required_loop
round_goes_on fuel tag_size n f measured short = rw (measured, lt→leb _ tag_size short) refl

loop-Measured :
    (fuel tag_size : ℕ) (f : Fields)
    → All Sized f.items
    → 8 < tag_size + fuel
    → 0 < fuel
    → Measured f tag_size (bytes_required_loop fuel tag_size f)
loop-Measured zero tag_size f h enough positive = absurd (omega arith)
loop-Measured (suc fuel) tag_size f h enough positive =
    let (n, measured) = items_size-ok tag_size f.items h in
    let ret = (1 + data_size f.data_blocks + n) % 2 ^ 64 in
    elim (dec_lt tag_size (bytes_required ret)) [
      | yes short ↦
          let m =
            loop-Measured fuel (tag_size + 1) f h (omega arith)
              (omega (arith, bytes_required-size (1 + data_size f.data_blocks + n))) in
          record {
            tag_size = m.tag_size;
            of_items = m.of_items;
            from_least = omega (arith, m.from_least);
            items_measured = m.items_measured;
            enough = m.enough;
            answered = round_goes_on fuel tag_size n f measured short ∙ m.answered;
          }
      | no fits ↦ record {
        tag_size = tag_size;
        of_items = n;
        from_least = omega arith;
        items_measured = measured;
        enough = omega arith;
        answered = round_ends fuel tag_size n f measured (omega arith);
      }
    ]

-- If the size of every item is known, the loop over the sizes of tags ends within its fuel. It
-- returns, cut to 32 bits, a size that is computed with tags of some number of bytes, at least the
-- given one, and a number of that size fits these bytes.
pub code_bytes_required-Measured :
    (tag_size : ℕ) (f : Fields)
    → All Sized f.items
    → Measured f tag_size (code_bytes_required tag_size f)
unfolding code_bytes_required
code_bytes_required-Measured tag_size f h = loop-Measured 9 tag_size f h (omega arith) (omega arith)
