-- ===== src/CommonData/Endian/Laws.antt =====
-- Byte counts and conversions of numbers: the templates of libsolutil/CommonData.h.
use mathlib.Core.List.{foldl}
use mathlib.Core.WellFounded.{Acc}
use native.Mathlib.Numerals.{towards_suc}
use native.Mathlib.Nat.{
  add-zero, add-suc, pow-suc, one-le-pow, mod-eq_of_lt, pow-le-pow_right, add-mul-mod_self_left,
  div-add-mod, mod-lt, le_trans, le_refl,
}
use jules_solidity_pppascal.Common.{
  ℕ, zero, suc, ◌+◌, ◌*◌, ◌/◌, ◌%◌, ◌^◌, ◌≤◌, ◌<◌, max, bit_or, List, [], ◌∷◌, ◌++◌, arith, ◌≡◌,
  refl, ◌↔◌, length, length-append, All, All-append, ap, ◌∙◌,
}
use jules_solidity_pppascal.Common.Order.{lt_wf}
use jules_solidity_pppascal.Common.Bits.{bit_or_low_high, bit_or_comm}
use jules_solidity_pppascal.CommonData.Endian.{
  IsByte, bytes_required_loop, bytes_required, to_big_endian, from_big_endian,
  to_compact_big_endian,
}

counts_up : (i v : ℕ) (w : Acc ◌<◌ v) → i ≤ bytes_required_loop i v w
unfolding bytes_required_loop
counts_up i v (Acc.intro _ smaller) =
    grind (arith, λ (p : v / 256 < v). counts_up (i + 1) (v / 256) (smaller (v / 256) p))

loop_le : (k i v : ℕ) (w : Acc ◌<◌ v) → (bytes_required_loop i v w ≤ i + k) ↔ (v < 256 ^ k)
unfolding bytes_required_loop
loop_le zero i v (Acc.intro _ smaller) =
    grind (arith, λ (p : v / 256 < v). counts_up (i + 1) (v / 256) (smaller (v / 256) p))
loop_le (suc k) i v (Acc.intro _ smaller) = grind (
  arith,
  pow-suc 256 k,
  one-le-pow k 256,
  λ (p : v / 256 < v). loop_le k (i + 1) (v / 256) (smaller (v / 256) p),
)

-- k bytes are enough for a number exactly when it is below 256 ^ k.
pub bytes_required_le : (v k : ℕ) → (bytes_required v ≤ k) ↔ (v < 256 ^ k)
unfolding bytes_required
bytes_required_le v k = grind (arith, loop_le k 0 v (lt_wf.apply v))

pub length-to_big_endian : (n v : ℕ) → length (to_big_endian n v) ≡ n
unfolding to_big_endian
length-to_big_endian zero v = refl
length-to_big_endian (suc n) v = omega (
  arith,
  length-append (to_big_endian n (v / 256)) (v % 256 ∷ []),
  length-to_big_endian n (v / 256),
)

pub to_big_endian-IsByte : (n v : ℕ) → All IsByte (to_big_endian n v)
unfolding to_big_endian
to_big_endian-IsByte zero v = tt
to_big_endian-IsByte (suc n) v =
    All-append IsByte (to_big_endian n (v / 256)) (v % 256 ∷ []) (to_big_endian-IsByte n (v / 256))
      (omega arith)

-- What the bytes stand for, with no bound on the width.
unfoldable pub value : ℕ → List ℕ → ℕ
value acc [] = acc
value acc (b ∷ bs) = value (acc * 256 + b) bs

value-append : (acc : ℕ) (xs ys : List ℕ) → value acc (xs ++ ys) ≡ value (value acc xs) ys
unfolding value
value-append acc [] ys = refl
value-append acc (x ∷ xs) ys = value-append (acc * 256 + x) xs ys

split_mod : (v m : ℕ) → 0 < m → v % (m * 256) ≡ v / 256 % m * 256 + v % 256
split_mod v m h =
    ap (λ (t : ℕ). t % (m * 256)) parts
    ∙ add-mul-mod_self_left (v / 256 % m * 256 + v % 256) (m * 256) (v / 256 / m)
    ∙ mod-eq_of_lt fits
  where
    parts : v ≡ v / 256 % m * 256 + v % 256 + m * 256 * (v / 256 / m)
    parts = omega (arith, div-add-mod (v / 256) m)

    fits : v / 256 % m * 256 + v % 256 < m * 256
    fits = omega (arith, mod-lt (v / 256) h)

-- The n bytes written stand for the number without what does not fit: a buffer that is too short
-- keeps the low bytes.
pub value-to_big_endian : (n v : ℕ) → value 0 (to_big_endian n v) ≡ v % 256 ^ n
unfolding value to_big_endian
value-to_big_endian zero v = omega arith
value-to_big_endian (suc n) v = omega (
  arith,
  value-append 0 (to_big_endian n (v / 256)) (v % 256 ∷ []),
  value-to_big_endian n (v / 256),
  split_mod v (256 ^ n) (one-le-pow n 256 (omega arith)),
  ap (λ (t : ℕ). v % t) (pow-suc 256 n),
)

-- One byte taken in at the low end, in `width` bits.
abbrev pub shift_in : ℕ → ℕ → ℕ → ℕ
shift_in width ret b = bit_or (ret * 256 % 2 ^ width) b

pub shift_in_fits :
    (width acc b : ℕ) → acc * 256 < 2 ^ width → b < 256 → shift_in width acc b ≡ acc * 256 + b
shift_in_fits width acc b h hb =
    rw (mod-eq_of_lt h, bit_or_comm (acc * 256) b)
      (omega (arith, bit_or_low_high 8 b acc (omega arith)))

-- Where there is room for `l + 1` bytes more, one fits, and then there is room for `l`.
pub room_for_byte :
    (width acc b l : ℕ)
    → b < 256
    → (acc + 1) * 256 ^ suc l ≤ 2 ^ width
    → (acc * 256 < 2 ^ width) × ((acc * 256 + b + 1) * 256 ^ l ≤ 2 ^ width)
room_for_byte width acc b l hb fits = (grind (arith, room, one-le-pow l 256), grind (arith, room))
  where
    room : (acc + 1) * 256 * 256 ^ l ≤ 2 ^ width
    room = omega (arith, ap (λ (t : ℕ). (acc + 1) * t) (pow-suc 256 l))

-- As long as the bytes fit the width, nothing is pushed out.
from_loop :
    (width acc : ℕ) (bs : List ℕ)
    → All IsByte bs
    → (acc + 1) * 256 ^ length bs ≤ 2 ^ width
    → foldl (shift_in width) acc bs ≡ value acc bs
unfolding value
from_loop width acc [] h fits = refl
from_loop width acc (b ∷ bs) (hb, h) fits =
    let (small, later) = room_for_byte width acc b (length bs) hb fits in
    rw (shift_in_fits width acc b small hb) (from_loop width (acc * 256 + b) bs h later)

pub from_big_endian-value :
    (width : ℕ) (bs : List ℕ)
    → All IsByte bs
    → 256 ^ length bs ≤ 2 ^ width
    → from_big_endian width bs ≡ value 0 bs
unfolding from_big_endian
from_big_endian-value width bs h fits = from_loop width 0 bs h (omega arith)

-- A number written to n bytes and read into a number at least as wide comes back, cut to what the
-- n bytes hold.
pub from_big_endian-to_big_endian :
    (width n v : ℕ) → 256 ^ n ≤ 2 ^ width → from_big_endian width (to_big_endian n v) ≡ v % 256 ^ n
from_big_endian-to_big_endian width n v fits =
    from_big_endian-value width (to_big_endian n v) (to_big_endian-IsByte n v)
      (rw (length-to_big_endian n v) fits)
    ∙ value-to_big_endian n v

pub length-to_compact_big_endian :
    (v least : ℕ) → length (to_compact_big_endian v least) ≡ max least (bytes_required v)
unfolding to_compact_big_endian
length-to_compact_big_endian v least = length-to_big_endian (max least (bytes_required v)) v

bytes_enough : (v least : ℕ) → v < 256 ^ max least (bytes_required v)
bytes_enough v least = (bytes_required_le v (max least (bytes_required v))).0 (omega arith)

-- A number of at most 32 bytes is read back whole from its shortest form of at least `least` bytes,
-- for any `least` up to 32.
pub from_big_endian-to_compact_big_endian :
    (v least : ℕ)
    → v < 256 ^ 32
    → least ≤ 32
    → from_big_endian 256 (to_compact_big_endian v least) ≡ v
unfolding to_compact_big_endian
from_big_endian-to_compact_big_endian v least hv hl =
    from_big_endian-to_big_endian 256 (max least (bytes_required v)) v
      (le_trans (pow-le-pow_right (omega arith) short) (le_refl _))
    ∙ mod-eq_of_lt (bytes_enough v least)
  where
    short : max least (bytes_required v) ≤ 32
    short = omega (arith, (bytes_required_le v 32).1 hv)

pub value-lt : (acc : ℕ) (bs : List ℕ) → All IsByte bs → value acc bs < (acc + 1) * 256 ^ length bs
unfolding value
value-lt acc [] h = omega arith
value-lt acc (b ∷ bs) (hb, h) = let ih = value-lt (acc * 256 + b) bs h in grind (arith, ih, step)
  where
    step : (acc + 1) * 256 ^ suc (length bs) ≡ (acc + 1) * 256 * 256 ^ length bs
    step = omega (arith, ap (λ (t : ℕ). (acc + 1) * t) (pow-suc 256 (length bs)))

-- Powers of 256: sums of exponents, and shifts by whole bytes.
pub pow-add : (a b : ℕ) → 256 ^ (a + b) ≡ 256 ^ a * 256 ^ b
pow-add a zero = rw add-zero (omega arith)
pow-add a (suc b) =
    rw (add-suc, pow-suc 256 (a + b), pow-add a b)
      (omega (arith, ap (λ (t : ℕ). 256 ^ a * t) (pow-suc 256 b)))

pub pow-bytes : (n : ℕ) → 2 ^ (8 * n) ≡ 256 ^ n
pow-bytes zero = refl
pow-bytes (suc n) =
    ap (λ (t : ℕ). 2 ^ t) (omega arith) ∙ eight (8 * n) ∙ omega (arith, pow-bytes n, pow-suc 256 n)
  where
    eight : (x : ℕ) → 2 ^ (x + 8) ≡ 2 ^ x * 256
    eight x = simp towards_suc (omega arith)
