-- ===== src/Common/Bits.antt =====
-- `|` of two fields that share no bit is their sum, at every width.
use Prim.Native.Nat.{ℕ, zero, suc, ◌+◌, ◌*◌, ◌/◌, ◌%◌, ◌^◌, ◌≤◌, ◌<◌, max, bit_or, bit_or-bitwise}
use jules_solidity_pppascal.Common.Digits.{digits_lowest}
use mathlib.Core.Path.{◌≡◌, refl, ap, ◌∙◌, sym}
use mathlib.Core.Bool.{Bool, true, ◌&&◌}
use native.Mathlib.Omega.{arith}
use native.Mathlib.Nat.{pow-suc}

zero-bit_or : (b : ℕ) → bit_or 0 b ≡ b
zero-bit_or b = bit_or-bitwise 0 b

bit_or_step : (a b : ℕ) → bit_or a b ≡ bit_or (a / 2) (b / 2) * 2 + max (a % 2) (b % 2)
bit_or_step zero b = omega (arith, zero-bit_or b, zero-bit_or (b / 2))
bit_or_step (suc a) b =
    bit_or-bitwise (suc a) b
    ∙ digits_lowest (λ b. b) max a b
    ∙ ap (λ rest. rest * 2 + max (suc a % 2) (b % 2)) (sym (bit_or-bitwise (suc a / 2) (b / 2)))

double_field : (hi k : ℕ) → hi * 2 ^ suc k ≡ 2 * (hi * 2 ^ k)
double_field hi k = omega (arith, ap (λ (t : ℕ). hi * t) (pow-suc 2 k))

-- `lo | hi << k` where `lo` fits in k bits.
pub bit_or_low_high : (k lo hi : ℕ) → lo < 2 ^ k → bit_or lo (hi * 2 ^ k) ≡ lo + hi * 2 ^ k
bit_or_low_high zero zero hi fits = omega (arith, zero-bit_or (hi * 2 ^ 0))
bit_or_low_high zero (suc lo) hi fits = absurd (omega arith)
bit_or_low_high (suc k) lo hi fits = omega (
  arith,
  bit_or_step lo (hi * 2 ^ suc k),
  double_field hi k,
  pow-suc 2 k,
  ap (λ (t : ℕ). bit_or (lo / 2) t) (half hi k),
  bit_or_low_high k (lo / 2) hi (omega (arith, pow-suc 2 k)),
)
  where
    half : (hi k : ℕ) → hi * 2 ^ suc k / 2 ≡ hi * 2 ^ k
    half hi k = omega (arith, double_field hi k)

bit_or_comm_fuel : (n a b : ℕ) → a + b ≤ n → bit_or a b ≡ bit_or b a
bit_or_comm_fuel zero zero zero h = refl
bit_or_comm_fuel zero zero (suc b) h = absurd (omega arith)
bit_or_comm_fuel zero (suc a) b h = absurd (omega arith)
bit_or_comm_fuel (suc n) zero zero h = refl
bit_or_comm_fuel (suc n) zero (suc b) h = omega (
  arith,
  bit_or_step 0 (suc b),
  bit_or_step (suc b) 0,
  bit_or_comm_fuel n 0 (suc b / 2) (omega arith),
)
bit_or_comm_fuel (suc n) (suc a) b h = omega (
  arith,
  bit_or_step (suc a) b,
  bit_or_step b (suc a),
  bit_or_comm_fuel n (suc a / 2) (b / 2) (omega arith),
)

pub bit_or_comm : (a b : ℕ) → bit_or a b ≡ bit_or b a
bit_or_comm a b = bit_or_comm_fuel (a + b) a b (omega arith)

-- Over a small range, every value is checked by evaluation.
unfoldable pub all_below : ℕ → (ℕ → Bool) → Bool
all_below zero test = true
all_below (suc last) test = all_below last test && test last

pub all_below_sound :
    (bound : ℕ) (test : ℕ → Bool) (n : ℕ) → all_below bound test ≡ true → n < bound → test n ≡ true
unfolding all_below
all_below_sound zero test n passed below = absurd (omega arith)
all_below_sound (suc last) test n passed below = ground (arith, all_below_sound last test n)
