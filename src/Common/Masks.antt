-- ===== src/Common/Masks.antt =====
-- `&` with a mask of low bits is the remainder, at every width.
use Prim.Native.Nat.{ℕ, zero, suc, ◌+◌, ◌-◌, ◌*◌, ◌/◌, ◌%◌, ◌^◌, ◌<◌, min, bit_and, bit_and-bitwise}
use mathlib.Core.Path.{◌≡◌, ap, ◌∙◌}
use native.Mathlib.Nat.{pow-suc, mod-lt, mod-eq_of_lt, add-mul-mod_self_right, mod-add-div'}
use native.Mathlib.Omega.{arith}
use jules_solidity_pppascal.Common.Digits.{digits_lowest}

nothing_in_common : (b : ℕ) → bit_and 0 b ≡ 0
nothing_in_common b = bit_and-bitwise 0 b

lowest_bit : (a b : ℕ) → bit_and a b ≡ min (a % 2) (b % 2) + 2 * bit_and (a / 2) (b / 2)
lowest_bit zero b = omega (arith, nothing_in_common b, nothing_in_common (b / 2))
lowest_bit (suc a) b = omega (
  arith,
  digits_lowest (λ b. 0) min a b,
  bit_and-bitwise (suc a) b,
  bit_and-bitwise (suc a / 2) (b / 2),
)

pub pow-pos : (k : ℕ) → 0 < 2 ^ k
pow-pos zero = omega arith
pow-pos (suc k) = omega (arith, pow-suc 2 k, pow-pos k)

mod_double : (x t : ℕ) → 0 < t → x % (2 * t) ≡ 2 * (x / 2 % t) + x % 2
mod_double x t some_t =
    let r : ℕ = 2 * (x / 2 % t) + x % 2 in
    let parts : x ≡ r + x / 2 / t * (2 * t) = omega (arith, mod-add-div' (x / 2) t) in
    ap (λ n. n % (2 * t)) parts
    ∙ add-mul-mod_self_right r (x / 2 / t) (2 * t)
    ∙ mod-eq_of_lt (omega (arith, mod-lt (x / 2) some_t))

pub bit_and-mask : (k x : ℕ) → bit_and (2 ^ k - 1) x ≡ x % 2 ^ k
bit_and-mask zero x = omega (arith, nothing_in_common x)
bit_and-mask (suc k) x = omega (
  arith,
  lowest_bit (2 ^ suc k - 1) x,
  pow-suc 2 k,
  pow-pos k,
  ap (λ t. bit_and t (x / 2)) half,
  bit_and-mask k (x / 2),
  mod_double x (2 ^ k) (pow-pos k),
  ap (λ t. x % t) double,
)
  where
    half : (2 ^ suc k - 1) / 2 ≡ 2 ^ k - 1
    half = omega (arith, pow-suc 2 k, pow-pos k)

    double : 2 ^ suc k ≡ 2 * 2 ^ k
    double = omega (arith, pow-suc 2 k)
