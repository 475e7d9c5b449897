-- ===== src/Types/Literals.antt =====
-- The integer type of a literal: `RationalNumberType::integerType` in libsolidity/ast/Types.cpp.
use native.Mathlib.Nat.{pow-suc}
use jules_solidity_pppascal.Common.{
  true, false, none, some, zero, suc, ℕ, ◌<◌, ◌^◌, max, Option, Bool, ◌*◌, ◌≡◌, ◌≤◌, arith, ap,
  refl, if◌then◌else◌, ◌↔◌, ◌-◌, leb, ◌∙◌, subst, leb→le, sym,
}
use jules_solidity_pppascal.Common.Int.{is_negative, negsuc, pos, ℤ}
use jules_solidity_pppascal.Common.Masks.{pow-pos}
use jules_solidity_pppascal.CommonData.Endian.{bytes_required}
use jules_solidity_pppascal.CommonData.Endian.Laws.{bytes_required_le}
use jules_solidity_pppascal.Types.{
  is_fractional, rational_type, integer_type_of, min_value, is_well_formed, negated, max_value,
  integer_type, fits_integer_type, le_int, magnitude,
}
use jules_solidity_pppascal.Types.Conversions.{rational_implicit, is_implicitly_convertible_to}
use jules_solidity_pppascal.Types.Conversions.Ranges.{pow_mono}

bytes-bits : (k : ℕ) → 256 ^ k ≡ 2 ^ (8 * k)
bytes-bits zero = refl
bytes-bits (suc k) =
    let e : ℕ = 8 * k in
    let eight : 8 * suc k ≡ suc (suc (suc (suc (suc (suc (suc (suc e))))))) = omega arith in
    omega (
      arith,
      bytes-bits k,
      pow-suc 256 k,
      ap (λ t. 2 ^ t) eight,
      pow-suc 2 e,
      pow-suc 2 (suc e),
      pow-suc 2 (suc (suc e)),
      pow-suc 2 (suc (suc (suc e))),
      pow-suc 2 (suc (suc (suc (suc e)))),
      pow-suc 2 (suc (suc (suc (suc (suc e))))),
      pow-suc 2 (suc (suc (suc (suc (suc (suc e)))))),
      pow-suc 2 (suc (suc (suc (suc (suc (suc (suc e))))))),
    )

-- The fewest bytes, at least one, that hold a number.
fewest : ℕ → ℕ
fewest v = max (bytes_required v) 1

fewest-fits : (v : ℕ) → v < 2 ^ (8 * fewest v)
unfolding fewest
fewest-fits v =
    omega (arith, (bytes_required_le v (fewest v)).0 (omega arith), bytes-bits (fewest v))

fewest-le : (v k : ℕ) → 0 < k → v < 2 ^ (8 * k) → fewest v ≤ k
unfolding fewest
fewest-le v k positive h = omega (arith, (bytes_required_le v k).1 (omega (arith, h, bytes-bits k)))

fewest-positive : (v : ℕ) → 1 ≤ fewest v
unfolding fewest
fewest-positive v = omega arith

fewest_iff : (v k : ℕ) → 0 < k → (v < 2 ^ (8 * k)) ↔ (fewest v ≤ k)
fewest_iff v k positive = (
  fewest-le v k positive,
  λ h. omega (arith, fewest-fits v, pow_mono (8 * fewest v) (8 * k) (omega (arith, h))),
)

fits-pos : (m k : ℕ) → (fits_integer_type (pos m) (8 * k) false ≡ true) ↔ (m < 2 ^ (8 * k))
unfolding fits_integer_type le_int min_value max_value
fits-pos m k = ground (arith, pow-pos (8 * k))

fits-negsuc :
    (m k : ℕ) → 0 < k → (fits_integer_type (negsuc m) (8 * k) true ≡ true) ↔ (m * 2 < 2 ^ (8 * k))
unfolding fits_integer_type le_int min_value max_value negated
fits-negsuc m k positive =
    let width : 8 * k ≡ suc (8 * k - 1) = omega (arith, positive) in
    let double : 2 ^ (8 * k) ≡ 2 ^ (8 * k - 1) * 2 =
      ap (λ t. 2 ^ t) width ∙ pow-suc 2 (8 * k - 1) in
    ground (arith, double, pow-pos (8 * k - 1))

chosen : (b : Bool) (t u : ℕ × Bool) → (if b then some t else none) ≡ some u → (b ≡ true) × (t ≡ u)
chosen true t u h = (refl, cc)
chosen false t u h = cc

-- For a literal whose value, or what stands for it if it is negative, is v.
chosen_facts :
    (v k : ℕ) (negative : Bool) (fits : Bool)
    → v ≤ 2 ^ 256 - 1
    → 0 < k
    → ((fits ≡ true) ↔ (v < 2 ^ (8 * k)))
    → (is_well_formed (integer_type (fewest v * 8) negative) ≡ true)
      × ((fits ≡ true) ↔ (fewest v * 8 ≤ 8 * k))
unfolding is_well_formed
chosen_facts v k negative fits small positive equal =
    let most : fewest v ≤ 32 = fewest-le v 32 (omega arith) (omega (arith, small)) in
    let least : 1 ≤ fewest v = fewest-positive v in
    let both = fewest_iff v k positive in
    (
      ground (arith, most, least),
      (λ x. omega (arith, both.0 (equal.0 x)), λ y. equal.1 (both.1 (omega (arith, y)))),
    )

-- The type chosen for an integer literal: its sign is that of the literal, it is well formed, and of
-- the types of whole bytes with that sign the literal converts to exactly those that have at least as
-- many bits.
pub integer_type_of-smallest :
    (n : ℤ) (c : Option ℕ) (bits k : ℕ) (s : Bool)
    → integer_type_of n ≡ some (bits, s)
    → 0 < k
    → (s ≡ is_negative n)
      × (is_well_formed (integer_type bits s) ≡ true)
      × ((is_implicitly_convertible_to (rational_type n 1 c) (integer_type (8 * k) s) ≡ true)
          ↔ (bits ≤ 8 * k))
unfolding integer_type_of magnitude fewest is_implicitly_convertible_to rational_implicit
    is_fractional
integer_type_of-smallest (pos m) c bits k s h positive =
    let (small, same) = chosen (leb m (2 ^ 256 - 1)) (fewest m * 8, false) (bits, s) h in
    subst
      (λ (u : ℕ × Bool).
        (u.1 ≡ false)
        × (is_well_formed (integer_type u.0 u.1) ≡ true)
        × ((is_implicitly_convertible_to (rational_type (pos m) 1 c) (integer_type (8 * k) u.1)
              ≡ true)
            ↔ (u.0 ≤ 8 * k)))
      same
      (let facts = chosen_facts m k false _ (leb→le _ _ small) positive (fits-pos m k) in
        (refl, facts.0, facts.1))
integer_type_of-smallest (negsuc m) c bits k s h positive =
    let doubled : (suc m - 1) * 2 ≡ m * 2 = omega arith in
    let choose : ℕ → Option (ℕ × Bool) =
      λ v. if leb v (2 ^ 256 - 1) then some (fewest v * 8, true) else none in
    let h' : choose (m * 2) ≡ some (bits, s) = ap choose (sym doubled) ∙ h in
    let (small, same) =
      chosen (leb (m * 2) (2 ^ 256 - 1)) (fewest (m * 2) * 8, true) (bits, s) h' in
    subst
      (λ (u : ℕ × Bool).
        (u.1 ≡ true)
        × (is_well_formed (integer_type u.0 u.1) ≡ true)
        × ((is_implicitly_convertible_to (rational_type (negsuc m) 1 c) (integer_type (8 * k) u.1)
              ≡ true)
            ↔ (u.0 ≤ 8 * k)))
      same
      (let facts =
          chosen_facts (m * 2) k true _ (leb→le _ _ small) positive (fits-negsuc m k positive) in
        (refl, facts.0, facts.1))
