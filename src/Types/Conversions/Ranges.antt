-- ===== src/Types/Conversions/Ranges.antt =====
-- The ranges of integer types, and what an implicit conversion does to them:
-- libsolidity/ast/Types.cpp.
use native.Mathlib.Decide.{dec_lt}
use native.Mathlib.Nat.{pow-suc, pow-le-pow_right}
use jules_solidity_pppascal.Common.{
  true, false, suc, ℕ, Bool, ◌≤◌, ◌≡◌, ◌^◌, arith, ◌-◌, refl, ◌<◌, ◌↔◌, subst, sym,
}
use jules_solidity_pppascal.Common.Masks.{pow-pos}
use jules_solidity_pppascal.Types.{negated, min_value, le_int, max_value, eq_bool, integer_type}
use jules_solidity_pppascal.Types.Conversions.{integer_implicit, is_implicitly_convertible_to}

pub pow_mono : (m n : ℕ) → m ≤ n → 2 ^ m ≤ 2 ^ n
pow_mono m n h = pow-le-pow_right {n = 2} (omega arith) h

pub max_value_mono :
    (bits bits' : ℕ) (s : Bool)
    → bits ≤ bits'
    → le_int (max_value bits s) (max_value bits' s) ≡ true
unfolding max_value le_int
max_value_mono bits bits' true h =
    ground (arith, pow_mono (bits - 1) (bits' - 1) (omega (arith, h)))
max_value_mono bits bits' false h = ground (arith, pow_mono bits bits' h)

pub min_value_mono :
    (bits bits' : ℕ) (s : Bool)
    → bits ≤ bits'
    → le_int (min_value bits' s) (min_value bits s) ≡ true
unfolding min_value le_int negated
min_value_mono bits bits' true h =
    ground (arith, pow_mono (bits - 1) (bits' - 1) (omega (arith, h)))
min_value_mono bits bits' false h = refl

pub eq_bool-eq : (s t : Bool) → eq_bool s t ≡ true → s ≡ t
unfolding eq_bool
eq_bool-eq s t h = ground arith

pub eq_bool_self : (s : Bool) → eq_bool s s ≡ true
unfolding eq_bool
eq_bool_self true = refl
eq_bool_self false = refl

pub integer_step :
    (b₁ b₂ : ℕ) (s₁ s₂ : Bool)
    → integer_implicit b₁ s₁ (integer_type b₂ s₂) ≡ true
    → (b₁ ≤ b₂) × (s₁ ≡ s₂)
unfolding integer_implicit
integer_step b₁ b₂ s₁ s₂ h = (ground arith, eq_bool-eq s₁ s₂ (ground arith))

integer_wider : (a b : ℕ) (s : Bool) → a ≤ b → integer_implicit a s (integer_type b s) ≡ true
unfolding integer_implicit
integer_wider a b s h = ground (arith, eq_bool_self s)

pow-lt : (m n : ℕ) → m < n → 2 ^ m < 2 ^ n
pow-lt m n h = omega (arith, pow_mono (suc m) n h, pow-suc 2 m, pow-pos m)

-- A wider range has more bits.
max_value-le :
    (a b : ℕ) (s : Bool) → 0 < a → 0 < b → le_int (max_value a s) (max_value b s) ≡ true → a ≤ b
unfolding max_value le_int
max_value-le a b true p q h = elim (dec_lt b a) [
  | no above ↦ omega (arith, above)
  | yes below ↦
      absurd
        (ground (arith, pow-lt (b - 1) (a - 1) (omega (arith, below, p, q)), pow-pos (b - 1), h))
]
max_value-le a b false p q h = elim (dec_lt b a) [
  | no above ↦ omega (arith, above)
  | yes below ↦ absurd (ground (arith, pow-lt b a below, pow-pos b, h))
]

-- An integer type converts to another exactly when both are signed or both are not, and all its
-- values are values of the other. Both have bits.
pub integer_implicit-range :
    (a b : ℕ) (s t : Bool)
    → 0 < a
    → 0 < b
    → (is_implicitly_convertible_to (integer_type a s) (integer_type b t) ≡ true) ↔ (
        (s ≡ t)
        × (le_int (min_value b t) (min_value a s) ≡ true)
        × (le_int (max_value a s) (max_value b t) ≡ true))
unfolding is_implicitly_convertible_to integer_implicit
integer_implicit-range a b s t p q = (
  λ h.
      (let (wider, same) = integer_step a b s t h in
        subst
          (λ u.
            (s ≡ u)
            × (le_int (min_value b u) (min_value a s) ≡ true)
            × (le_int (max_value a s) (max_value b u) ≡ true))
          same (refl, min_value_mono a b s wider, max_value_mono a b s wider)),
  λ (same, _, wide).
      subst (λ u. integer_implicit a s (integer_type b u) ≡ true) same
        (integer_wider a b s (
          max_value-le a b s p q
            (subst (λ u. le_int (max_value a s) (max_value b u) ≡ true) (sym same) wide))),
)
