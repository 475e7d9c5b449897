-- ===== src/Types/Conversions/Order.antt =====
-- Implicit conversions put one after the other: libsolidity/ast/Types.cpp.
use jules_solidity_pppascal.Common.{
  true, false, ℕ, ◌≡◌, arith, Bool, refl, ◌⊎◌, ◌≤◌, inr, inl, subst, sym, ◌||◌,
}
use jules_solidity_pppascal.Common.Int.{ℤ}
use jules_solidity_pppascal.Types.{
  ElementaryType, min_value, le_int, address_type, eq_bool, integer_type, fixed_point_type,
  enum_type, eq_elementary, max_integer_value, max_value, contract_type, min_integer_value,
  vite_token_id_type, bool_type, rational_type, fixed_bytes_type,
}
use jules_solidity_pppascal.Types.Conversions.{
  is_explicitly_convertible_to, integer_implicit, is_implicitly_convertible_to, fixed_implicit,
  explicit_of, fixed_explicit, contract_explicit,
}
use jules_solidity_pppascal.Types.Conversions.Ranges.{
  max_value_mono, eq_bool_self, integer_step, min_value_mono,
}

bytes_trans :
    (a : ℕ) (b c : ElementaryType)
    → is_implicitly_convertible_to (fixed_bytes_type a) b ≡ true
    → is_implicitly_convertible_to b c ≡ true
    → is_implicitly_convertible_to (fixed_bytes_type a) c ≡ true
unfolding is_implicitly_convertible_to
bytes_trans a b c h k = ground arith

le_int_trans : (a b c : ℤ) → le_int a b ≡ true → le_int b c ≡ true → le_int a c ≡ true
unfolding le_int
le_int_trans a b c h k = ground arith

-- A number type converts to a number type.
fixed_target :
    (bits digits : ℕ) (s : Bool) (b : ElementaryType)
    → fixed_implicit bits digits s b ≡ true
    → (bits' : ℕ) × (digits' : ℕ) × (s' : Bool) × (b ≡ fixed_point_type bits' digits' s')
unfolding fixed_implicit
fixed_target bits digits s (fixed_point_type bits' digits' s') h = (bits', digits', s', refl)
fixed_target bits digits s (address_type p) h = cc
fixed_target bits digits s vite_token_id_type h = cc
fixed_target bits digits s (rational_type n d r) h = cc
fixed_target bits digits s (fixed_bytes_type y) h = cc
fixed_target bits digits s bool_type h = cc
fixed_target bits digits s (contract_type e p u l) h = cc
fixed_target bits digits s (enum_type e m) h = cc
fixed_target bits digits s (integer_type x t) h = cc

integer_target :
    (bits : ℕ) (s : Bool) (b : ElementaryType)
    → integer_implicit bits s b ≡ true
    → ((bits' : ℕ) × (s' : Bool) × (b ≡ integer_type bits' s'))
      ⊎ ((bits' : ℕ) × (digits' : ℕ) × (s' : Bool) × (b ≡ fixed_point_type bits' digits' s'))
unfolding integer_implicit
integer_target bits s (fixed_point_type bits' digits' s') h = inr (bits', digits', s', refl)
integer_target bits s (integer_type bits' s') h = inl (bits', s', refl)
integer_target bits s (address_type p) h = cc
integer_target bits s vite_token_id_type h = cc
integer_target bits s (rational_type n d r) h = cc
integer_target bits s (fixed_bytes_type y) h = cc
integer_target bits s bool_type h = cc
integer_target bits s (contract_type e p u l) h = cc
integer_target bits s (enum_type e m) h = cc

fixed_step :
    (b₁ d₁ b₂ d₂ b₃ d₃ : ℕ) (s₁ s₂ s₃ : Bool)
    → fixed_implicit b₁ d₁ s₁ (fixed_point_type b₂ d₂ s₂) ≡ true
    → fixed_implicit b₂ d₂ s₂ (fixed_point_type b₃ d₃ s₃) ≡ true
    → fixed_implicit b₁ d₁ s₁ (fixed_point_type b₃ d₃ s₃) ≡ true
unfolding fixed_implicit
fixed_step b₁ d₁ b₂ d₂ b₃ d₃ s₁ s₂ s₃ h k = ground (
  arith,
  le_int_trans (max_integer_value b₁ d₁ s₁) (max_integer_value b₂ d₂ s₂)
      (max_integer_value b₃ d₃ s₃),
  le_int_trans (min_integer_value b₃ d₃ s₃) (min_integer_value b₂ d₂ s₂)
      (min_integer_value b₁ d₁ s₁),
)

integer_fixed_step :
    (b₁ b₂ d₂ b₃ d₃ : ℕ) (s₁ s₂ s₃ : Bool)
    → integer_implicit b₁ s₁ (fixed_point_type b₂ d₂ s₂) ≡ true
    → fixed_implicit b₂ d₂ s₂ (fixed_point_type b₃ d₃ s₃) ≡ true
    → integer_implicit b₁ s₁ (fixed_point_type b₃ d₃ s₃) ≡ true
unfolding fixed_implicit integer_implicit
integer_fixed_step b₁ b₂ d₂ b₃ d₃ s₁ s₂ s₃ h k = ground (
  arith,
  le_int_trans (max_value b₁ s₁) (max_integer_value b₂ d₂ s₂) (max_integer_value b₃ d₃ s₃),
  le_int_trans (min_integer_value b₃ d₃ s₃) (min_integer_value b₂ d₂ s₂) (min_value b₁ s₁),
)

widen_step :
    (b₁ b₂ b₃ d₃ : ℕ) (s s₃ : Bool)
    → b₁ ≤ b₂
    → integer_implicit b₂ s (fixed_point_type b₃ d₃ s₃) ≡ true
    → integer_implicit b₁ s (fixed_point_type b₃ d₃ s₃) ≡ true
unfolding integer_implicit
widen_step b₁ b₂ b₃ d₃ s s₃ wider h = ground (
  arith,
  max_value_mono b₁ b₂ s wider,
  min_value_mono b₁ b₂ s wider,
  le_int_trans (max_value b₁ s) (max_value b₂ s) (max_integer_value b₃ d₃ s₃),
  le_int_trans (min_integer_value b₃ d₃ s₃) (min_value b₂ s) (min_value b₁ s),
)

integer_chain :
    (b₁ b₂ b₃ : ℕ) (s₁ s₂ s₃ : Bool)
    → integer_implicit b₁ s₁ (integer_type b₂ s₂) ≡ true
    → integer_implicit b₂ s₂ (integer_type b₃ s₃) ≡ true
    → integer_implicit b₁ s₁ (integer_type b₃ s₃) ≡ true
unfolding integer_implicit eq_bool
integer_chain b₁ b₂ b₃ s₁ s₂ s₃ h k = ground arith

fixed_trans :
    (bits digits : ℕ) (s : Bool) (b c : ElementaryType)
    → fixed_implicit bits digits s b ≡ true
    → is_implicitly_convertible_to b c ≡ true
    → fixed_implicit bits digits s c ≡ true
unfolding is_implicitly_convertible_to
fixed_trans bits digits s b c h k =
    let (b₂, d₂, s₂, e) = fixed_target bits digits s b h in
    let h' : fixed_implicit bits digits s (fixed_point_type b₂ d₂ s₂) ≡ true =
      subst (λ t. fixed_implicit bits digits s t ≡ true) e h in
    let k' : fixed_implicit b₂ d₂ s₂ c ≡ true =
      subst (λ t. is_implicitly_convertible_to t c ≡ true) e k in
    let (b₃, d₃, s₃, e') = fixed_target b₂ d₂ s₂ c k' in
    subst (λ t. fixed_implicit bits digits s t ≡ true) (sym e')
      (fixed_step bits digits b₂ d₂ b₃ d₃ s s₂ s₃ h'
        (subst (λ t. fixed_implicit b₂ d₂ s₂ t ≡ true) e' k'))

integer_trans :
    (bits : ℕ) (s : Bool) (b c : ElementaryType)
    → integer_implicit bits s b ≡ true
    → is_implicitly_convertible_to b c ≡ true
    → integer_implicit bits s c ≡ true
unfolding is_implicitly_convertible_to
integer_trans bits s b c h k = elim (integer_target bits s b h) [
  | inr (b₂, d₂, s₂, e) ↦
      (let h' : integer_implicit bits s (fixed_point_type b₂ d₂ s₂) ≡ true =
          subst (λ t. integer_implicit bits s t ≡ true) e h in
        let k' : fixed_implicit b₂ d₂ s₂ c ≡ true =
          subst (λ t. is_implicitly_convertible_to t c ≡ true) e k in
        let (b₃, d₃, s₃, e') = fixed_target b₂ d₂ s₂ c k' in
        subst (λ t. integer_implicit bits s t ≡ true) (sym e')
          (integer_fixed_step bits b₂ d₂ b₃ d₃ s s₂ s₃ h'
            (subst (λ t. fixed_implicit b₂ d₂ s₂ t ≡ true) e' k')))
  | inl (b₂, s₂, e) ↦
      (let h' : integer_implicit bits s (integer_type b₂ s₂) ≡ true =
          subst (λ t. integer_implicit bits s t ≡ true) e h in
        let k' : integer_implicit b₂ s₂ c ≡ true =
          subst (λ t. is_implicitly_convertible_to t c ≡ true) e k in
        widened bits b₂ s s₂ c h' k' (integer_target b₂ s₂ c k'))
]
  where
    widened :
        (b₁ b₂ : ℕ) (s₁ s₂ : Bool) (c : ElementaryType)
        → integer_implicit b₁ s₁ (integer_type b₂ s₂) ≡ true
        → integer_implicit b₂ s₂ c ≡ true
        → ((b₃ : ℕ) × (s₃ : Bool) × (c ≡ integer_type b₃ s₃))
          ⊎ ((b₃ : ℕ) × (d₃ : ℕ) × (s₃ : Bool) × (c ≡ fixed_point_type b₃ d₃ s₃))
        → integer_implicit b₁ s₁ c ≡ true
    widened b₁ b₂ s₁ s₂ c h k (inl (b₃, s₃, e)) =
        subst (λ t. integer_implicit b₁ s₁ t ≡ true) (sym e)
          (integer_chain b₁ b₂ b₃ s₁ s₂ s₃ h (subst (λ t. integer_implicit b₂ s₂ t ≡ true) e k))
    widened b₁ b₂ s₁ s₂ c h k (inr (b₃, d₃, s₃, e)) =
        let (wider, same) = integer_step b₁ b₂ s₁ s₂ h in
        let k' = subst (λ t. integer_implicit b₂ s₂ t ≡ true) e k in
        subst (λ t. integer_implicit b₁ s₁ t ≡ true) (sym e)
          (widen_step b₁ b₂ b₃ d₃ s₁ s₃ wider
            (subst (λ t. integer_implicit b₂ t (fixed_point_type b₃ d₃ s₃) ≡ true) (sym same) k'))

integer_refl : (bits : ℕ) (s : Bool) → integer_implicit bits s (integer_type bits s) ≡ true
unfolding integer_implicit
integer_refl bits s = ground (arith, eq_bool_self s)

le_int_refl : (z : ℤ) → le_int z z ≡ true
unfolding le_int
le_int_refl z = ground arith

fixed_refl :
    (bits digits : ℕ) (s : Bool)
    → fixed_implicit bits digits s (fixed_point_type bits digits s) ≡ true
unfolding fixed_implicit
fixed_refl bits digits s = ground (
  arith,
  le_int_refl (max_integer_value bits digits s),
  le_int_refl (min_integer_value bits digits s),
)

-- Neither a literal nor a contract.
unfoldable pub is_plain : ElementaryType → Bool
is_plain (rational_type _ _ _) = false
is_plain (contract_type _ _ _ _) = false
is_plain _ = true

pub implicit_self :
    (a : ElementaryType) → is_plain a ≡ true → is_implicitly_convertible_to a a ≡ true
unfolding is_plain is_implicitly_convertible_to eq_elementary
implicit_self (address_type p) plain = ground arith
implicit_self vite_token_id_type plain = refl
implicit_self (integer_type bits s) plain = integer_refl bits s
implicit_self (rational_type n d r) plain = cc
implicit_self (fixed_point_type bits digits s) plain = fixed_refl bits digits s
implicit_self (fixed_bytes_type y) plain = ground arith
implicit_self bool_type plain = refl
implicit_self (contract_type e p u l) plain = cc
implicit_self (enum_type e m) plain = ground arith

-- Implicit conversions from a type that is neither that of a literal nor a contract: what converts in
-- two steps converts in one.
pub implicit_trans :
    (a b c : ElementaryType)
    → is_plain a ≡ true
    → is_implicitly_convertible_to a b ≡ true
    → is_implicitly_convertible_to b c ≡ true
    → is_implicitly_convertible_to a c ≡ true
unfolding is_plain is_implicitly_convertible_to eq_elementary
implicit_trans (address_type p) b c plain h k = ground arith
implicit_trans vite_token_id_type b c plain h k = ground arith
implicit_trans (integer_type bits s) b c plain h k = integer_trans bits s b c h k
implicit_trans (rational_type n d r) b c plain h k = cc
implicit_trans (fixed_point_type bits digits s) b c plain h k = fixed_trans bits digits s b c h k
implicit_trans (fixed_bytes_type y) b c plain h k = bytes_trans y b c h k
implicit_trans bool_type b c plain h k = ground arith
implicit_trans (contract_type e p u l) b c plain h k = cc
implicit_trans (enum_type e m) b c plain h k = ground arith

or_right : (x y : Bool) → y ≡ true → (x || y) ≡ true
or_right true y h = refl
or_right false y h = h

-- What converts implicitly also converts explicitly.
pub implicit-explicit :
    (a b : ElementaryType)
    → is_implicitly_convertible_to a b ≡ true
    → is_explicitly_convertible_to a b ≡ true
unfolding is_explicitly_convertible_to explicit_of is_implicitly_convertible_to fixed_explicit
implicit-explicit (address_type p) b h = ground arith
implicit-explicit vite_token_id_type b h = h
implicit-explicit (integer_type bits s) b h = ground arith
implicit-explicit (rational_type n d r) b h = ground arith
implicit-explicit (fixed_point_type bits digits s) b h =
    (let (b', d', s', e) = fixed_target bits digits s b h in
      subst (λ t. fixed_explicit t ≡ true) (sym e) refl)
implicit-explicit (fixed_bytes_type y) b h = ground arith
implicit-explicit bool_type b h = h
implicit-explicit (contract_type e p u l) b h = or_right (contract_explicit p u b) _ h
implicit-explicit (enum_type e m) b h = ground arith
