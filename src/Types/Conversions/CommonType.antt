-- ===== src/Types/Conversions/CommonType.antt =====
-- The common type of two types: Type::commonType in libsolidity/ast/Types.cpp.
use jules_solidity_pppascal.Common.{
  true, false, none, some, ◌≡◌, Bool, refl, ◌⊎◌, inr, inl, subst, sym, ◌∙◌, if◌then◌else◌, Option,
  ap, some-injective,
}
use jules_solidity_pppascal.Types.{
  bool_type, address_type, enum_type, integer_type, rational_type, mobile_type, fixed_point_type,
  contract_type, vite_token_id_type, ElementaryType, fixed_bytes_type,
}
use jules_solidity_pppascal.Types.Conversions.{common_type, is_implicitly_convertible_to}
use jules_solidity_pppascal.Types.Conversions.Order.{is_plain, implicit_self}

plain_mobile : (a : ElementaryType) → is_plain a ≡ true → mobile_type a ≡ some a
unfolding is_plain mobile_type
plain_mobile (address_type p) plain = refl
plain_mobile vite_token_id_type plain = refl
plain_mobile (integer_type bits s) plain = refl
plain_mobile (rational_type n d r) plain = cc
plain_mobile (fixed_point_type bits digits s) plain = refl
plain_mobile (fixed_bytes_type y) plain = refl
plain_mobile bool_type plain = refl
plain_mobile (contract_type e p u l) plain = cc
plain_mobile (enum_type e m) plain = refl

plain_common :
    (a b : ElementaryType)
    → is_plain a ≡ true
    → is_plain b ≡ true
    → common_type a b ≡ (
        if is_implicitly_convertible_to b a
        then some a
        else if is_implicitly_convertible_to a b
        then some b
        else none)
unfolding common_type
plain_common a b p q =
    let second : Option ElementaryType → Option ElementaryType = λ o. elim o [
      | none ↦ none
      | some m ↦ (if is_implicitly_convertible_to a m then some m else none)
    ] in
    ap
      (λ o. elim o [
        | none ↦ second (mobile_type b)
        | some m ↦ (if is_implicitly_convertible_to b m then some m else second (mobile_type b))
      ])
      (plain_mobile a p)
    ∙ ap (λ o. if is_implicitly_convertible_to b a then some a else second o) (plain_mobile b q)

pick :
    (x y : Bool) (a b c : ElementaryType)
    → (if x then some a else if y then some b else none) ≡ some c
    → ((x ≡ true) × (a ≡ c)) ⊎ ((y ≡ true) × (b ≡ c))
pick true y a b c h = inl (refl, some-injective h)
pick false true a b c h = inr (refl, some-injective h)
pick false false a b c h = cc

-- The common type of two types that are neither literals nor contracts, if there is one, is one of
-- the two, and both convert to it.
pub common_type-converts :
    (a b c : ElementaryType)
    → is_plain a ≡ true
    → is_plain b ≡ true
    → common_type a b ≡ some c
    → ((c ≡ a) ⊎ (c ≡ b))
      × (is_implicitly_convertible_to a c ≡ true)
      × (is_implicitly_convertible_to b c ≡ true)
common_type-converts a b c p q h = elim (pick _ _ a b c (sym (plain_common a b p q) ∙ h)) [
  | inl (converts, same) ↦ (
    inl (sym same),
    subst (λ t. is_implicitly_convertible_to a t ≡ true) same (implicit_self a p),
    subst (λ t. is_implicitly_convertible_to b t ≡ true) same converts,
  )
  | inr (converts, same) ↦ (
    inr (sym same),
    subst (λ t. is_implicitly_convertible_to a t ≡ true) same converts,
    subst (λ t. is_implicitly_convertible_to b t ≡ true) same (implicit_self b q),
  )
]
