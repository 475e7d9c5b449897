-- ===== src/Types.antt =====
-- Types of the language: libsolidity/ast/Types.h and Types.cpp. Modelled are the types of plain
-- values, which are compared and converted without the syntax tree: addresses, token ids, integers,
-- literals, fixed point numbers, bytes of fixed size, truth values, contracts and enums. The texts of
-- error messages are left out: a BoolResult is its truth value, a TypeResult with an error has no
-- type.
pub mod Conversions
pub mod Literals
pub mod Operators
pub mod Storage
use jules_solidity_pppascal.Common.{
  true, false, none, some, zero, suc, ok, Result, ℕ, Option, Bool, not, if◌then◌else◌, ◌/◌, ◌==◌,
  leb, ltb, ◌^◌, ◌+◌, List, ◌*◌, ◌&&◌, ◌-◌, ◌>>◌, assert_throw, max, ◌%◌, internal_compiler_error,
}
use jules_solidity_pppascal.Common.Int.{pos, negsuc, is_negative, ℤ}
use jules_solidity_pppascal.CommonData.Endian.{bytes_required}
use jules_solidity_pppascal.CommonData.Endian.Laws.{value}

-- An address is payable or not payable: the constructor refuses the other two mutabilities. A
-- rational is in lowest terms, as the library keeps it; beside it the number of bytes, if it was
-- written as a hexadecimal literal. A contract is known by a number and has those of its bases. An
-- enum is known by a number.
pub data ElementaryType : Type 0 where
  address_type : (is_payable : Bool) → ElementaryType
  vite_token_id_type : ElementaryType
  integer_type : (bits : ℕ) (is_signed : Bool) → ElementaryType
  rational_type : (numerator : ℤ) (denominator : ℕ) (compatible_bytes : Option ℕ) → ElementaryType
  fixed_point_type : (bits digits : ℕ) (is_signed : Bool) → ElementaryType
  fixed_bytes_type : (bytes : ℕ) → ElementaryType
  bool_type : ElementaryType
  contract_type : (id : ℕ) (is_payable is_super : Bool) (bases : List ℕ) → ElementaryType
  enum_type : (id members : ℕ) → ElementaryType

-- What the constructors of the types check.
integer_is_well_formed : ℕ → Bool
integer_is_well_formed bits = ltb 0 bits && leb bits 256 && bits % 8 == 0

fixed_point_is_well_formed : ℕ → ℕ → Bool
fixed_point_is_well_formed bits digits =
    leb 8 bits && leb bits 256 && bits % 8 == 0 && leb digits 80

fixed_bytes_is_well_formed : ℕ → Bool
fixed_bytes_is_well_formed bytes = ltb 0 bytes && leb bytes 32

unfoldable pub is_well_formed : ElementaryType → Bool
unfolding integer_is_well_formed fixed_point_is_well_formed fixed_bytes_is_well_formed
is_well_formed (integer_type bits _) = integer_is_well_formed bits
is_well_formed (fixed_point_type bits digits _) = fixed_point_is_well_formed bits digits
is_well_formed (fixed_bytes_type bytes) = fixed_bytes_is_well_formed bytes
is_well_formed _ = true

unfoldable pub eq_bool : Bool → Bool → Bool
eq_bool true b = b
eq_bool false b = not b

unfoldable pub eq_int : ℤ → ℤ → Bool
eq_int (pos a) (pos b) = a == b
eq_int (negsuc a) (negsuc b) = a == b
eq_int _ _ = false

unfoldable pub le_int : ℤ → ℤ → Bool
le_int (pos a) (pos b) = leb a b
le_int (negsuc a) (negsuc b) = leb b a
le_int (negsuc a) (pos b) = true
le_int (pos a) (negsuc b) = false

-- -n
unfoldable pub negated : ℕ → ℤ
negated zero = pos 0
negated (suc n) = negsuc n

-- operator== of the classes. Two contracts are the same if both their definitions and whether they
-- stand for `super` are.
eq_address : Bool → ElementaryType → Bool
unfolding eq_bool
eq_address p (address_type q) = eq_bool q p
eq_address p _ = false

eq_integer : ℕ → Bool → ElementaryType → Bool
unfolding eq_bool
eq_integer bits s (integer_type bits' s') = bits' == bits && eq_bool s' s
eq_integer bits s _ = false

eq_rational : ℤ → ℕ → ElementaryType → Bool
unfolding eq_int
eq_rational n d (rational_type n' d' _) = eq_int n n' && d == d'
eq_rational n d _ = false

eq_fixed_point : ℕ → ℕ → Bool → ElementaryType → Bool
unfolding eq_bool
eq_fixed_point bits digits s (fixed_point_type bits' digits' s') =
    bits' == bits && digits' == digits && eq_bool s' s
eq_fixed_point bits digits s _ = false

eq_fixed_bytes : ℕ → ElementaryType → Bool
eq_fixed_bytes bytes (fixed_bytes_type bytes') = bytes' == bytes
eq_fixed_bytes bytes _ = false

eq_contract : ℕ → Bool → ElementaryType → Bool
unfolding eq_bool
eq_contract id is_super (contract_type id' _ is_super' _) = id' == id && eq_bool is_super' is_super
eq_contract id is_super _ = false

eq_enum : ℕ → ElementaryType → Bool
eq_enum id (enum_type id' _) = id' == id
eq_enum id _ = false

-- The virtual operator==: the two types without data have that of Type, which compares the
-- categories.
unfoldable pub eq_elementary : ElementaryType → ElementaryType → Bool
unfolding eq_address eq_integer eq_rational eq_fixed_point eq_fixed_bytes eq_contract eq_enum
eq_elementary (address_type p) t = eq_address p t
eq_elementary vite_token_id_type vite_token_id_type = true
eq_elementary (integer_type bits s) t = eq_integer bits s t
eq_elementary (rational_type n d _) t = eq_rational n d t
eq_elementary (fixed_point_type bits digits s) t = eq_fixed_point bits digits s t
eq_elementary (fixed_bytes_type bytes) t = eq_fixed_bytes bytes t
eq_elementary bool_type bool_type = true
eq_elementary (contract_type id _ is_super _) t = eq_contract id is_super t
eq_elementary (enum_type id _) t = eq_enum id t
eq_elementary _ _ = false

-- IntegerType::minValue and maxValue
unfoldable pub min_value : ℕ → Bool → ℤ
unfolding negated
min_value bits is_signed = if is_signed then negated (2 ^ (bits - 1)) else pos 0

unfoldable pub max_value : ℕ → Bool → ℤ
max_value bits is_signed = if is_signed then pos (2 ^ (bits - 1) - 1) else pos (2 ^ bits - 1)

-- FixedPointType::maxIntegerValue and minIntegerValue. The quotient is cut towards zero.
unfoldable pub max_integer_value : ℕ → ℕ → Bool → ℤ
max_integer_value bits digits is_signed =
    pos ((2 ^ (bits - (if is_signed then 1 else 0)) - 1) / 10 ^ digits)

unfoldable pub min_integer_value : ℕ → ℕ → Bool → ℤ
unfolding negated
min_integer_value bits digits is_signed =
    if is_signed then negated (2 ^ (bits - 1) / 10 ^ digits) else pos 0

unfoldable pub fits_integer_type : ℤ → ℕ → Bool → Bool
unfolding min_value max_value le_int
fits_integer_type value bits is_signed =
    not (is_negative value && not is_signed)
    && le_int (min_value bits is_signed) value
    && le_int value (max_value bits is_signed)

unfoldable pub fits_into_bits : ℤ → ℕ → Bool → Bool
unfolding fits_integer_type
fits_into_bits value bits is_signed = fits_integer_type value bits is_signed

unfoldable pub magnitude : ℤ → ℕ
magnitude (pos n) = n
magnitude (negsuc n) = suc n

-- The sign of one number with the magnitude of another.
unfoldable pub with_sign_of : ℤ → ℕ → ℤ
unfolding negated
with_sign_of (pos _) n = pos n
with_sign_of (negsuc _) n = negated n

unfoldable pub is_fractional : ℕ → Bool
is_fractional denominator = not (denominator == 1)

-- RationalNumberType::integerType: the bits and the sign.
unfoldable pub integer_type_of : ℤ → Option (ℕ × Bool)
unfolding bytes_required magnitude
integer_type_of value =
    let negative = is_negative value in
    let v : ℕ = if negative then (magnitude value - 1) * 2 else magnitude value in
    if leb v (2 ^ 256 - 1) then some (max (bytes_required v) 1 * 8, negative) else none

-- The loop of fixedPointType, with as many rounds left as there may be more digits: the digits, and
-- the numerator of the value.
unfoldable pub scale_up : ℕ → ℕ → ℕ → ℕ → ℕ → ℕ × ℕ
scale_up zero maximum digits n d = (digits, n)
scale_up (suc left) maximum digits n d =
    let later = scale_up left maximum (digits + 1) (n * 10) d in
    if leb (n * 10) (maximum * d) && not (n % d == 0) then later else (digits, n)

-- RationalNumberType::fixedPointType: the bits, the digits and the sign.
unfoldable pub fixed_point_type_of : ℤ → ℕ → Option (ℕ × ℕ × Bool)
unfolding bytes_required magnitude scale_up
fixed_point_type_of numerator d =
    let negative = is_negative numerator in
    let maximum : ℕ = if negative then 2 ^ 255 else 2 ^ 256 - 1 in
    let (digits, n) = scale_up 80 maximum 0 (magnitude numerator) d in
    let v : ℕ = n / d in
    let w : ℕ = if negative && not (v == 0) then (v - 1) * 2 else v in
    if ltb (maximum * d) n
    then none
    else if ltb (2 ^ 256 - 1) w
    then none
    else some (max (bytes_required w) 1 * 8, digits, negative)

unfoldable pub mobile_type : ElementaryType → Option ElementaryType
unfolding is_fractional integer_type_of fixed_point_type_of
mobile_type (rational_type n d _) =
    if is_fractional d
    then (elim (fixed_point_type_of n d) [
      | none ↦ none
      | some (bits, digits, s) ↦ some (fixed_point_type bits digits s)
    ])
    else (elim (integer_type_of n) [ none ↦ none | some (bits, s) ↦ some (integer_type bits s) ])
mobile_type t = some t

-- Type::storageBytes
unfoldable pub storage_bytes : ElementaryType → Result ℕ
storage_bytes (address_type _) = ok (168 / 8)
storage_bytes vite_token_id_type = ok (80 / 8)
storage_bytes (integer_type bits _) = ok (bits / 8)
storage_bytes (rational_type _ _ _) = ok 32
storage_bytes (fixed_point_type bits _ _) = ok (bits / 8)
storage_bytes (fixed_bytes_type bytes) = ok bytes
storage_bytes bool_type = ok 1
storage_bytes (contract_type _ _ is_super _) = do
  assert_throw (not is_super) internal_compiler_error
  ok 21
storage_bytes (enum_type _ members) = do
  assert_throw (leb members 256) internal_compiler_error
  ok 1

unfoldable pub can_be_stored : ElementaryType → Bool
can_be_stored (rational_type _ _ _) = false
can_be_stored _ = true
