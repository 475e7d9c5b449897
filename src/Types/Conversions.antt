-- ===== src/Types/Conversions.antt =====
-- Implicit and explicit conversions between types: isImplicitlyConvertibleTo,
-- isExplicitlyConvertibleTo and commonType in libsolidity/ast/Types.cpp.
pub mod Order
pub mod CommonType
pub mod Ranges
use jules_solidity_pppascal.Common.{
  true, false, none, some, zero, suc, ℕ, Option, Bool, List, ◌||◌, ◌==◌, not, if◌then◌else◌, leb,
  ltb, ◌&&◌, ◌∷◌, ◌*◌, [], ◌^◌, ◌%◌, ◌/◌,
}
use jules_solidity_pppascal.Common.Int.{pos, negsuc, is_negative, ℤ}
use jules_solidity_pppascal.Types.{
  eq_bool, eq_elementary, le_int, fixed_bytes_type, magnitude, integer_type_of, fits_integer_type,
  max_integer_value, ElementaryType, fits_into_bits, bool_type, integer_type, min_value,
  is_fractional, fixed_point_type, address_type, with_sign_of, mobile_type, vite_token_id_type,
  enum_type, max_value, contract_type, rational_type, min_integer_value,
}

contains : ℕ → List ℕ → Bool
contains x [] = false
contains x (y ∷ ys) = x == y || contains x ys

-- m_value == rational(0)
unfoldable pub is_zero_value : ℤ → Bool
is_zero_value (pos zero) = true
is_zero_value _ = false

same_bytes : Option ℕ → ElementaryType → Bool
unfolding eq_elementary
same_bytes none t = false
same_bytes (some bytes) t = eq_elementary (fixed_bytes_type bytes) t

pub integer_implicit : ℕ → Bool → ElementaryType → Bool
unfolding eq_bool le_int max_value min_value max_integer_value min_integer_value
integer_implicit bits s (integer_type bits' s') =
    if not (eq_bool s s') then false else if ltb bits' bits then false else true
integer_implicit bits s (fixed_point_type bits' digits' s') =
    le_int (max_value bits s) (max_integer_value bits' digits' s')
    && le_int (min_integer_value bits' digits' s') (min_value bits s)
integer_implicit bits s _ = false

fixed_implicit : ℕ → ℕ → Bool → ElementaryType → Bool
unfolding le_int max_integer_value min_integer_value
fixed_implicit bits digits s (fixed_point_type bits' digits' s') =
    if ltb digits' digits
    then false
    else if ltb bits' bits
    then false
    else le_int (max_integer_value bits digits s) (max_integer_value bits' digits' s')
      && le_int (min_integer_value bits' digits' s') (min_integer_value bits digits s)
fixed_implicit bits digits s _ = false

unfoldable pub rational_implicit : ℤ → ℕ → Option ℕ → ElementaryType → Bool
unfolding is_fractional fits_integer_type le_int max_integer_value min_integer_value fits_into_bits
    is_zero_value same_bytes magnitude with_sign_of
rational_implicit n d c (integer_type bits s) =
    if is_fractional d then false else fits_integer_type n bits s
rational_implicit n d c (fixed_point_type bits digits s) =
    if is_negative n && not s
    then false
    else if not (is_fractional d)
    then le_int (min_integer_value bits digits s) n && le_int n (max_integer_value bits digits s)
    else if not (magnitude n * 10 ^ digits % d == 0)
    then false
    else fits_into_bits (with_sign_of n (magnitude n * 10 ^ digits / d)) bits s
rational_implicit n d c (fixed_bytes_type bytes) =
    is_zero_value n || same_bytes c (fixed_bytes_type bytes)
rational_implicit n d c _ = false

contract_implicit : ElementaryType → Bool → List ℕ → ElementaryType → Bool
unfolding eq_elementary contains
contract_implicit self is_super bases (contract_type id' p' s' b') =
    if is_super
    then false
    else if eq_elementary self (contract_type id' p' s' b')
    then true
    else if s'
    then false
    else contains id' bases
contract_implicit self is_super bases _ = false

address_implicit : Bool → ElementaryType → Bool
address_implicit p (address_type q) = not q || p
address_implicit p _ = false

bytes_implicit : ℕ → ElementaryType → Bool
bytes_implicit bytes (fixed_bytes_type bytes') = leb bytes bytes'
bytes_implicit bytes _ = false

-- The virtual method: the types without one of their own take the equality of Type.
unfoldable pub is_implicitly_convertible_to : ElementaryType → ElementaryType → Bool
unfolding address_implicit bytes_implicit integer_implicit fixed_implicit rational_implicit
    contract_implicit eq_elementary
is_implicitly_convertible_to (address_type p) t = address_implicit p t
is_implicitly_convertible_to vite_token_id_type t = eq_elementary vite_token_id_type t
is_implicitly_convertible_to (integer_type bits s) t = integer_implicit bits s t
is_implicitly_convertible_to (rational_type n d c) t = rational_implicit n d c t
is_implicitly_convertible_to (fixed_point_type bits digits s) t = fixed_implicit bits digits s t
is_implicitly_convertible_to (fixed_bytes_type a) t = bytes_implicit a t
is_implicitly_convertible_to bool_type t = eq_elementary bool_type t
is_implicitly_convertible_to (contract_type id p is_super bases) t =
    contract_implicit (contract_type id p is_super bases) is_super bases t
is_implicitly_convertible_to (enum_type id members) t = eq_elementary (enum_type id members) t

-- The cases of an explicit conversion that is no implicit one.
address_explicit : Bool → ElementaryType → Bool
address_explicit p (address_type q) = true
address_explicit p (contract_type _ payable _ _) = p || not payable
address_explicit p (integer_type bits s) = not p && not s && bits == 168
address_explicit p (fixed_bytes_type bytes) = not p && bytes == 21
address_explicit p _ = false

integer_explicit : ℕ → Bool → ElementaryType → Bool
unfolding eq_bool
integer_explicit bits s (integer_type bits' s') = bits == bits' || eq_bool s s'
integer_explicit bits s (address_type payable) = not payable && not s && bits == 168
integer_explicit bits s (fixed_bytes_type bytes) = not s && bits == bytes * 8
integer_explicit bits s (enum_type _ _) = true
integer_explicit bits s (fixed_point_type bits' _ s') = eq_bool s s' && bits == bits'
integer_explicit bits s _ = false

fixed_explicit : ElementaryType → Bool
fixed_explicit (fixed_point_type _ _ _) = true
fixed_explicit (integer_type _ _) = true
fixed_explicit _ = false

bytes_explicit : ℕ → ElementaryType → Bool
bytes_explicit bytes (fixed_bytes_type _) = true
bytes_explicit bytes (integer_type bits s) = not s && bits == bytes * 8
bytes_explicit bytes (address_type payable) = not payable && bytes == 21
bytes_explicit bytes (fixed_point_type bits _ _) = bits == bytes * 8
bytes_explicit bytes _ = false

contract_explicit : Bool → Bool → ElementaryType → Bool
contract_explicit p is_super (address_type q) = not is_super && (p || not q)
contract_explicit p is_super _ = false

enum_explicit : ElementaryType → Bool
enum_explicit (integer_type _ s) = not s
enum_explicit _ = false

-- The virtual method for all but literals: the types without one of their own take the implicit
-- conversion.
explicit_of : ElementaryType → ElementaryType → Bool
unfolding address_explicit integer_explicit fixed_explicit bytes_explicit contract_explicit
    enum_explicit is_implicitly_convertible_to
explicit_of (address_type p) t =
    address_explicit p t || is_implicitly_convertible_to (address_type p) t
explicit_of (integer_type bits s) t =
    is_implicitly_convertible_to (integer_type bits s) t || integer_explicit bits s t
explicit_of (fixed_point_type bits digits s) t = fixed_explicit t
explicit_of (fixed_bytes_type bytes) t = bytes_explicit bytes t
explicit_of (contract_type id p is_super bases) t =
    contract_explicit p is_super t
    || is_implicitly_convertible_to (contract_type id p is_super bases) t
explicit_of (enum_type id members) t =
    is_implicitly_convertible_to (enum_type id members) t || enum_explicit t
explicit_of s t = is_implicitly_convertible_to s t

-- Through the type that a value of the literal would have.
mobile_explicit : ℤ → ℕ → Option ℕ → ElementaryType → Bool
unfolding mobile_type explicit_of
mobile_explicit n d c t = elim (mobile_type (rational_type n d c)) [
  | none ↦ false
  | some m ↦ explicit_of m t
]

literal_explicit : ℤ → ℕ → Option ℕ → ElementaryType → Bool
unfolding mobile_explicit is_zero_value integer_type_of is_fractional le_int
literal_explicit n d c (fixed_bytes_type _) = false
literal_explicit n d c (address_type payable) =
    is_zero_value n
    || (not payable
        && not (is_negative n)
        && not (is_fractional d)
        && (elim (integer_type_of n) [ none ↦ false | some (bits, _) ↦ leb bits 168 ]))
literal_explicit n d c (integer_type _ _) = false
literal_explicit n d c (enum_type id members) =
    if is_negative n || is_fractional d || le_int (pos members) n
    then false
    else mobile_explicit n d c (enum_type id members)
literal_explicit n d c t = mobile_explicit n d c t

unfoldable pub is_explicitly_convertible_to : ElementaryType → ElementaryType → Bool
unfolding explicit_of literal_explicit is_implicitly_convertible_to
is_explicitly_convertible_to (rational_type n d c) t =
    is_implicitly_convertible_to (rational_type n d c) t || literal_explicit n d c t
is_explicitly_convertible_to s t = explicit_of s t

-- commonType, for two types that are there.
unfoldable pub common_type : ElementaryType → ElementaryType → Option ElementaryType
unfolding mobile_type is_implicitly_convertible_to
common_type a b =
    let second : Option ElementaryType = elim (mobile_type b) [
      | none ↦ none
      | some m ↦ (if is_implicitly_convertible_to a m then some m else none)
    ] in
    elim (mobile_type a) [
      | none ↦ second
      | some m ↦ (if is_implicitly_convertible_to b m then some m else second)
    ]
