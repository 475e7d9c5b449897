-- ===== src/Types/Operators.antt =====
-- The types of operators' results: unaryOperatorResult and binaryOperatorResult in
-- libsolidity/ast/Types.cpp. The calculation with literals, ConstantEvaluator, is not in the
-- repository: it is an argument, by its result as numerator and denominator.
pub mod Converting
use jules_solidity_pppascal.Common.{if◌then◌else◌, ◌==◌, ◌||◌, false, ◌&&◌, leb, ◌^◌, max}
use jules_solidity_pppascal.Common.Int.{is_negative, ℤ}
use jules_solidity_pppascal.Token.{is_boolean_op, is_bit_op, is_compare_op, is_shift_op}
use jules_solidity_pppascal.Token.Kind.{
  Token, tok_dec, tok_and, tok_shr, tok_not_equal, tok_add, tok_delete, tok_exp, tok_equal, tok_inc,
  tok_sub, tok_not, tok_or, tok_bit_not,
}
use jules_solidity_pppascal.Types.{
  address_type, vite_token_id_type, mobile_type, rational_type, fixed_point_type, magnitude,
  bool_type, ElementaryType, is_fractional, contract_type, integer_type, fixed_bytes_type,
  enum_type, integer_type_of, Bool, Option, not, true, none, ℕ, if◌then◌else◌, some,
}
use jules_solidity_pppascal.Types.Conversions.{common_type}

-- A type, or that of nothing: the empty tuple.
pub data UnaryResult : Type 0 where
  empty_tuple : UnaryResult
  same_type : ElementaryType → UnaryResult

delete_only : Token → Option UnaryResult
delete_only op = if op == tok_delete then some empty_tuple else none

integer_unary : Token → Bool → ElementaryType → Option UnaryResult
integer_unary op s self =
    if op == tok_delete
    then some empty_tuple
    else if op == tok_sub
    then (if s then some (same_type self) else none)
    else if op == tok_inc || op == tok_dec || op == tok_bit_not
    then some (same_type self)
    else none

fixed_unary : Token → ElementaryType → Option UnaryResult
fixed_unary op self =
    if op == tok_delete
    then some empty_tuple
    else if op == tok_add || op == tok_sub || op == tok_inc || op == tok_dec
    then some (same_type self)
    else none

bytes_unary : Token → ElementaryType → Option UnaryResult
bytes_unary op self =
    if op == tok_delete
    then some empty_tuple
    else if op == tok_bit_not
    then some (same_type self)
    else none

bool_unary : Token → Option UnaryResult
bool_unary op =
    if op == tok_delete
    then some empty_tuple
    else if op == tok_not
    then some (same_type bool_type)
    else none

rational_unary : Option (ℤ × ℕ) → Option UnaryResult
rational_unary none = none
rational_unary (some (n, d)) = some (same_type (rational_type n d none))

contract_unary : Token → Bool → Option UnaryResult
contract_unary op is_super =
    if is_super then none else if op == tok_delete then some empty_tuple else none

-- The virtual method: token ids take that of Type.
unfoldable pub unary_operator_result :
    (Token → ℤ × ℕ → Option (ℤ × ℕ)) → Token → ElementaryType → Option UnaryResult
unfolding delete_only integer_unary fixed_unary bytes_unary bool_unary rational_unary contract_unary
unary_operator_result evaluate op (address_type p) = delete_only op
unary_operator_result evaluate op vite_token_id_type = none
unary_operator_result evaluate op (integer_type bits s) = integer_unary op s (integer_type bits s)
unary_operator_result evaluate op (rational_type n d c) = rational_unary (evaluate op (n, d))
unary_operator_result evaluate op (fixed_point_type bits digits s) =
    fixed_unary op (fixed_point_type bits digits s)
unary_operator_result evaluate op (fixed_bytes_type bytes) = bytes_unary op (fixed_bytes_type bytes)
unary_operator_result evaluate op bool_type = bool_unary op
unary_operator_result evaluate op (contract_type id p is_super bases) = contract_unary op is_super
unary_operator_result evaluate op (enum_type id members) = delete_only op

is_unsigned_integer : ℤ → ℕ → Bool
is_unsigned_integer n d =
    not (is_fractional d) && (elim (integer_type_of n) [ none ↦ false | some (_, s) ↦ not s ])

unfoldable pub is_valid_shift : Token → ElementaryType → Bool
unfolding is_unsigned_integer
is_valid_shift op (integer_type _ s) = not (op == tok_shr) && not s
is_valid_shift op (rational_type n d _) = not (op == tok_shr) && is_unsigned_integer n d
is_valid_shift op _ = false

-- What stands behind `**` an integer.
unfoldable pub is_valid_exponent : ElementaryType → Bool
is_valid_exponent (integer_type _ s) = not s
is_valid_exponent (fixed_point_type _ _ _) = false
is_valid_exponent (rational_type n d _) =
    not (is_fractional d)
    && (elim (integer_type_of n) [ none ↦ false | some _ ↦ true ])
    && not (is_negative n)
is_valid_exponent _ = true

unfoldable pub is_number : ElementaryType → Bool
is_number (rational_type _ _ _) = true
is_number (fixed_point_type _ _ _) = true
is_number (integer_type _ _) = true
is_number _ = false

unfoldable pub integer_binary : Token → ElementaryType → ElementaryType → Option ElementaryType
unfolding is_number is_valid_shift is_valid_exponent common_type is_shift_op is_compare_op
    is_boolean_op
integer_binary op self other =
    let common = common_type self other in
    if not (is_number other)
    then none
    else if is_shift_op op
    then (if is_valid_shift op other then some self else none)
    else if op == tok_exp
    then (if is_valid_exponent other then some self else none)
    else if is_compare_op op
    then common
    else if is_boolean_op op
    then none
    else common

unfoldable pub fixed_binary : Token → ElementaryType → ElementaryType → Option ElementaryType
unfolding common_type is_compare_op is_boolean_op is_bit_op
fixed_binary op self other =
    let common = common_type self other in
    if is_compare_op op
    then common
    else if is_bit_op op || is_boolean_op op || op == tok_exp
    then none
    else common

unfoldable pub as_fixed_bytes : Option ElementaryType → Option ElementaryType
as_fixed_bytes (some (fixed_bytes_type bytes)) = some (fixed_bytes_type bytes)
as_fixed_bytes _ = none

unfoldable pub bytes_binary : Token → ElementaryType → ElementaryType → Option ElementaryType
unfolding common_type is_shift_op is_valid_shift as_fixed_bytes is_compare_op is_bit_op
bytes_binary op self other =
    let common = as_fixed_bytes (common_type self other) in
    if is_shift_op op
    then (if is_valid_shift op other then some self else none)
    else if is_compare_op op || is_bit_op op
    then common
    else none

unfoldable pub bool_binary : Token → ElementaryType → Option ElementaryType
bool_binary op bool_type =
    if op == tok_equal || op == tok_not_equal || op == tok_and || op == tok_or
    then some bool_type
    else none
bool_binary op _ = none

-- AddressType::binaryOperatorResult, and the virtual method of Type.
unfoldable pub compare_binary : Token → ElementaryType → ElementaryType → Option ElementaryType
unfolding common_type is_compare_op
compare_binary op self other = if is_compare_op op then common_type self other else none

-- The virtual method for all but literals.
unfoldable pub operator_of : Token → ElementaryType → ElementaryType → Option ElementaryType
unfolding integer_binary fixed_binary bytes_binary bool_binary compare_binary
operator_of op (rational_type n d c) b = none
operator_of op (integer_type bits s) b = integer_binary op (integer_type bits s) b
operator_of op (fixed_point_type bits digits s) b =
    fixed_binary op (fixed_point_type bits digits s) b
operator_of op (fixed_bytes_type bytes) b = bytes_binary op (fixed_bytes_type bytes) b
operator_of op bool_type b = bool_binary op b
operator_of op a b = compare_binary op a b

operator_of_mobile : Token → Option ElementaryType → Option ElementaryType → Option ElementaryType
unfolding operator_of
operator_of_mobile op (some a) (some b) = operator_of op a b
operator_of_mobile op _ _ = none

-- A literal before an integer or a fixed point number.
literal_number : Token → ElementaryType → ElementaryType → Option ElementaryType
unfolding is_fractional integer_type_of is_shift_op is_valid_shift is_valid_exponent common_type
    operator_of_mobile
literal_number op (rational_type n d c) other =
    let large : ElementaryType = integer_type 256 (is_negative n) in
    if is_fractional d then none else (elim (integer_type_of n) [
      | none ↦ none
      | some _ ↦
          (if is_shift_op op
            then (if is_valid_shift op other then some large else none)
            else if op == tok_exp
            then (if is_valid_exponent other then some large else none)
            else operator_of_mobile op (common_type (rational_type n d c) other) (some other))
    ])
literal_number op self other = none

-- Numerator and denominator of a calculated literal have no more than 4097 bits.
limited : Option (ℤ × ℕ) → Option ElementaryType
unfolding magnitude
limited none = none
limited (some (n, d)) =
    if not (magnitude n == 0) && leb (2 ^ 4097) (max (magnitude n) d)
    then none
    else some (rational_type n d none)

rational_binary :
    (Token → ℤ × ℕ → ℤ × ℕ → Option (ℤ × ℕ))
    → Token
    → ElementaryType
    → ℤ × ℕ
    → ElementaryType
    → Option ElementaryType
unfolding literal_number mobile_type operator_of_mobile limited is_compare_op
rational_binary evaluate op self value (integer_type bits s) =
    literal_number op self (integer_type bits s)
rational_binary evaluate op self value (fixed_point_type bits digits s) =
    literal_number op self (fixed_point_type bits digits s)
rational_binary evaluate op self value (rational_type n d c) =
    if is_compare_op op
    then operator_of_mobile op (mobile_type self) (mobile_type (rational_type n d c))
    else limited (evaluate op value (n, d))
rational_binary evaluate op self value _ = none

unfoldable pub binary_operator_result :
    (Token → ℤ × ℕ → ℤ × ℕ → Option (ℤ × ℕ))
    → Token
    → ElementaryType
    → ElementaryType
    → Option ElementaryType
unfolding rational_binary operator_of
binary_operator_result evaluate op (rational_type n d c) b =
    rational_binary evaluate op (rational_type n d c) (n, d) b
binary_operator_result evaluate op a b = operator_of op a b
