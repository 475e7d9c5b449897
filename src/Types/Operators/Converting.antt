-- ===== src/Types/Operators/Converting.antt =====
-- Operands and results of binary operators: binaryOperatorResult in libsolidity/ast/Types.cpp.
use jules_solidity_pppascal.Common.{
  ◌≡◌, some, ℕ, false, true, ◌==◌, none, arith, refl, ◌⊎◌, sym, ◌∙◌, Bool, if◌then◌else◌, ◌||◌, not,
}
use jules_solidity_pppascal.Token.{is_bit_op, is_boolean_op, is_compare_op, is_shift_op}
use jules_solidity_pppascal.Token.Kind.{Token, tok_exp}
use jules_solidity_pppascal.Types.{
  fixed_point_type, ElementaryType, enum_type, bool_type, address_type, fixed_bytes_type,
  rational_type, mobile_type, integer_type, vite_token_id_type, contract_type, Option, ℤ,
}
use jules_solidity_pppascal.Types.Conversions.{is_implicitly_convertible_to, common_type}
use jules_solidity_pppascal.Types.Conversions.CommonType.{common_type-converts}
use jules_solidity_pppascal.Types.Conversions.Order.{is_plain}
use jules_solidity_pppascal.Types.Operators.{
  as_fixed_bytes, compare_binary, binary_operator_result, fixed_binary, is_valid_exponent,
  integer_binary, is_number, bytes_binary, bool_binary, is_valid_shift, operator_of,
}

as_fixed_bytes-some :
    (o : Option ElementaryType) (t : ElementaryType) → as_fixed_bytes o ≡ some t → o ≡ some t
unfolding as_fixed_bytes
as_fixed_bytes-some none t h = cc
as_fixed_bytes-some (some (address_type p)) t h = cc
as_fixed_bytes-some (some vite_token_id_type) t h = cc
as_fixed_bytes-some (some (integer_type bits s)) t h = cc
as_fixed_bytes-some (some (rational_type n d c)) t h = cc
as_fixed_bytes-some (some (fixed_point_type bits digits s)) t h = cc
as_fixed_bytes-some (some (fixed_bytes_type bytes)) t h = h
as_fixed_bytes-some (some bool_type) t h = cc
as_fixed_bytes-some (some (contract_type id p u l)) t h = cc
as_fixed_bytes-some (some (enum_type id members)) t h = cc

-- What the tests of an operator let through is the common type.
passes_number :
    (number shift exp compare boolean : Bool) (x y common : Option ElementaryType)
    (t : ElementaryType)
    → shift ≡ false
    → exp ≡ false
    → (if not number
        then none
        else if shift
        then x
        else if exp
        then y
        else if compare
        then common
        else if boolean
        then none
        else common)
      ≡ some t
    → common ≡ some t
passes_number false shift exp compare boolean x y common t p q h = cc
passes_number true true exp compare boolean x y common t p q h = cc
passes_number true false true compare boolean x y common t p q h = cc
passes_number true false false true boolean x y common t p q h = h
passes_number true false false false true x y common t p q h = cc
passes_number true false false false false x y common t p q h = h

passes_fixed :
    (compare refused : Bool) (common : Option ElementaryType) (t : ElementaryType)
    → (if compare then common else if refused then none else common) ≡ some t
    → common ≡ some t
passes_fixed true refused common t h = h
passes_fixed false true common t h = cc
passes_fixed false false common t h = h

passes_bytes :
    (shift allowed : Bool) (x common : Option ElementaryType) (t : ElementaryType)
    → shift ≡ false
    → (if shift then x else if allowed then common else none) ≡ some t
    → common ≡ some t
passes_bytes true allowed x common t p h = cc
passes_bytes false true x common t p h = h
passes_bytes false false x common t p h = cc

passes_compare :
    (compare : Bool) (common : Option ElementaryType) (t : ElementaryType)
    → (if compare then common else none) ≡ some t
    → common ≡ some t
passes_compare true common t h = h
passes_compare false common t h = cc

integer_binary-common :
    (op : Token) (a b t : ElementaryType)
    → is_shift_op op ≡ false
    → (op == tok_exp) ≡ false
    → integer_binary op a b ≡ some t
    → common_type a b ≡ some t
unfolding integer_binary
integer_binary-common op a b t shift exp h =
    passes_number (is_number b) (is_shift_op op) (op == tok_exp) (is_compare_op op)
      (is_boolean_op op) (if is_valid_shift op b then some a else none)
      (if is_valid_exponent b then some a else none) (common_type a b) t shift exp h

fixed_binary-common :
    (op : Token) (a b t : ElementaryType) → fixed_binary op a b ≡ some t → common_type a b ≡ some t
unfolding fixed_binary
fixed_binary-common op a b t h =
    passes_fixed (is_compare_op op) (is_bit_op op || is_boolean_op op || op == tok_exp)
      (common_type a b) t h

bytes_binary-common :
    (op : Token) (a b t : ElementaryType)
    → is_shift_op op ≡ false
    → bytes_binary op a b ≡ some t
    → common_type a b ≡ some t
unfolding bytes_binary
bytes_binary-common op a b t shift h = as_fixed_bytes-some (common_type a b) t (
    passes_bytes (is_shift_op op) (is_compare_op op || is_bit_op op)
      (if is_valid_shift op b then some a else none) (as_fixed_bytes (common_type a b)) t shift h)

compare_binary-common :
    (op : Token) (a b t : ElementaryType)
    → compare_binary op a b ≡ some t
    → common_type a b ≡ some t
unfolding compare_binary
compare_binary-common op a b t h = passes_compare (is_compare_op op) (common_type a b) t h

bool_binary-common :
    (op : Token) (b t : ElementaryType)
    → bool_binary op b ≡ some t
    → common_type bool_type b ≡ some t
unfolding bool_binary common_type mobile_type
bool_binary-common op bool_type t h = ground arith
bool_binary-common op (address_type p) t h = cc
bool_binary-common op vite_token_id_type t h = cc
bool_binary-common op (integer_type bits s) t h = cc
bool_binary-common op (rational_type n d c) t h = cc
bool_binary-common op (fixed_point_type bits digits s) t h = cc
bool_binary-common op (fixed_bytes_type bytes) t h = cc
bool_binary-common op (contract_type id p u l) t h = cc
bool_binary-common op (enum_type id members) t h = cc

operator_of-common :
    (op : Token) (a b t : ElementaryType)
    → is_shift_op op ≡ false
    → (op == tok_exp) ≡ false
    → operator_of op a b ≡ some t
    → common_type a b ≡ some t
unfolding operator_of
operator_of-common op (address_type p) b t shift exp h =
    compare_binary-common op (address_type p) b t h
operator_of-common op vite_token_id_type b t shift exp h =
    compare_binary-common op vite_token_id_type b t h
operator_of-common op (integer_type bits s) b t shift exp h =
    integer_binary-common op (integer_type bits s) b t shift exp h
operator_of-common op (rational_type n d c) b t shift exp h = cc
operator_of-common op (fixed_point_type bits digits s) b t shift exp h =
    fixed_binary-common op (fixed_point_type bits digits s) b t h
operator_of-common op (fixed_bytes_type bytes) b t shift exp h =
    bytes_binary-common op (fixed_bytes_type bytes) b t shift h
operator_of-common op bool_type b t shift exp h = bool_binary-common op b t h
operator_of-common op (contract_type id p u l) b t shift exp h =
    compare_binary-common op (contract_type id p u l) b t h
operator_of-common op (enum_type id members) b t shift exp h =
    compare_binary-common op (enum_type id members) b t h

not_folded :
    (evaluate : Token → ℤ × ℕ → ℤ × ℕ → Option (ℤ × ℕ)) (op : Token) (a b : ElementaryType)
    → is_plain a ≡ true
    → binary_operator_result evaluate op a b ≡ operator_of op a b
unfolding binary_operator_result is_plain
not_folded evaluate op (address_type p) b plain = refl
not_folded evaluate op vite_token_id_type b plain = refl
not_folded evaluate op (integer_type bits s) b plain = refl
not_folded evaluate op (rational_type n d c) b plain = cc
not_folded evaluate op (fixed_point_type bits digits s) b plain = refl
not_folded evaluate op (fixed_bytes_type bytes) b plain = refl
not_folded evaluate op bool_type b plain = refl
not_folded evaluate op (contract_type id p u l) b plain = refl
not_folded evaluate op (enum_type id members) b plain = refl

-- A binary operator that is neither a shift nor an exponentiation, between two types that are
-- neither literals nor contracts: if it has a result, this is the type of one of the operands, and
-- both operands convert to it implicitly.
pub binary_operator_result-converts :
    (evaluate : Token → ℤ × ℕ → ℤ × ℕ → Option (ℤ × ℕ)) (op : Token) (a b t : ElementaryType)
    → is_plain a ≡ true
    → is_plain b ≡ true
    → is_shift_op op ≡ false
    → (op == tok_exp) ≡ false
    → binary_operator_result evaluate op a b ≡ some t
    → ((t ≡ a) ⊎ (t ≡ b))
      × (is_implicitly_convertible_to a t ≡ true)
      × (is_implicitly_convertible_to b t ≡ true)
binary_operator_result-converts evaluate op a b t p q shift exp h =
    common_type-converts a b t p q
      (operator_of-common op a b t shift exp (sym (not_folded evaluate op a b p) ∙ h))
