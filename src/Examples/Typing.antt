-- ===== src/Examples/Typing.antt =====
-- The theorems on tokens and types, at small inputs.
use jules_solidity_pppascal.Common.{
  ◌+◌, true, false, List, ◌≡◌, ◌≤◌, ◌∷◌, ◌↔◌, ℕ, none, [], ◌⊎◌, arith, ok, refl, ◌*◌, some, ◌++◌,
  Option,
}
use jules_solidity_pppascal.Common.Dict.{lookup}
use jules_solidity_pppascal.Common.Int.{is_negative, negsuc, ℤ}
use jules_solidity_pppascal.Common.Text.{codes}
use jules_solidity_pppascal.CommonData.Endian.{bytes_required}
use jules_solidity_pppascal.Token.{
  is_assignment_op, assignment_to_binary_op, token_info, is_binary_op, is_shift_op,
}
use jules_solidity_pppascal.Token.Kind.{tok_add, Token, tok_assign_add}
use jules_solidity_pppascal.Token.Laws.{assignment_to_binary_op-spelling}
use jules_solidity_pppascal.Types.{
  max_integer_value, integer_type_of, fixed_point_type, eq_bool, max_value, le_int, min_value,
  min_integer_value, is_well_formed, rational_type, integer_type,
}
use jules_solidity_pppascal.Types.Conversions.{is_implicitly_convertible_to}
use jules_solidity_pppascal.Types.Conversions.Order.{implicit_trans, is_plain}
use jules_solidity_pppascal.Types.Conversions.Ranges.{integer_implicit-range}
use jules_solidity_pppascal.Types.Literals.{integer_type_of-smallest}
use jules_solidity_pppascal.Types.Operators.{binary_operator_result}
use jules_solidity_pppascal.Types.Operators.Converting.{binary_operator_result-converts}
use jules_solidity_pppascal.Types.Storage.{StorageItem, compute_offsets, offset_at}
use jules_solidity_pppascal.Types.Storage.Apart.{compute_offsets-apart}
use jules_solidity_pppascal.Types.Storage.Laying.{start_of, end_of}

assignment_to_binary_op-spelling_example :
    (op : Token) × (s : List ℕ) × (assignment_to_binary_op tok_assign_add ≡ ok op)
    × (is_binary_op op ≡ true)
    × ((token_info op).spelling ≡ some s)
    × ((token_info tok_assign_add).spelling ≡ some (s ++ codes "="))
unfolding is_assignment_op
assignment_to_binary_op-spelling_example =
    assignment_to_binary_op-spelling tok_assign_add (omega arith) refl refl

implicit_trans_example :
    is_implicitly_convertible_to (integer_type 8 false) (fixed_point_type 256 18 true) ≡ true
unfolding is_implicitly_convertible_to is_plain eq_bool le_int max_value min_value max_integer_value
    min_integer_value
implicit_trans_example =
    implicit_trans (integer_type 8 false) (integer_type 16 false) (fixed_point_type 256 18 true)
      refl refl refl

-- No literals are calculated.
abbrev no_value : Token → ℤ × ℕ → ℤ × ℕ → Option (ℤ × ℕ)
no_value op x y = none

binary_operator_result-converts_example :
    ((integer_type 16 true ≡ integer_type 8 true) ⊎ (integer_type 16 true ≡ integer_type 16 true))
    × (is_implicitly_convertible_to (integer_type 8 true) (integer_type 16 true) ≡ true)
    × (is_implicitly_convertible_to (integer_type 16 true) (integer_type 16 true) ≡ true)
unfolding binary_operator_result is_implicitly_convertible_to is_plain is_shift_op
binary_operator_result-converts_example =
    binary_operator_result-converts no_value tok_add (integer_type 8 true) (integer_type 16 true)
      (integer_type 16 true) refl refl refl refl refl

integer_implicit-range_example :
    (is_implicitly_convertible_to (integer_type 8 true) (integer_type 16 false) ≡ true) ↔ (
      (true ≡ false)
      × (le_int (min_value 16 false) (min_value 8 true) ≡ true)
      × (le_int (max_value 8 true) (max_value 16 false) ≡ true))
integer_implicit-range_example = integer_implicit-range 8 16 true false (omega arith) (omega arith)

integer_type_of-smallest_example :
    (true ≡ is_negative (negsuc 127))
    × (is_well_formed (integer_type 8 true) ≡ true)
    × ((is_implicitly_convertible_to (rational_type (negsuc 127) 1 none) (integer_type (8 * 2) true)
          ≡ true)
        ↔ (8 ≤ 8 * 2))
unfolding integer_type_of bytes_required
integer_type_of-smallest_example =
    integer_type_of-smallest (negsuc 127) none 8 2 true refl (omega arith)

abbrev two_members : List StorageItem
two_members =
    record { is_stored = true; bytes_in_slot = 21; slots = 1 }
    ∷ record { is_stored = true; bytes_in_slot = 16; slots = 1 }
    ∷ []

compute_offsets-apart_example :
    (0 + 21 ≤ 32)
    × (0 + 16 ≤ 32)
    × (end_of (0, 0) (record { is_stored = true; bytes_in_slot = 21; slots = 1 }) ≤ start_of (1, 0))
    × (end_of (1, 0) (record { is_stored = true; bytes_in_slot = 16; slots = 1 }) ≤ 2 * 32)
unfolding compute_offsets offset_at lookup
compute_offsets-apart_example =
    compute_offsets-apart two_members 2 ((0, (0, 0)) ∷ (1, (1, 0)) ∷ []) 0 1 _ _ (0, 0) (1, 0) refl
      (omega arith, (omega arith, tt)) (omega arith) refl refl refl refl
