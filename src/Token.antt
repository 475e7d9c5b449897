-- ===== src/Token.antt =====
-- What the tokens are: the functions of `TokenTraits` in liblangutil/Token.h, and the names of
-- elementary types with their numbers. `assertDetails` is not in the repository: the numbers of a
-- type name are whatever it lets through.
pub mod Kind
pub mod Table
pub mod Laws
use Prim.Native.Nat.{ℕ}
use jules_solidity_pppascal.Common.{
  none, Result, List, get_elem?, Bool, some, leb, ◌||◌, ◌==◌, true, ◌>>◌, ◌∷◌, assert_throw, ◌&&◌,
  ltb, length, not, internal_compiler_error, ◌+◌, ok, [], if◌then◌else◌, ◌-◌, take, ◌++◌, ◌>>=◌,
  err, undefined,
}
use jules_solidity_pppascal.Common.Text.{to_decimal, codes}
use jules_solidity_pppascal.Token.Kind.{
  tok_sub_attov, tok_leave, tok_sub_wei, tok_or, tok_mul, tok_private, tok_sub_second, tok_for,
  tok_payable, tok_shl, tok_add, tok_false_literal, tok_async, tok_int, tok_bit_and, tok_break,
  tok_sub_ether, tok_u_fixed_mx_n, Token, tok_bit_or, tok_equal, tok_sub_year, tok_not,
  tok_continue, tok_assign_bit_or, tok_switch, tok_view, tok_default, tok_sub_minute, tok_sub_hour,
  tok_exp, tok_fixed_mx_n, tok_assign, tok_var, tok_hex, tok_bit_not, tok_and, tok_case, tok_memory,
  tok_internal, tok_shr, tok_hex_string_literal, tok_not_equal, tok_if, tok_call_data, tok_external,
  tok_sub, tok_bit_xor, tok_storage, tok_function, tok_types_end, tok_assign_mod, tok_comma,
  tok_true_literal, tok_sub_week, tok_delete, tok_dec, tok_sub_vite, tok_greater_than_or_equal,
  tok_public, tok_pure, tok_after, tok_inc, tok_sub_day, tok_let,
}
use jules_solidity_pppascal.Token.Table.{TokenInfo, token_list}

unfoldable pub is_elementary_type_name : Token → Bool
is_elementary_type_name t = leb tok_int t && ltb t tok_types_end

unfoldable pub is_assignment_op : Token → Bool
is_assignment_op t = leb tok_assign t && leb t tok_assign_mod

unfoldable pub is_binary_op : Token → Bool
is_binary_op t = leb tok_comma t && leb t tok_exp

unfoldable pub is_commutative_op : Token → Bool
is_commutative_op op =
    op == tok_bit_or
    || op == tok_bit_xor
    || op == tok_bit_and
    || op == tok_add
    || op == tok_mul
    || op == tok_equal
    || op == tok_not_equal

unfoldable pub is_arithmetic_op : Token → Bool
is_arithmetic_op op = leb tok_add op && leb op tok_exp

unfoldable pub is_compare_op : Token → Bool
is_compare_op op = leb tok_equal op && leb op tok_greater_than_or_equal

unfoldable pub is_bit_op : Token → Bool
is_bit_op op = (leb tok_bit_or op && leb op tok_bit_and) || op == tok_bit_not

unfoldable pub is_boolean_op : Token → Bool
is_boolean_op op = (leb tok_or op && leb op tok_and) || op == tok_not

unfoldable pub is_unary_op : Token → Bool
is_unary_op op = (leb tok_not op && leb op tok_delete) || op == tok_add || op == tok_sub

unfoldable pub is_count_op : Token → Bool
is_count_op op = op == tok_inc || op == tok_dec

unfoldable pub is_shift_op : Token → Bool
is_shift_op op = leb tok_shl op && leb op tok_shr

unfoldable pub is_variable_visibility_specifier : Token → Bool
is_variable_visibility_specifier op = op == tok_public || op == tok_private || op == tok_internal

unfoldable pub is_visibility_specifier : Token → Bool
unfolding is_variable_visibility_specifier
is_visibility_specifier op = is_variable_visibility_specifier op || op == tok_external

unfoldable pub is_location_specifier : Token → Bool
is_location_specifier op = op == tok_memory || op == tok_storage || op == tok_call_data

unfoldable pub is_state_mutability_specifier : Token → Bool
is_state_mutability_specifier op = op == tok_pure || op == tok_view || op == tok_payable

unfoldable pub is_execution_behavior_specifier : Token → Bool
is_execution_behavior_specifier op = op == tok_async

unfoldable pub is_ether_subdenomination : Token → Bool
is_ether_subdenomination op = leb tok_sub_wei op && leb op tok_sub_ether

unfoldable pub is_vite_subdenomination : Token → Bool
is_vite_subdenomination op = leb tok_sub_attov op && leb op tok_sub_vite

unfoldable pub is_time_subdenomination : Token → Bool
is_time_subdenomination op =
    op == tok_sub_second
    || op == tok_sub_minute
    || op == tok_sub_hour
    || op == tok_sub_day
    || op == tok_sub_week
    || op == tok_sub_year

unfoldable pub is_reserved_keyword : Token → Bool
is_reserved_keyword op = leb tok_after op && leb op tok_var

unfoldable pub is_yul_keyword : Token → Bool
is_yul_keyword t =
    t == tok_function
    || t == tok_let
    || t == tok_if
    || t == tok_switch
    || t == tok_case
    || t == tok_default
    || t == tok_for
    || t == tok_break
    || t == tok_continue
    || t == tok_leave
    || t == tok_true_literal
    || t == tok_false_literal
    || t == tok_hex_string_literal
    || t == tok_hex

unfoldable pub assignment_to_binary_op : Token → Result Token
unfolding is_assignment_op
assignment_to_binary_op op = do
  assert_throw (is_assignment_op op && not (op == tok_assign)) internal_compiler_error
  ok (op + tok_bit_or - tok_assign_bit_or)

abbrev unknown_token : TokenInfo
unknown_token = record { spelling = none; precedence_of = 0 }

-- A value that is no token is not looked up.
unfoldable pub token_info : Token → TokenInfo
unfolding token_list
token_info t = elim (get_elem? token_list t) [ some info ↦ info | none ↦ unknown_token ]

unfoldable pub precedence : Token → ℕ
unfolding token_info
precedence t = (token_info t).precedence_of

exp_check : Token → List TokenInfo → Bool
exp_check t [] = true
exp_check t (info ∷ infos) = (t == tok_exp || ltb info.precedence_of 14) && exp_check (t + 1) infos

unfoldable pub has_exp_highest_precedence : Bool
unfolding exp_check token_list
has_exp_highest_precedence = exp_check 0 token_list

pub record ElementaryTypeNameToken : Type 0 where
  pub token : Token
  pub first_number : ℕ
  pub second_number : ℕ

-- ElementaryTypeNameToken::toString. A std::string may not be made of a null pointer.
unfoldable pub type_name : Bool → ElementaryTypeNameToken → Result (List ℕ)
unfolding token_info to_decimal
type_name token_value n = do
  name ← elim (token_info n.token).spelling [ some s ↦ ok s | none ↦ err undefined ]
  let long = name_with_numbers name n
  if token_value || (n.first_number == 0 && n.second_number == 0) then ok name else long
  where
    name_with_numbers : List ℕ → ElementaryTypeNameToken → Result (List ℕ)
    name_with_numbers name n = do
      assert_throw (leb 3 (length name)) internal_compiler_error
      ok (
          if n.token == tok_fixed_mx_n || n.token == tok_u_fixed_mx_n
          then take (length name - 3) name
            ++ to_decimal n.first_number
            ++ codes "x"
            ++ to_decimal n.second_number
          else take (length name - 1) name ++ to_decimal n.first_number)
