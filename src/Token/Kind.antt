-- ===== src/Token/Kind.antt =====
-- The tokens, by their values in the enumeration `Token`: liblangutil/Token.h.
use Prim.Native.Nat.{ℕ}

abbrev pub Token : Type 0
Token = ℕ

abbrev pub tok_eos : Token
tok_eos = 0

abbrev pub tok_l_paren : Token
tok_l_paren = 1

abbrev pub tok_r_paren : Token
tok_r_paren = 2

abbrev pub tok_l_brack : Token
tok_l_brack = 3

abbrev pub tok_r_brack : Token
tok_r_brack = 4

abbrev pub tok_l_brace : Token
tok_l_brace = 5

abbrev pub tok_r_brace : Token
tok_r_brace = 6

abbrev pub tok_colon : Token
tok_colon = 7

abbrev pub tok_semicolon : Token
tok_semicolon = 8

abbrev pub tok_period : Token
tok_period = 9

abbrev pub tok_conditional : Token
tok_conditional = 10

abbrev pub tok_double_arrow : Token
tok_double_arrow = 11

abbrev pub tok_right_arrow : Token
tok_right_arrow = 12

abbrev pub tok_assign : Token
tok_assign = 13

abbrev pub tok_assign_bit_or : Token
tok_assign_bit_or = 14

abbrev pub tok_assign_bit_xor : Token
tok_assign_bit_xor = 15

abbrev pub tok_assign_bit_and : Token
tok_assign_bit_and = 16

abbrev pub tok_assign_shl : Token
tok_assign_shl = 17

abbrev pub tok_assign_sar : Token
tok_assign_sar = 18

abbrev pub tok_assign_shr : Token
tok_assign_shr = 19

abbrev pub tok_assign_add : Token
tok_assign_add = 20

abbrev pub tok_assign_sub : Token
tok_assign_sub = 21

abbrev pub tok_assign_mul : Token
tok_assign_mul = 22

abbrev pub tok_assign_div : Token
tok_assign_div = 23

abbrev pub tok_assign_mod : Token
tok_assign_mod = 24

abbrev pub tok_comma : Token
tok_comma = 25

abbrev pub tok_or : Token
tok_or = 26

abbrev pub tok_and : Token
tok_and = 27

abbrev pub tok_bit_or : Token
tok_bit_or = 28

abbrev pub tok_bit_xor : Token
tok_bit_xor = 29

abbrev pub tok_bit_and : Token
tok_bit_and = 30

abbrev pub tok_shl : Token
tok_shl = 31

abbrev pub tok_sar : Token
tok_sar = 32

abbrev pub tok_shr : Token
tok_shr = 33

abbrev pub tok_add : Token
tok_add = 34

abbrev pub tok_sub : Token
tok_sub = 35

abbrev pub tok_mul : Token
tok_mul = 36

abbrev pub tok_div : Token
tok_div = 37

abbrev pub tok_mod : Token
tok_mod = 38

abbrev pub tok_exp : Token
tok_exp = 39

abbrev pub tok_equal : Token
tok_equal = 40

abbrev pub tok_not_equal : Token
tok_not_equal = 41

abbrev pub tok_less_than : Token
tok_less_than = 42

abbrev pub tok_greater_than : Token
tok_greater_than = 43

abbrev pub tok_less_than_or_equal : Token
tok_less_than_or_equal = 44

abbrev pub tok_greater_than_or_equal : Token
tok_greater_than_or_equal = 45

abbrev pub tok_not : Token
tok_not = 46

abbrev pub tok_bit_not : Token
tok_bit_not = 47

abbrev pub tok_inc : Token
tok_inc = 48

abbrev pub tok_dec : Token
tok_dec = 49

abbrev pub tok_delete : Token
tok_delete = 50

abbrev pub tok_assembly_assign : Token
tok_assembly_assign = 51

abbrev pub tok_abstract : Token
tok_abstract = 52

abbrev pub tok_anonymous : Token
tok_anonymous = 53

abbrev pub tok_as : Token
tok_as = 54

abbrev pub tok_assembly : Token
tok_assembly = 55

abbrev pub tok_break : Token
tok_break = 56

abbrev pub tok_catch : Token
tok_catch = 57

abbrev pub tok_constant : Token
tok_constant = 58

abbrev pub tok_constructor : Token
tok_constructor = 59

abbrev pub tok_continue : Token
tok_continue = 60

abbrev pub tok_contract : Token
tok_contract = 61

abbrev pub tok_do : Token
tok_do = 62

abbrev pub tok_else : Token
tok_else = 63

abbrev pub tok_enum : Token
tok_enum = 64

abbrev pub tok_emit : Token
tok_emit = 65

abbrev pub tok_send : Token
tok_send = 66

abbrev pub tok_event : Token
tok_event = 67

abbrev pub tok_external : Token
tok_external = 68

abbrev pub tok_fallback : Token
tok_fallback = 69

abbrev pub tok_for : Token
tok_for = 70

abbrev pub tok_function : Token
tok_function = 71

abbrev pub tok_hex : Token
tok_hex = 72

abbrev pub tok_if : Token
tok_if = 73

abbrev pub tok_indexed : Token
tok_indexed = 74

abbrev pub tok_interface : Token
tok_interface = 75

abbrev pub tok_internal : Token
tok_internal = 76

abbrev pub tok_immutable : Token
tok_immutable = 77

abbrev pub tok_import : Token
tok_import = 78

abbrev pub tok_is : Token
tok_is = 79

abbrev pub tok_library : Token
tok_library = 80

abbrev pub tok_mapping : Token
tok_mapping = 81

abbrev pub tok_memory : Token
tok_memory = 82

abbrev pub tok_modifier : Token
tok_modifier = 83

abbrev pub tok_new : Token
tok_new = 84

abbrev pub tok_override : Token
tok_override = 85

abbrev pub tok_payable : Token
tok_payable = 86

abbrev pub tok_public : Token
tok_public = 87

abbrev pub tok_pragma : Token
tok_pragma = 88

abbrev pub tok_private : Token
tok_private = 89

abbrev pub tok_pure : Token
tok_pure = 90

abbrev pub tok_receive : Token
tok_receive = 91

abbrev pub tok_return : Token
tok_return = 92

abbrev pub tok_returns : Token
tok_returns = 93

abbrev pub tok_storage : Token
tok_storage = 94

abbrev pub tok_call_data : Token
tok_call_data = 95

abbrev pub tok_struct : Token
tok_struct = 96

abbrev pub tok_throw : Token
tok_throw = 97

abbrev pub tok_try : Token
tok_try = 98

abbrev pub tok_type : Token
tok_type = 99

abbrev pub tok_unchecked : Token
tok_unchecked = 100

abbrev pub tok_unicode : Token
tok_unicode = 101

abbrev pub tok_using : Token
tok_using = 102

abbrev pub tok_view : Token
tok_view = 103

abbrev pub tok_virtual : Token
tok_virtual = 104

abbrev pub tok_while : Token
tok_while = 105

abbrev pub tok_sub_wei : Token
tok_sub_wei = 106

abbrev pub tok_sub_gwei : Token
tok_sub_gwei = 107

abbrev pub tok_sub_ether : Token
tok_sub_ether = 108

abbrev pub tok_sub_second : Token
tok_sub_second = 109

abbrev pub tok_sub_minute : Token
tok_sub_minute = 110

abbrev pub tok_sub_hour : Token
tok_sub_hour = 111

abbrev pub tok_sub_day : Token
tok_sub_day = 112

abbrev pub tok_sub_week : Token
tok_sub_week = 113

abbrev pub tok_sub_year : Token
tok_sub_year = 114

abbrev pub tok_sub_attov : Token
tok_sub_attov = 115

abbrev pub tok_sub_vite : Token
tok_sub_vite = 116

abbrev pub tok_int : Token
tok_int = 117

abbrev pub tok_u_int : Token
tok_u_int = 118

abbrev pub tok_bytes : Token
tok_bytes = 119

abbrev pub tok_string : Token
tok_string = 120

abbrev pub tok_address : Token
tok_address = 121

abbrev pub tok_bool : Token
tok_bool = 122

abbrev pub tok_fixed : Token
tok_fixed = 123

abbrev pub tok_u_fixed : Token
tok_u_fixed = 124

abbrev pub tok_int_m : Token
tok_int_m = 125

abbrev pub tok_u_int_m : Token
tok_u_int_m = 126

abbrev pub tok_bytes_m : Token
tok_bytes_m = 127

abbrev pub tok_fixed_mx_n : Token
tok_fixed_mx_n = 128

abbrev pub tok_u_fixed_mx_n : Token
tok_u_fixed_mx_n = 129

abbrev pub tok_token_id : Token
tok_token_id = 130

abbrev pub tok_types_end : Token
tok_types_end = 131

abbrev pub tok_true_literal : Token
tok_true_literal = 132

abbrev pub tok_false_literal : Token
tok_false_literal = 133

abbrev pub tok_number : Token
tok_number = 134

abbrev pub tok_string_literal : Token
tok_string_literal = 135

abbrev pub tok_unicode_string_literal : Token
tok_unicode_string_literal = 136

abbrev pub tok_hex_string_literal : Token
tok_hex_string_literal = 137

abbrev pub tok_comment_literal : Token
tok_comment_literal = 138

abbrev pub tok_identifier : Token
tok_identifier = 139

abbrev pub tok_after : Token
tok_after = 140

abbrev pub tok_alias : Token
tok_alias = 141

abbrev pub tok_apply : Token
tok_apply = 142

abbrev pub tok_auto : Token
tok_auto = 143

abbrev pub tok_byte : Token
tok_byte = 144

abbrev pub tok_case : Token
tok_case = 145

abbrev pub tok_copy_of : Token
tok_copy_of = 146

abbrev pub tok_default : Token
tok_default = 147

abbrev pub tok_define : Token
tok_define = 148

abbrev pub tok_final : Token
tok_final = 149

abbrev pub tok_implements : Token
tok_implements = 150

abbrev pub tok_in : Token
tok_in = 151

abbrev pub tok_inline : Token
tok_inline = 152

abbrev pub tok_let : Token
tok_let = 153

abbrev pub tok_macro : Token
tok_macro = 154

abbrev pub tok_match : Token
tok_match = 155

abbrev pub tok_mutable : Token
tok_mutable = 156

abbrev pub tok_null_literal : Token
tok_null_literal = 157

abbrev pub tok_of : Token
tok_of = 158

abbrev pub tok_partial : Token
tok_partial = 159

abbrev pub tok_promise : Token
tok_promise = 160

abbrev pub tok_reference : Token
tok_reference = 161

abbrev pub tok_relocatable : Token
tok_relocatable = 162

abbrev pub tok_sealed : Token
tok_sealed = 163

abbrev pub tok_sizeof : Token
tok_sizeof = 164

abbrev pub tok_static : Token
tok_static = 165

abbrev pub tok_supports : Token
tok_supports = 166

abbrev pub tok_switch : Token
tok_switch = 167

abbrev pub tok_typedef : Token
tok_typedef = 168

abbrev pub tok_type_of : Token
tok_type_of = 169

abbrev pub tok_var : Token
tok_var = 170

abbrev pub tok_async : Token
tok_async = 171

abbrev pub tok_await : Token
tok_await = 172

abbrev pub tok_leave : Token
tok_leave = 173

abbrev pub tok_illegal : Token
tok_illegal = 174

abbrev pub tok_whitespace : Token
tok_whitespace = 175

abbrev pub num_tokens : ℕ
num_tokens = 176
