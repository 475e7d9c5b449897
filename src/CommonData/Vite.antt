-- ===== src/CommonData/Vite.antt =====
-- Texts that carry a checksum: the addresses and token ids of Vite, in libsolutil/CommonData.cpp.
pub mod Laws
pub mod Unreadable
use jules_solidity_pppascal.Common.Int.{pos, negsuc, is_negative, ℤ}
use jules_solidity_pppascal.Common.Text.{codes}
use jules_solidity_pppascal.CommonData.Hex.{from_hex, dont_throw}
use Prim.Native.Nat.{ℕ}
use jules_solidity_pppascal.Common.{
  List, ◌∷◌, take, Bool, Result, ◌-◌, ok, ◌==◌, if◌then◌else◌, drop, ◌||◌, true, leb, false, ◌>>=◌,
  err, ◌&&◌, length, not, [], is_nil, all, undefined, ◌++◌, replicate, ◌>>◌, assert_throw,
}

-- std::string(char const*): up to the first NUL.
unfoldable pub c_string : List ℕ → List ℕ
c_string [] = []
c_string (c ∷ s) = let rest = c_string s in if c == 0 then [] else c ∷ rest

-- _string.substr(from, size), for `from` within the text.
abbrev pub substr : ℕ → ℕ → List ℕ → List ℕ
substr from size s = take size (drop from s)

abbrev pub complement : ℕ → ℕ
complement b = 255 - b

-- The loop of `checksum` over the bytes of the checksum and of the hash. A read behind the 32 bytes
-- of the hash is undefined.
compare_bytes : List ℕ → List ℕ → Bool → Bool → Result (Bool × Bool)
compare_bytes [] hash is_same is_bitwise_not = ok (is_same, is_bitwise_not)
compare_bytes (b₁ ∷ bytes) [] is_same is_bitwise_not = err undefined
compare_bytes (b₁ ∷ bytes) (b₂ ∷ hash) is_same is_bitwise_not =
    compare_bytes bytes hash (is_same && b₁ == b₂) (is_bitwise_not && b₁ == complement b₂)

-- The hash has 32 bytes; writing more of them is undefined. `blake2b length bytes` are the bytes that blake2b_raw writes for an output of `length` bytes.
module _ (blake2b : ℕ → List ℕ → List ℕ) where
  unfoldable pub checksum : List ℕ → List ℕ → Result ℤ
  unfolding c_string compare_bytes from_hex
  checksum value checksum_text = do
    data_bytes ← from_hex (c_string value) dont_throw
    checksum_bytes ← from_hex (c_string checksum_text) dont_throw
    let size = length checksum_bytes
    assert_throw (leb size 32) undefined
    let hash = blake2b size data_bytes ++ replicate (32 - size) 0
    (is_same, is_bitwise_not) ← compare_bytes checksum_bytes hash true true
    ok (if is_same then pos 1 else if is_bitwise_not then negsuc 0 else pos 0)

  is_zero : ℤ → Bool
  is_zero (pos n) = n == 0
  is_zero _ = false

  unfoldable pub passes_vite_address_checksum : List ℕ → Result Bool
  unfolding checksum is_zero
  passes_vite_address_checksum text = if not (length text == 55) then ok false else (do
    let hex = drop 5 text
    r ← checksum (substr 0 40 hex) (substr 40 10 hex)
    ok (not (is_zero r)))

  unfoldable pub passes_vite_token_id_checksum : List ℕ → Result Bool
  unfolding checksum is_zero
  passes_vite_token_id_checksum text = if not (length text == 28) then ok false else (do
    let hex = drop 4 text
    r ← checksum (substr 0 20 hex) (substr 20 4 hex)
    ok (not (is_zero r)))

  postfix_of : ℤ → List ℕ
  postfix_of address_type = if is_negative address_type then codes "01" else codes "00"

  -- A text that is made from a null pointer is undefined.
  unfoldable pub get_vite_address_hex : List ℕ → Result (List ℕ)
  unfolding checksum is_zero postfix_of
  get_vite_address_hex text = if not (length text == 55) then err undefined else (do
    let hex = drop 5 text
    address_type ← checksum (substr 0 40 hex) (substr 40 10 hex)
    let postfix = postfix_of address_type
    assert_throw (not (is_zero address_type)) undefined
    ok (codes "0x" ++ substr 0 40 hex ++ postfix))

  unfoldable pub get_vite_token_id_hex : List ℕ → Result (List ℕ)
  unfolding checksum is_zero
  get_vite_token_id_hex text = if not (length text == 28) then err undefined else (do
    let hex = drop 4 text
    r ← checksum (substr 0 20 hex) (substr 20 4 hex)
    assert_throw (not (is_zero r)) undefined
    ok (codes "0x" ++ substr 0 20 hex))

-- isValidHex and isValidDecimal
abbrev pub is_decimal_digit : ℕ → Bool
is_decimal_digit c = leb b'0' c && leb c b'9'

abbrev pub is_hex_digit : ℕ → Bool
is_hex_digit c = is_decimal_digit c || (leb b'a' c && leb c b'f') || (leb b'A' c && leb c b'F')

unfoldable pub is_valid_hex : List ℕ → Bool
is_valid_hex (c ∷ d ∷ digits) = c == b'0' && d == b'x' && all is_hex_digit digits
is_valid_hex _ = false

unfoldable pub is_valid_decimal : List ℕ → Bool
is_valid_decimal [] = false
is_valid_decimal (c ∷ digits) =
    is_nil digits && c == b'0' || not (c == b'0') && all is_decimal_digit (c ∷ digits)
