-- ===== src/CommonData/Hex.antt =====
-- Hexadecimal text: `toHex` and `fromHex` of libsolutil/CommonData.cpp.
pub mod Laws
use jules_solidity_pppascal.Common.{
  ℕ, zero, suc, ◌+◌, ◌-◌, ◌*◌, ◌/◌, ◌%◌, Bool, true, false, ◌&&◌, List, [], ◌∷◌, ◌++◌, Option, none,
  some, ltb, leb, ◌==◌, if◌then◌else◌, length, drop, get_elem?, Result, ok, err, Error, ◌>>=◌,
  bad_hex_case, bad_hex_character, undefined,
}
use jules_solidity_pppascal.Common.Text.{codes}

pub data WhenError : Type 0 where
  dont_throw throw : WhenError

pub data HexPrefix : Type 0 where
  dont_add add : HexPrefix

pub data HexCase : Type 0 where
  lower upper mixed : HexCase

abbrev upper_hex_chars : List ℕ
upper_hex_chars = codes "0123456789ABCDEF"

abbrev lower_hex_chars : List ℕ
lower_hex_chars = codes "0123456789abcdef"

-- `_case == HexCase::Upper ? upperHexChars : lowerHexChars`
abbrev chars_of : HexCase → List ℕ
chars_of upper = upper_hex_chars
chars_of _ = lower_hex_chars

-- chars[d]
abbrev char_at : List ℕ → ℕ → ℕ
char_at chars d = elim (get_elem? chars d) [ some c ↦ c | none ↦ 0 ]

-- The two characters of a byte.
unfoldable pub hex_pair : List ℕ → ℕ → List ℕ
hex_pair chars b = char_at chars (b / 16 % 16) ∷ char_at chars (b % 16) ∷ []

-- toHex(uint8_t, HexCase)
unfoldable pub byte_to_hex : ℕ → HexCase → Result (List ℕ)
unfolding hex_pair
byte_to_hex b mixed = err bad_hex_case
byte_to_hex b case = ok (hex_pair (chars_of case) b)

-- The case of one byte of a series, by the number `rix` of bytes behind it: in mixed case it
-- switches every two bytes.
abbrev chars_for : HexCase → ℕ → List ℕ
chars_for mixed rix = if rix / 2 % 2 == 0 then lower_hex_chars else upper_hex_chars
chars_for case rix = chars_of case

to_hex_loop : HexCase → List ℕ → List ℕ
unfolding hex_pair
to_hex_loop case [] = []
to_hex_loop case (c ∷ rest) = hex_pair (chars_for case (length rest)) c ++ to_hex_loop case rest

-- toHex(bytes, HexPrefix, HexCase). The source sizes its buffer before it fills it, and asserts at the
-- end that the two agree.
unfoldable pub to_hex : List ℕ → HexPrefix → HexCase → List ℕ
unfolding to_hex_loop
to_hex bytes add case = b'0' ∷ b'x' ∷ to_hex_loop case bytes
to_hex bytes dont_add case = to_hex_loop case bytes

-- fromHex(char, WhenError), with `none` for -1.
unfoldable pub char_from_hex : ℕ → WhenError → Result (Option ℕ)
char_from_hex c when =
    if leb b'0' c && leb c b'9'
    then ok (some (c - b'0'))
    else if leb b'a' c && leb c b'f'
    then ok (some (c - b'a' + 10))
    else if leb b'A' c && leb c b'F'
    then ok (some (c - b'A' + 10))
    else elim when [ throw ↦ err bad_hex_character | dont_throw ↦ ok none ]

-- The body of the `for` loop: two characters, or nothing if one of them is bad.
abbrev join_nibbles : Option ℕ → Option ℕ → Option ℕ
join_nibbles (some h) (some l) = some ((h * 16 + l) % 256)
join_nibbles _ _ = none

-- The `for` loop over what is left of the text. The text has even length here, so the last
-- character has a partner (the middle clause is never reached).
unfoldable pub from_hex_loop : List ℕ → List ℕ → WhenError → Result (List ℕ)
unfolding char_from_hex
from_hex_loop ret [] when = ok ret
from_hex_loop ret (c ∷ []) when = err undefined
from_hex_loop ret (c ∷ d ∷ rest) when = do
  h ← char_from_hex c when
  l ← char_from_hex d when
  elim (join_nibbles h l) [ some b ↦ from_hex_loop (ret ++ b ∷ []) rest when | none ↦ ok [] ]

-- An odd text starts with a byte of one character.
from_hex_odd : List ℕ → WhenError → Result (List ℕ)
unfolding from_hex_loop
from_hex_odd [] when = err undefined
from_hex_odd (c ∷ rest) when = do
  h ← char_from_hex c when
  elim h [ some b ↦ from_hex_loop (b % 256 ∷ []) rest when | none ↦ ok [] ]

-- `s`, the number of characters that the prefix takes.
unfoldable pub prefix_size : List ℕ → ℕ
prefix_size (c ∷ d ∷ rest) = if c == b'0' && d == b'x' then 2 else 0
prefix_size _ = 0

-- fromHex(string, WhenError)
unfoldable pub from_hex : List ℕ → WhenError → Result (List ℕ)
unfolding from_hex_odd prefix_size
from_hex [] when = ok []
from_hex (c ∷ s) when =
    let body = drop (prefix_size (c ∷ s)) (c ∷ s) in
    if length (c ∷ s) % 2 == 0 then from_hex_loop [] body when else from_hex_odd body when
