-- ===== src/CommonData/Hex/Laws.antt =====
-- `toHex` followed by `fromHex`, of libsolutil/CommonData.cpp.
use jules_solidity_pppascal.Common.{
  Bool-cases, inl, inr, drop, ==_iff, ℕ, ◌+◌, ◌*◌, ◌/◌, ◌%◌, ◌<◌, Bool, true, false, List, [], ◌∷◌,
  ◌++◌, Option, none, some, ◌==◌, if◌then◌else◌, length, Result, ok, err, arith, All, ◌≡◌, refl,
  append_assoc, append-nil, ◌∙◌, ap,
}
use jules_solidity_pppascal.Common.Bits.{all_below, all_below_sound}
use jules_solidity_pppascal.CommonData.Endian.{IsByte}
use jules_solidity_pppascal.CommonData.Hex.{
  WhenError, dont_throw, throw, dont_add, add, HexCase, lower, upper, mixed, hex_pair, chars_for,
  to_hex_loop, to_hex, char_from_hex, from_hex_loop, lower_hex_chars, upper_hex_chars, char_at,
  prefix_size, HexPrefix, from_hex,
}

is_digit : Result (Option ℕ) → ℕ → Bool
is_digit (ok (some e)) d = e == d
is_digit (ok none) d = false
is_digit (err e) d = false

is_digit-eq : (r : Result (Option ℕ)) (d : ℕ) → is_digit r d ≡ true → r ≡ ok (some d)
unfolding is_digit
is_digit-eq (ok (some e)) d h = ground arith
is_digit-eq (ok none) d h = cc
is_digit-eq (err e) d h = cc

-- Each digit of an alphabet is read back.
Readable : List ℕ → Type 0
Readable chars =
    (when : WhenError) (d : ℕ) → d < 16 → char_from_hex (char_at chars d) when ≡ ok (some d)

lower-Readable : Readable lower_hex_chars
unfolding Readable all_below is_digit char_from_hex
lower-Readable throw d h = is_digit-eq _ d (
    all_below_sound 16 (λ d. is_digit (char_from_hex (char_at lower_hex_chars d) throw) d) d refl h)
lower-Readable dont_throw d h = is_digit-eq _ d (
    all_below_sound 16 (λ d. is_digit (char_from_hex (char_at lower_hex_chars d) dont_throw) d) d
      refl h)

upper-Readable : Readable upper_hex_chars
unfolding Readable all_below is_digit char_from_hex
upper-Readable throw d h = is_digit-eq _ d (
    all_below_sound 16 (λ d. is_digit (char_from_hex (char_at upper_hex_chars d) throw) d) d refl h)
upper-Readable dont_throw d h = is_digit-eq _ d (
    all_below_sound 16 (λ d. is_digit (char_from_hex (char_at upper_hex_chars d) dont_throw) d) d
      refl h)

chars_for-Readable : (case : HexCase) (rix : ℕ) → Readable (chars_for case rix)
chars_for-Readable lower rix = lower-Readable
chars_for-Readable upper rix = upper-Readable
chars_for-Readable mixed rix = choice (rix / 2 % 2 == 0)
  where
    choice : (b : Bool) → Readable (if b then lower_hex_chars else upper_hex_chars)
    choice true = lower-Readable
    choice false = upper-Readable

-- One round of the loop reads the two characters of one byte.
read_pair :
    (chars ret : List ℕ) (b : ℕ) (rest : List ℕ) (when : WhenError)
    → Readable chars
    → b < 256
    → from_hex_loop ret (hex_pair chars b ++ rest) when ≡ from_hex_loop (ret ++ b ∷ []) rest when
unfolding from_hex_loop hex_pair Readable
read_pair chars ret b rest when r hb =
    rw (r when (b / 16 % 16) (omega arith), r when (b % 16) (omega arith))
      (ap (λ (t : ℕ). from_hex_loop (ret ++ t ∷ []) rest when) (omega arith))

read-All :
    (case : HexCase) (bytes ret : List ℕ) (when : WhenError)
    → All IsByte bytes
    → from_hex_loop ret (to_hex_loop case bytes) when ≡ ok (ret ++ bytes)
unfolding to_hex_loop
read-All case [] ret when h = unfold from_hex_loop in rw append-nil
read-All case (b ∷ bytes) ret when (hb, h) =
    read_pair (chars_for case (length bytes)) ret b (to_hex_loop case bytes) when
      (chars_for-Readable case (length bytes)) hb
    ∙ read-All case bytes (ret ++ b ∷ []) when h
    ∙ ap ok (append_assoc ret (b ∷ []) bytes)

length-to_hex_loop :
    (case : HexCase) (bytes : List ℕ) → length (to_hex_loop case bytes) ≡ 2 * length bytes
unfolding to_hex_loop hex_pair
length-to_hex_loop case [] = refl
length-to_hex_loop case (b ∷ bytes) = omega (arith, length-to_hex_loop case bytes)

-- The text fills the buffer that the source reserves for it.
pub length-to_hex :
    (bytes : List ℕ) (case : HexCase)
    → (length (to_hex bytes dont_add case) ≡ length bytes * 2)
      × (length (to_hex bytes add case) ≡ length bytes * 2 + 2)
unfolding to_hex
length-to_hex bytes case = omega (arith, length-to_hex_loop case bytes)

digit-ne-x : (chars : List ℕ) (d : ℕ) → Readable chars → d < 16 → (char_at chars d == b'x') ≡ false
unfolding Readable char_from_hex
digit-ne-x chars d r h = elim (Bool-cases (char_at chars d == b'x')) [
  | inl e ↦ cc (rw ((==_iff (char_at chars d) b'x').0 e) at (r throw d h))
  | inr e ↦ e
]

-- Hexadecimal digits are never taken for the prefix.
prefix_size-to_hex_loop :
    (case : HexCase) (bytes : List ℕ) → All IsByte bytes → prefix_size (to_hex_loop case bytes) ≡ 0
unfolding prefix_size to_hex_loop hex_pair
prefix_size-to_hex_loop case [] h = refl
prefix_size-to_hex_loop case (b ∷ bytes) (hb, h) = ground (
  arith,
  digit-ne-x (chars_for case (length bytes)) (b % 16) (chars_for-Readable case (length bytes)),
)

pub from_hex-even :
    (s : List ℕ) (when : WhenError)
    → length s % 2 ≡ 0
    → from_hex s when ≡ from_hex_loop [] (drop (prefix_size s) s) when
unfolding from_hex
from_hex-even [] when h = unfold from_hex_loop prefix_size in refl
from_hex-even (c ∷ s) when h = rw h

-- Bytes are read back from their text, in every case, with the prefix and without, whatever
-- is asked for bad characters.
pub from_hex-to_hex :
    (bytes : List ℕ) (pre : HexPrefix) (case : HexCase) (when : WhenError)
    → All IsByte bytes
    → from_hex (to_hex bytes pre case) when ≡ ok bytes
unfolding to_hex
from_hex-to_hex bytes dont_add case when h =
    from_hex-even (to_hex_loop case bytes) when (omega (arith, length-to_hex_loop case bytes))
    ∙ rw (prefix_size-to_hex_loop case bytes h) (read-All case bytes [] when h)
from_hex-to_hex bytes add case when h =
    from_hex-even (b'0' ∷ b'x' ∷ to_hex_loop case bytes) when
      (omega (arith, length-to_hex_loop case bytes))
    ∙ unfold prefix_size in (read-All case bytes [] when h)

digit-ne-nul : (chars : List ℕ) (d : ℕ) → Readable chars → d < 16 → 0 < char_at chars d
unfolding Readable char_from_hex
digit-ne-nul chars d r h = elim (Bool-cases (char_at chars d == 0)) [
  | inl e ↦ cc (rw ((==_iff (char_at chars d) 0).0 e) at (r throw d h))
  | inr e ↦ ground arith
]

-- No character of the text is NUL.
pub to_hex-All :
    (bytes : List ℕ) (case : HexCase)
    → All IsByte bytes
    → All (λ c. 0 < c) (to_hex bytes dont_add case)
unfolding to_hex to_hex_loop hex_pair
to_hex-All [] case h = tt
to_hex-All (b ∷ bytes) case (hb, h) =
    let readable = chars_for-Readable case (length bytes) in
    (
      digit-ne-nul (chars_for case (length bytes)) (b / 16 % 16) readable (omega arith),
      (
        digit-ne-nul (chars_for case (length bytes)) (b % 16) readable (omega arith),
        to_hex-All bytes case h,
      ),
    )
