-- ===== src/CommonData/Vite/Unreadable.antt =====
-- Addresses with a checksum that cannot be read: libsolutil/CommonData.cpp.
use jules_solidity_pppascal.Common.{
  ◌≡◌, length, false, true, ok, ◌*◌, All, suc, some, none, arith, all, Bool-cases, ◌<◌, leb, drop,
  ◌&&◌, ◌++◌, [], inl, ◌∷◌, ◌-◌, Bool, if◌then◌else◌, inr, ◌+◌, refl, ◌%◌, ◌∙◌, ap, sym, zero, ◌==◌,
}
use jules_solidity_pppascal.Common.Int.{pos}
use jules_solidity_pppascal.Common.Text.{codes}
use jules_solidity_pppascal.CommonData.Endian.{IsByte}
use jules_solidity_pppascal.CommonData.Hex.{
  prefix_size, char_from_hex, HexCase, from_hex, to_hex, dont_throw, dont_add, from_hex_loop,
}
use jules_solidity_pppascal.CommonData.Hex.Laws.{from_hex-to_hex, length-to_hex, from_hex-even}
use jules_solidity_pppascal.CommonData.Vite.{
  is_hex_digit, passes_vite_address_checksum, checksum, get_vite_address_hex, ℕ, List, is_zero,
  postfix_of,
}
use jules_solidity_pppascal.CommonData.Vite.Laws.{
  hex-c_string, parts, checksum_unreadable, c_string_whole,
}

bad_digit : (c : ℕ) → is_hex_digit c ≡ false → char_from_hex c dont_throw ≡ ok none
unfolding char_from_hex
bad_digit c h = ground (arith, h)

good_digit : (c : ℕ) → is_hex_digit c ≡ true → (n : ℕ) × (char_from_hex c dont_throw ≡ ok (some n))
unfolding char_from_hex
good_digit c h = elim (Bool-cases (leb b'0' c && leb c b'9')) [
  | inl first ↦ (c - b'0', rw first refl)
  | inr other ↦ (elim (Bool-cases (leb b'a' c && leb c b'f')) [
    | inl second ↦ (c - b'a' + 10, rw (other, second) refl)
    | inr neither ↦ (c - b'A' + 10, ground (arith, h, other, neither))
  ])
]

-- The two characters of a round, one of them bad.
bad_pair :
    (c d : ℕ) (rest ret : List ℕ)
    → (is_hex_digit c && is_hex_digit d) ≡ false
    → from_hex_loop ret (c ∷ d ∷ rest) dont_throw ≡ ok []
unfolding from_hex_loop
bad_pair c d rest ret h = elim (Bool-cases (is_hex_digit c)) [
  | inr bad ↦ (elim (Bool-cases (is_hex_digit d)) [
    | inr bad' ↦ rw (bad_digit c bad, bad_digit d bad') refl
    | inl good' ↦ (let (l, low) = good_digit d good' in rw (bad_digit c bad, low) refl)
  ])
  | inl good ↦
      (let (n, high) = good_digit c good in
        rw (high, bad_digit d (ap (λ b. b && is_hex_digit d) (sym good) ∙ h)) refl)
]

loop_unreadable :
    (k : ℕ) (s ret : List ℕ)
    → length s ≡ 2 * k
    → all is_hex_digit s ≡ false
    → from_hex_loop ret s dont_throw ≡ ok []
unfolding from_hex_loop
loop_unreadable k [] ret size h = cc
loop_unreadable k (c ∷ []) ret size h = absurd (omega (arith, size))
loop_unreadable zero (c ∷ d ∷ rest) ret size h = absurd (omega (arith, size))
loop_unreadable (suc k) (c ∷ d ∷ rest) ret size h =
    elim (Bool-cases (is_hex_digit c && is_hex_digit d)) [
      | inr bad ↦ bad_pair c d rest ret bad
      | inl good ↦
          (let (first, second) = both (is_hex_digit c) (is_hex_digit d) good in
            let (n, high) = good_digit c first in
            let (l, low) = good_digit d second in
            rw (high, low)
              (loop_unreadable k rest (ret ++ (n * 16 + l) % 256 ∷ []) (omega (arith, size))
                (rw (first, second) at h)))
    ]
  where
    both : (a b : Bool) → (a && b) ≡ true → (a ≡ true) × (b ≡ true)
    both true b h = (refl, h)
    both false b h = cc

-- A text of even length with a character behind the prefix that is no digit is read as no bytes.
from_hex_unreadable :
    (k : ℕ) (s : List ℕ)
    → length s ≡ 2 * suc k
    → all is_hex_digit (drop (prefix_size s) s) ≡ false
    → from_hex s dont_throw ≡ ok []
unfolding prefix_size
from_hex_unreadable k [] size h = absurd (omega (arith, size))
from_hex_unreadable k (c ∷ []) size h = absurd (omega (arith, size))
from_hex_unreadable k (c ∷ d ∷ rest) size h =
    from_hex-even (c ∷ d ∷ rest) dont_throw (omega (arith, size))
    ∙ by_prefix (c == b'0' && d == b'x') h
  where
    by_prefix :
        (b : Bool)
        → all is_hex_digit (drop (if b then 2 else 0) (c ∷ d ∷ rest)) ≡ false
        → from_hex_loop [] (drop (if b then 2 else 0) (c ∷ d ∷ rest)) dont_throw ≡ ok []
    by_prefix true h = loop_unreadable k rest [] (omega (arith, size)) h
    by_prefix false h = loop_unreadable (suc k) (c ∷ d ∷ rest) [] size h

module _ (blake2b : ℕ → List ℕ → List ℕ) where
  -- An address is five characters, the 20 bytes of the value in hexadecimal and ten characters of
  -- checksum. If one of these ten, none of them NUL, is no hexadecimal digit, apart from the prefix
  -- 0x, the address passes whatever the hash is, and is taken for one of the first kind, which ends
  -- in 00.
  pub passes_vite_address_unreadable :
      (scheme value bad : List ℕ) (case : HexCase)
      → length scheme ≡ 5
      → length value ≡ 20
      → length bad ≡ 10
      → All IsByte value
      → All (λ c. 0 < c) bad
      → all is_hex_digit (drop (prefix_size bad) bad) ≡ false
      → (passes_vite_address_checksum blake2b (scheme ++ (to_hex value dont_add case ++ bad))
          ≡ ok true)
        × (get_vite_address_hex blake2b (scheme ++ (to_hex value dont_add case ++ bad))
            ≡ ok (codes "0x" ++ to_hex value dont_add case ++ codes "00"))
  unfolding passes_vite_address_checksum get_vite_address_hex is_zero postfix_of
  passes_vite_address_unreadable scheme value bad case ls lv lb hv written unread =
      let (h, c, whole) =
        parts scheme (to_hex value dont_add case) bad 5 40 10 ls
          (omega (arith, lv, length-to_hex value case)) lb in
      let answered : checksum blake2b (to_hex value dont_add case) bad ≡ ok (pos 1) =
        checksum_unreadable blake2b (to_hex value dont_add case) bad value
          (rw (hex-c_string value case hv) (from_hex-to_hex value dont_add case dont_throw hv))
          (rw (c_string_whole bad written) (from_hex_unreadable 4 bad lb unread)) in
      (rw (whole, h, c, answered) refl, rw (whole, h, c, answered) refl)
