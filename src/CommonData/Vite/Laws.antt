-- ===== src/CommonData/Vite/Laws.antt =====
-- The checksums of addresses and token ids, on texts put together from their parts:
-- libsolutil/CommonData.cpp.
use mathlib.Core.List.{[], ◌∷◌}
use jules_solidity_pppascal.Common.{
  if◌then◌else◌, map, length, ◌≡◌, ◌++◌, ok, ◌&&◌, arith, ◌==◌, ◌∙◌, refl, All, true, false,
  replicate, ◌-◌, sym, ◌<◌, ◌≤◌, le→leb, drop, ◌||◌, ◌+◌, drop-append, take-append, ap, take,
  append-nil, length-append, not, ℕ,
}
use jules_solidity_pppascal.Common.Int.{pos, negsuc, ℤ}
use jules_solidity_pppascal.Common.Text.{eq_text}
use jules_solidity_pppascal.CommonData.Endian.{IsByte}
use jules_solidity_pppascal.CommonData.Endian.Laws.{value}
use jules_solidity_pppascal.CommonData.Hex.{dont_add, to_hex, HexCase, from_hex, dont_throw}
use jules_solidity_pppascal.CommonData.Hex.Laws.{length-to_hex, to_hex-All, from_hex-to_hex}
use jules_solidity_pppascal.CommonData.Vite.{
  complement, c_string, checksum, passes_vite_address_checksum, substr, is_zero, compare_bytes,
  List, Bool,
}

and_true : (b : Bool) → b ≡ (b && true)
and_true true = refl
and_true false = refl

and_assoc : (a b c : Bool) → (a && b && c) ≡ (a && (b && c))
and_assoc true b c = refl
and_assoc false b c = refl

-- The loop compares the bytes with the hash, and with the hash that has all bits inverted.
compare_bytes-eq_text :
    (bytes hash rest : List ℕ) (is_same is_not : Bool)
    → length bytes ≡ length hash
    → compare_bytes bytes (hash ++ rest) is_same is_not
      ≡ ok (is_same && eq_text bytes hash, is_not && eq_text bytes (map complement hash))
unfolding compare_bytes eq_text
compare_bytes-eq_text [] [] rest is_same is_not h = cc (and_true is_same, and_true is_not)
compare_bytes-eq_text [] (b₂ ∷ hash) rest is_same is_not h = absurd (omega arith)
compare_bytes-eq_text (b₁ ∷ bytes) [] rest is_same is_not h = absurd (omega arith)
compare_bytes-eq_text (b₁ ∷ bytes) (b₂ ∷ hash) rest is_same is_not h =
    compare_bytes-eq_text bytes hash rest (is_same && b₁ == b₂) (is_not && b₁ == complement b₂)
      (omega arith)
    ∙ cc (
      and_assoc is_same (b₁ == b₂) (eq_text bytes hash),
      and_assoc is_not (b₁ == complement b₂) (eq_text bytes (map complement hash)),
    )

-- What the checksum should answer for bytes that go with a hash: 1 for the hash itself, -1 for the
-- hash with all bits inverted, 0 for all else.
abbrev pub answer : List ℕ → List ℕ → ℤ
answer bytes hash =
    if eq_text bytes hash
    then pos 1
    else if eq_text bytes (map complement hash)
    then negsuc 0
    else pos 0

pub c_string_whole : (s : List ℕ) → All (λ c. 0 < c) s → c_string s ≡ s
unfolding c_string
c_string_whole [] h = refl
c_string_whole (c ∷ s) (hc, h) = ground (arith, c_string_whole s h)

pub hex-c_string :
    (bytes : List ℕ) (case : HexCase)
    → All IsByte bytes
    → c_string (to_hex bytes dont_add case) ≡ to_hex bytes dont_add case
hex-c_string bytes case h = c_string_whole (to_hex bytes dont_add case) (to_hex-All bytes case h)

-- The parts of a text that is put together from parts of known length.
pub parts :
    (s h c : List ℕ) (n m k : ℕ)
    → length s ≡ n
    → length h ≡ m
    → length c ≡ k
    → (substr 0 m (drop n (s ++ (h ++ c))) ≡ h)
      × (substr m k (drop n (s ++ (h ++ c))) ≡ c)
      × (length (s ++ (h ++ c)) ≡ n + (m + k))
parts s h c n m k es eh ec =
    rw (← es, ← eh, ← ec)
      (
        rw (drop-append s (h ++ c)) (take-append h c),
        rw (drop-append s (h ++ c), drop-append h c)
            (ap (take (length c)) (sym (append-nil c)) ∙ take-append c []),
        omega (arith, length-append s (h ++ c), length-append h c),
      )

module _ (blake2b : ℕ → List ℕ → List ℕ) where
  -- For a value and a checksum of at most 32 bytes that are written in hexadecimal digits, and a
  -- hash function that gives as many bytes as it is asked for: the answer is 1 if the checksum is
  -- the hash of the value, -1 if it is the hash with all bits inverted, and 0 otherwise.
  pub checksum-to_hex :
      (value bytes : List ℕ) (case : HexCase)
      → All IsByte value
      → All IsByte bytes
      → length bytes ≤ 32
      → length (blake2b (length bytes) value) ≡ length bytes
      → checksum blake2b (to_hex value dont_add case) (to_hex bytes dont_add case)
        ≡ ok (answer bytes (blake2b (length bytes) value))
  unfolding checksum
  checksum-to_hex value bytes case hv hb short sized =
      rw
        (
          hex-c_string value case hv,
          hex-c_string bytes case hb,
          from_hex-to_hex value dont_add case dont_throw hv,
          from_hex-to_hex bytes dont_add case dont_throw hb,
          le→leb (length bytes) 32 short,
          compare_bytes-eq_text bytes (blake2b (length bytes) value)
              (replicate (32 - length bytes) 0) true true (sym sized),
        )
        refl

  -- If the value can be read and the text of the checksum is read as no bytes, checksum answers 1.
  pub checksum_unreadable :
      (value bytes data_bytes : List ℕ)
      → from_hex (c_string value) dont_throw ≡ ok data_bytes
      → from_hex (c_string bytes) dont_throw ≡ ok []
      → checksum blake2b value bytes ≡ ok (pos 1)
  unfolding checksum compare_bytes
  checksum_unreadable value bytes data_bytes hv hb = rw (hv, hb) refl

  accepted :
      (same inverted : Bool)
      → ok (not (is_zero blake2b (if same then pos 1 else if inverted then negsuc 0 else pos 0)))
        ≡ ok (same || inverted)
  unfolding is_zero
  accepted true inverted = refl
  accepted false true = refl
  accepted false false = refl

  -- An address is five characters, the 20 bytes of the value and 5 bytes of checksum, these in
  -- hexadecimal. If the hash function gives the 5 bytes that it is asked for, the address passes
  -- exactly when the checksum is the hash of the value, or the hash with all bits inverted.
  pub passes_vite_address-to_hex :
      (scheme value bytes : List ℕ) (case : HexCase)
      → length scheme ≡ 5
      → length value ≡ 20
      → length bytes ≡ 5
      → All IsByte value
      → All IsByte bytes
      → length (blake2b 5 value) ≡ 5
      → passes_vite_address_checksum blake2b
          (scheme ++ (to_hex value dont_add case ++ to_hex bytes dont_add case))
        ≡ ok (eq_text bytes (blake2b 5 value) || eq_text bytes (map complement (blake2b 5 value)))
  unfolding passes_vite_address_checksum
  passes_vite_address-to_hex scheme value bytes case ls lv lb hv hb sized =
      let (h, c, whole) =
        parts scheme (to_hex value dont_add case) (to_hex bytes dont_add case) 5 40 10 ls
          (omega (arith, length-to_hex value case)) (omega (arith, length-to_hex bytes case)) in
      let answered = checksum-to_hex value bytes case hv hb (omega arith) (rw lb (sized)) in
      rw (whole, h, c, answered, lb)
        (accepted (eq_text bytes (blake2b 5 value))
          (eq_text bytes (map complement (blake2b 5 value))))
