-- ===== src/Examples/Texts.antt =====
-- The theorems on checksums and on the names of versions at concrete inputs.
use jules_solidity_pppascal.EvmVersion.{
  version_name, berlin, has_opcode, from_string, less_version, constantinople,
}
use jules_solidity_pppascal.CommonData.Vite.{
  checksum, passes_vite_address_checksum, get_vite_address_hex, complement,
}
use jules_solidity_pppascal.EvmVersion.Laws.{from_string-version_name, has_opcode_later}
use jules_solidity_pppascal.CommonData.Vite.Laws.{
  passes_vite_address-to_hex, checksum-to_hex, answer,
}
use jules_solidity_pppascal.CommonData.Hex.{to_hex, prefix_size, lower, dont_add}
use jules_solidity_pppascal.Common.Text.{codes, eq_text}
use jules_solidity_pppascal.CommonData.Vite.Unreadable.{passes_vite_address_unreadable}
use jules_solidity_pppascal.CommonData.Endian.{IsByte}
use Prim.Native.Nat.{ℕ, suc}
use jules_solidity_pppascal.Common.{
  List, ◌∷◌, ◌++◌, ◌≡◌, ok, [], replicate, ◌<◌, true, some, ◌↔◌, ◌||◌, refl, All, arith, map, zero,
}
use jules_solidity_pppascal.Instruction.Opcode

-- A stand-in for the hash function.
abbrev sevens : ℕ → List ℕ → List ℕ
sevens size bytes = replicate size 7

checksum-to_hex_example :
    checksum sevens (to_hex (1 ∷ []) dont_add lower) (to_hex (7 ∷ 7 ∷ []) dont_add lower)
    ≡ ok (answer (7 ∷ 7 ∷ []) (sevens 2 (1 ∷ [])))
checksum-to_hex_example =
    checksum-to_hex sevens (1 ∷ []) (7 ∷ 7 ∷ []) lower (omega arith, tt)
      (omega arith, (omega arith, tt)) (omega arith) refl

abbrev zeros : List ℕ
zeros = replicate 20 0

replicate-All : (n b : ℕ) → b < 256 → All IsByte (replicate n b)
replicate-All zero b h = tt
replicate-All (suc n) b h = (h, replicate-All n b h)

passes_vite_address-to_hex_example :
    passes_vite_address_checksum sevens
      (codes "vite_" ++ (to_hex zeros dont_add lower ++ to_hex (replicate 5 7) dont_add lower))
    ≡ ok (
        eq_text (replicate 5 7) (sevens 5 zeros)
        || eq_text (replicate 5 7) (map complement (sevens 5 zeros)))
passes_vite_address-to_hex_example =
    passes_vite_address-to_hex sevens (codes "vite_") zeros (replicate 5 7) lower refl refl refl
      (replicate-All 20 0 (omega arith)) (replicate-All 5 7 (omega arith)) refl

earlier : less_version constantinople berlin ≡ true
unfolding less_version
earlier = refl

there : has_opcode constantinople Opcode.shl ≡ true
unfolding has_opcode
there = refl

has_opcode_later_example : has_opcode berlin Opcode.shl ≡ true
has_opcode_later_example = has_opcode_later constantinople berlin Opcode.shl earlier there

from_string-version_name_example :
    (from_string (codes "berlin") ≡ some berlin) ↔ (codes "berlin" ≡ version_name berlin)
from_string-version_name_example = from_string-version_name (codes "berlin") berlin

abbrev bad_text : List ℕ
bad_text = codes "0000z00000"

passes_vite_address_unreadable_example :
    (passes_vite_address_checksum sevens
        (codes "vite_" ++ (to_hex zeros dont_add lower ++ bad_text))
      ≡ ok true)
    × (get_vite_address_hex sevens (codes "vite_" ++ (to_hex zeros dont_add lower ++ bad_text))
        ≡ ok (codes "0x" ++ to_hex zeros dont_add lower ++ codes "00"))
unfolding prefix_size
passes_vite_address_unreadable_example =
    passes_vite_address_unreadable sevens (codes "vite_") zeros bad_text lower refl refl refl
      (replicate-All 20 0 (omega arith))
      (
        omega arith,
        (
          omega arith,
          (
            omega arith,
            (
              omega arith,
              (
                omega arith,
                (omega arith, (omega arith, (omega arith, (omega arith, (omega arith, tt))))),
              ),
            ),
          ),
        ),
      )
      refl
