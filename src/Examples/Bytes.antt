-- ===== src/Examples/Bytes.antt =====
-- The theorems on bytes and hexadecimal text at concrete inputs.
use jules_solidity_pppascal.Common.{◌≤◌, ◌≡◌, ◌∷◌, ◌↔◌, [], arith, ok, ◌^◌, ◌<◌}
use jules_solidity_pppascal.CommonData.Endian.{
  from_big_endian, to_compact_big_endian, bytes_required,
}
use jules_solidity_pppascal.CommonData.Endian.Laws.{
  bytes_required_le, from_big_endian-to_compact_big_endian,
}
use jules_solidity_pppascal.CommonData.Hex.{to_hex, mixed, throw, add, from_hex}
use jules_solidity_pppascal.CommonData.Hex.Laws.{from_hex-to_hex}

from_hex-to_hex_example :
    from_hex (to_hex (0xab ∷ 0x01 ∷ []) add mixed) throw ≡ ok (0xab ∷ 0x01 ∷ [])
from_hex-to_hex_example =
    from_hex-to_hex (0xab ∷ 0x01 ∷ []) add mixed throw (omega arith, (omega arith, tt))

bytes_required_le_example : (bytes_required 300 ≤ 2) ↔ (300 < 256 ^ 2)
bytes_required_le_example = bytes_required_le 300 2

from_big_endian-to_compact_big_endian_example :
    from_big_endian 256 (to_compact_big_endian 300 1) ≡ 300
from_big_endian-to_compact_big_endian_example =
    from_big_endian-to_compact_big_endian 300 1 (omega arith) (omega arith)
