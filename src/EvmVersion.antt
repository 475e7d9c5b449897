-- ===== src/EvmVersion.antt =====
-- The versions of the virtual machine: liblangutil/EVMVersion.h and liblangutil/EVMVersion.cpp.
pub mod Laws
use Prim.Native.Nat.{ℕ}
use jules_solidity_pppascal.Common.{
  List, Bool, ◌∷◌, ◌==◌, if◌then◌else◌, ltb, Option, not, ◌||◌, [], none, some, true,
}
use jules_solidity_pppascal.Common.Text.{eq_text, codes}
use jules_solidity_pppascal.Instruction.Opcode.{Instruction}
use jules_solidity_pppascal.Instruction.Opcode

pub data Version : Type 0 where
  homestead tangerine_whistle spurious_dragon byzantium : Version
  constantinople petersburg istanbul berlin : Version

-- The values of the enumeration, by which versions are compared.
unfoldable pub version_number : Version → ℕ
version_number homestead = 0
version_number tangerine_whistle = 1
version_number spurious_dragon = 2
version_number byzantium = 3
version_number constantinople = 4
version_number petersburg = 5
version_number istanbul = 6
version_number berlin = 7

abbrev pub default_version : Version
default_version = istanbul

-- operator== and operator<, and operator>= that follows from it.
unfoldable pub eq_version : Version → Version → Bool
unfolding version_number
eq_version v w = version_number v == version_number w

unfoldable pub less_version : Version → Version → Bool
unfolding version_number
less_version v w = ltb (version_number v) (version_number w)

abbrev pub at_least : Version → Version → Bool
at_least v w = not (less_version v w)

unfoldable pub version_name : Version → List ℕ
version_name homestead = codes "homestead"
version_name tangerine_whistle = codes "tangerineWhistle"
version_name spurious_dragon = codes "spuriousDragon"
version_name byzantium = codes "byzantium"
version_name constantinople = codes "constantinople"
version_name petersburg = codes "petersburg"
version_name istanbul = codes "istanbul"
version_name berlin = codes "berlin"

all_versions : List Version
all_versions =
    homestead ∷ tangerine_whistle ∷ spurious_dragon ∷ byzantium ∷ constantinople ∷ petersburg
    ∷ istanbul ∷ berlin ∷ []

-- The `for` loop of fromString.
find_version : List ℕ → List Version → Option Version
unfolding version_name eq_text
find_version text [] = none
find_version text (v ∷ versions) =
    if eq_text text (version_name v) then some v else find_version text versions

unfoldable pub from_string : List ℕ → Option Version
unfolding find_version all_versions
from_string text = find_version text all_versions

unfoldable pub supports_returndata : Version → Bool
unfolding less_version
supports_returndata v = at_least v byzantium

unfoldable pub has_static_call : Version → Bool
unfolding less_version
has_static_call v = at_least v byzantium

unfoldable pub has_bitwise_shifting : Version → Bool
unfolding less_version
has_bitwise_shifting v = at_least v constantinople

unfoldable pub has_create2 : Version → Bool
unfolding less_version
has_create2 v = at_least v constantinople

unfoldable pub has_ext_code_hash : Version → Bool
unfolding less_version
has_ext_code_hash v = at_least v constantinople

unfoldable pub has_chain_id : Version → Bool
unfolding less_version
has_chain_id v = at_least v istanbul

unfoldable pub has_self_balance : Version → Bool
unfolding less_version
has_self_balance v = at_least v istanbul

unfoldable pub can_overcharge_gas_for_call : Version → Bool
unfolding less_version
can_overcharge_gas_for_call v = at_least v tangerine_whistle

-- hasOpcode
unfoldable pub has_opcode : Version → Instruction → Bool
unfolding supports_returndata has_static_call has_bitwise_shifting has_create2 has_ext_code_hash
    has_chain_id has_self_balance
has_opcode v inst =
    if inst == Opcode.returndatacopy || inst == Opcode.returndatasize
    then supports_returndata v
    else if inst == Opcode.staticcall
    then has_static_call v
    else if inst == Opcode.shl || inst == Opcode.shr || inst == Opcode.sar
    then has_bitwise_shifting v
    else if inst == Opcode.create2
    then has_create2 v
    else if inst == Opcode.extcodehash
    then has_ext_code_hash v
    else if inst == Opcode.chainid
    then has_chain_id v
    else if inst == Opcode.selfbalance
    then has_self_balance v
    else true
