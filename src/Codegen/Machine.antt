-- ===== src/Codegen/Machine.antt =====
-- A reference machine for the code that libsolidity/codegen/CompilerUtils.cpp emits: what the
-- instructions do to the stack, its top first. Words have 256 bits. SHL and SHR are there from the
-- version Constantinople on.
use Prim.Native.Nat.{ℕ, bit_and}
use jules_solidity_pppascal.Common.{
  List, Option, if◌then◌else◌, none, some, ◌∷◌, ◌==◌, leb, [], ◌*◌, ◌&&◌, get_elem?, ◌-◌, ◌%◌, set,
  ◌/◌, ◌+◌, ltb, ◌^◌, Bool, ◌||◌, true,
}
use jules_solidity_pppascal.AssemblyItem.{word_mod, push, AssemblyItem, operation}
use jules_solidity_pppascal.EvmVersion.{constantinople, Version, version_number}
use jules_solidity_pppascal.Instruction.Opcode.{Instruction}
use jules_solidity_pppascal.Instruction.Opcode

unfoldable pub push_of : Option ℕ → List ℕ → Option (List ℕ)
push_of none s = none
push_of (some x) s = some (x ∷ s)

-- The top and the item that many items below it, from 0, are exchanged.
unfoldable pub exchange : ℕ → List ℕ → Option (List ℕ)
exchange n [] = none
exchange n (x ∷ s) = elim (get_elem? s n) [ none ↦ none | some y ↦ some (y ∷ set s n x) ]

-- Bytes 0 to k of a word, read as a signed number.
unfoldable pub sign_extend : ℕ → ℕ → ℕ
sign_extend k x =
    if ltb k 31
    then (if ltb (x % 2 ^ (8 * (k + 1))) (2 ^ (8 * k + 7))
        then x % 2 ^ (8 * (k + 1))
        else x % 2 ^ (8 * (k + 1)) + word_mod - 2 ^ (8 * (k + 1)))
    else x

-- The result for the top of the stack and the item below it.
unfoldable pub binary : Instruction → ℕ → ℕ → Option ℕ
unfolding sign_extend
binary inst a b =
    if inst == Opcode.mul
    then some (a * b % word_mod)
    else if inst == Opcode.div
    then some (if b == 0 then 0 else a / b)
    else if inst == Opcode.and_op
    then some (bit_and a b)
    else if inst == Opcode.signextend
    then some (sign_extend a b)
    else if inst == Opcode.shl
    then some (if ltb a 256 then b * 2 ^ a % word_mod else 0)
    else if inst == Opcode.shr
    then some (if ltb a 256 then b / 2 ^ a else 0)
    else none

-- The instructions without a number.
unfoldable pub perform_plain : Instruction → List ℕ → Option (List ℕ)
unfolding push_of binary
perform_plain inst [] = none
perform_plain inst (a ∷ []) = if inst == Opcode.pop then some [] else none
perform_plain inst (a ∷ b ∷ rest) =
    if inst == Opcode.pop then some (b ∷ rest) else push_of (binary inst a b) rest

unfoldable pub perform : Instruction → List ℕ → Option (List ℕ)
unfolding push_of exchange perform_plain
perform inst s =
    if leb Opcode.dup1 inst && leb inst Opcode.dup16
    then push_of (get_elem? s (inst - Opcode.dup1)) s
    else if leb Opcode.swap1 inst && leb inst Opcode.swap16
    then exchange (inst - Opcode.swap1) s
    else perform_plain inst s

-- Which instructions a machine of the version has: others fail.
unfoldable pub supports : Version → Instruction → Bool
unfolding version_number
supports version inst =
    if inst == Opcode.shl || inst == Opcode.shr
    then leb (version_number constantinople) (version_number version)
    else true

unfoldable pub perform_item : Version → AssemblyItem → List ℕ → Option (List ℕ)
unfolding perform supports
perform_item version item s = elim item.type [
  | operation ↦ (if supports version item.instruction then perform item.instruction s else none)
  | push ↦ push_of item.payload s
  | _ ↦ none
]

unfoldable pub run : Version → List AssemblyItem → List ℕ → Option (List ℕ)
unfolding perform_item
run version [] s = some s
run version (item ∷ items) s = elim (perform_item version item s) [
  | none ↦ none
  | some s' ↦ run version items s'
]
