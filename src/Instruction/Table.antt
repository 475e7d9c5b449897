-- ===== src/Instruction/Table.antt =====
-- The two tables of libevmasm/Instruction.cpp: mnemonics, and what is known of each instruction.
use Prim.Native.String.{String}
use jules_solidity_pppascal.Common.{ℕ, Bool, true, false, List, [], ◌∷◌}
use jules_solidity_pppascal.Common.Text.{codes}
use jules_solidity_pppascal.Instruction.Opcode
use jules_solidity_pppascal.Instruction.Opcode.{Instruction}

pub data Tier : Type 0 where
  zero base very_low low mid high ext ext_code balance special invalid : Tier

pub record InstructionInfo : Type 0 where
  pub name : List ℕ
  pub additional : ℕ
  pub args : ℕ
  pub ret : ℕ
  pub side_effects : Bool
  pub gas_price_tier : Tier

abbrev entry : Instruction → String → ℕ → ℕ → ℕ → Bool → Tier → Instruction × InstructionInfo
entry inst name additional args ret side_effects tier = (
  inst,
  record {
    name = codes name;
    additional = additional;
    args = args;
    ret = ret;
    side_effects = side_effects;
    gas_price_tier = tier;
  },
)

abbrev mnemonic : String → Instruction → List ℕ × Instruction
mnemonic name inst = (codes name, inst)

unfoldable pub c_instructions : List (List ℕ × Instruction)
c_instructions =
    mnemonic "STOP" Opcode.stop
    ∷ mnemonic "ADD" Opcode.add
    ∷ mnemonic "SUB" Opcode.sub
    ∷ mnemonic "MUL" Opcode.mul
    ∷ mnemonic "DIV" Opcode.div
    ∷ mnemonic "SDIV" Opcode.sdiv
    ∷ mnemonic "MOD" Opcode.mod_op
    ∷ mnemonic "SMOD" Opcode.smod
    ∷ mnemonic "EXP" Opcode.exp
    ∷ mnemonic "NOT" Opcode.not_op
    ∷ mnemonic "LT" Opcode.lt
    ∷ mnemonic "GT" Opcode.gt
    ∷ mnemonic "SLT" Opcode.slt
    ∷ mnemonic "SGT" Opcode.sgt
    ∷ mnemonic "EQ" Opcode.eq
    ∷ mnemonic "ISZERO" Opcode.iszero
    ∷ mnemonic "AND" Opcode.and_op
    ∷ mnemonic "OR" Opcode.or_op
    ∷ mnemonic "XOR" Opcode.xor
    ∷ mnemonic "BYTE" Opcode.byte
    ∷ mnemonic "SHL" Opcode.shl
    ∷ mnemonic "SHR" Opcode.shr
    ∷ mnemonic "SAR" Opcode.sar
    ∷ mnemonic "ADDMOD" Opcode.addmod
    ∷ mnemonic "MULMOD" Opcode.mulmod
    ∷ mnemonic "SIGNEXTEND" Opcode.signextend
    ∷ mnemonic "KECCAK256" Opcode.keccak256
    ∷ mnemonic "ADDRESS" Opcode.address
    ∷ mnemonic "BALANCE" Opcode.balance
    ∷ mnemonic "ORIGIN" Opcode.origin
    ∷ mnemonic "CALLER" Opcode.caller
    ∷ mnemonic "CALLVALUE" Opcode.callvalue
    ∷ mnemonic "CALLDATALOAD" Opcode.calldataload
    ∷ mnemonic "CALLDATASIZE" Opcode.calldatasize
    ∷ mnemonic "CALLDATACOPY" Opcode.calldatacopy
    ∷ mnemonic "CODESIZE" Opcode.codesize
    ∷ mnemonic "CODECOPY" Opcode.codecopy
    ∷ mnemonic "GASPRICE" Opcode.gasprice
    ∷ mnemonic "EXTCODESIZE" Opcode.extcodesize
    ∷ mnemonic "EXTCODECOPY" Opcode.extcodecopy
    ∷ mnemonic "RETURNDATASIZE" Opcode.returndatasize
    ∷ mnemonic "RETURNDATACOPY" Opcode.returndatacopy
    ∷ mnemonic "EXTCODEHASH" Opcode.extcodehash
    ∷ mnemonic "BLOCKHASH" Opcode.blockhash
    ∷ mnemonic "COINBASE" Opcode.coinbase
    ∷ mnemonic "TIMESTAMP" Opcode.timestamp
    ∷ mnemonic "NUMBER" Opcode.number
    ∷ mnemonic "DIFFICULTY" Opcode.difficulty
    ∷ mnemonic "GASLIMIT" Opcode.gaslimit
    ∷ mnemonic "CHAINID" Opcode.chainid
    ∷ mnemonic "SELFBALANCE" Opcode.selfbalance
    ∷ mnemonic "POP" Opcode.pop
    ∷ mnemonic "MLOAD" Opcode.mload
    ∷ mnemonic "MSTORE" Opcode.mstore
    ∷ mnemonic "MSTORE8" Opcode.mstore8
    ∷ mnemonic "SLOAD" Opcode.sload
    ∷ mnemonic "SSTORE" Opcode.sstore
    ∷ mnemonic "JUMP" Opcode.jump
    ∷ mnemonic "JUMPI" Opcode.jumpi
    ∷ mnemonic "PC" Opcode.pc
    ∷ mnemonic "MSIZE" Opcode.msize
    ∷ mnemonic "GAS" Opcode.gas
    ∷ mnemonic "JUMPDEST" Opcode.jumpdest
    ∷ mnemonic "PUSH1" Opcode.push1
    ∷ mnemonic "PUSH2" Opcode.push2
    ∷ mnemonic "PUSH3" Opcode.push3
    ∷ mnemonic "PUSH4" Opcode.push4
    ∷ mnemonic "PUSH5" Opcode.push5
    ∷ mnemonic "PUSH6" Opcode.push6
    ∷ mnemonic "PUSH7" Opcode.push7
    ∷ mnemonic "PUSH8" Opcode.push8
    ∷ mnemonic "PUSH9" Opcode.push9
    ∷ mnemonic "PUSH10" Opcode.push10
    ∷ mnemonic "PUSH11" Opcode.push11
    ∷ mnemonic "PUSH12" Opcode.push12
    ∷ mnemonic "PUSH13" Opcode.push13
    ∷ mnemonic "PUSH14" Opcode.push14
    ∷ mnemonic "PUSH15" Opcode.push15
    ∷ mnemonic "PUSH16" Opcode.push16
    ∷ mnemonic "PUSH17" Opcode.push17
    ∷ mnemonic "PUSH18" Opcode.push18
    ∷ mnemonic "PUSH19" Opcode.push19
    ∷ mnemonic "PUSH20" Opcode.push20
    ∷ mnemonic "PUSH21" Opcode.push21
    ∷ mnemonic "PUSH22" Opcode.push22
    ∷ mnemonic "PUSH23" Opcode.push23
    ∷ mnemonic "PUSH24" Opcode.push24
    ∷ mnemonic "PUSH25" Opcode.push25
    ∷ mnemonic "PUSH26" Opcode.push26
    ∷ mnemonic "PUSH27" Opcode.push27
    ∷ mnemonic "PUSH28" Opcode.push28
    ∷ mnemonic "PUSH29" Opcode.push29
    ∷ mnemonic "PUSH30" Opcode.push30
    ∷ mnemonic "PUSH31" Opcode.push31
    ∷ mnemonic "PUSH32" Opcode.push32
    ∷ mnemonic "DUP1" Opcode.dup1
    ∷ mnemonic "DUP2" Opcode.dup2
    ∷ mnemonic "DUP3" Opcode.dup3
    ∷ mnemonic "DUP4" Opcode.dup4
    ∷ mnemonic "DUP5" Opcode.dup5
    ∷ mnemonic "DUP6" Opcode.dup6
    ∷ mnemonic "DUP7" Opcode.dup7
    ∷ mnemonic "DUP8" Opcode.dup8
    ∷ mnemonic "DUP9" Opcode.dup9
    ∷ mnemonic "DUP10" Opcode.dup10
    ∷ mnemonic "DUP11" Opcode.dup11
    ∷ mnemonic "DUP12" Opcode.dup12
    ∷ mnemonic "DUP13" Opcode.dup13
    ∷ mnemonic "DUP14" Opcode.dup14
    ∷ mnemonic "DUP15" Opcode.dup15
    ∷ mnemonic "DUP16" Opcode.dup16
    ∷ mnemonic "SWAP1" Opcode.swap1
    ∷ mnemonic "SWAP2" Opcode.swap2
    ∷ mnemonic "SWAP3" Opcode.swap3
    ∷ mnemonic "SWAP4" Opcode.swap4
    ∷ mnemonic "SWAP5" Opcode.swap5
    ∷ mnemonic "SWAP6" Opcode.swap6
    ∷ mnemonic "SWAP7" Opcode.swap7
    ∷ mnemonic "SWAP8" Opcode.swap8
    ∷ mnemonic "SWAP9" Opcode.swap9
    ∷ mnemonic "SWAP10" Opcode.swap10
    ∷ mnemonic "SWAP11" Opcode.swap11
    ∷ mnemonic "SWAP12" Opcode.swap12
    ∷ mnemonic "SWAP13" Opcode.swap13
    ∷ mnemonic "SWAP14" Opcode.swap14
    ∷ mnemonic "SWAP15" Opcode.swap15
    ∷ mnemonic "SWAP16" Opcode.swap16
    ∷ mnemonic "LOG0" Opcode.log0
    ∷ mnemonic "LOG1" Opcode.log1
    ∷ mnemonic "LOG2" Opcode.log2
    ∷ mnemonic "LOG3" Opcode.log3
    ∷ mnemonic "LOG4" Opcode.log4
    ∷ mnemonic "CREATE" Opcode.create
    ∷ mnemonic "CALL" Opcode.call
    ∷ mnemonic "CALLCODE" Opcode.callcode
    ∷ mnemonic "STATICCALL" Opcode.staticcall
    ∷ mnemonic "RETURN" Opcode.return
    ∷ mnemonic "DELEGATECALL" Opcode.delegatecall
    ∷ mnemonic "CREATE2" Opcode.create2
    ∷ mnemonic "REVERT" Opcode.revert
    ∷ mnemonic "INVALID" Opcode.invalid
    ∷ mnemonic "SELFDESTRUCT" Opcode.selfdestruct
    ∷ mnemonic "ACCOUNTHEIGHT" Opcode.accountheight
    ∷ mnemonic "PREVHASH" Opcode.prevhash
    ∷ mnemonic "FROMHASH" Opcode.fromhash
    ∷ mnemonic "SEED" Opcode.seed
    ∷ mnemonic "RANDOM" Opcode.random
    ∷ mnemonic "BLAKE2B" Opcode.blake2b
    ∷ mnemonic "TOKENID" Opcode.tokenid
    ∷ []

unfoldable pub c_instruction_info : List (Instruction × InstructionInfo)
c_instruction_info =
    entry Opcode.stop "STOP" 0 0 0 true Tier.zero
    ∷ entry Opcode.add "ADD" 0 2 1 false Tier.very_low
    ∷ entry Opcode.sub "SUB" 0 2 1 false Tier.very_low
    ∷ entry Opcode.mul "MUL" 0 2 1 false Tier.low
    ∷ entry Opcode.div "DIV" 0 2 1 false Tier.low
    ∷ entry Opcode.sdiv "SDIV" 0 2 1 false Tier.low
    ∷ entry Opcode.mod_op "MOD" 0 2 1 false Tier.low
    ∷ entry Opcode.smod "SMOD" 0 2 1 false Tier.low
    ∷ entry Opcode.exp "EXP" 0 2 1 false Tier.special
    ∷ entry Opcode.not_op "NOT" 0 1 1 false Tier.very_low
    ∷ entry Opcode.lt "LT" 0 2 1 false Tier.very_low
    ∷ entry Opcode.gt "GT" 0 2 1 false Tier.very_low
    ∷ entry Opcode.slt "SLT" 0 2 1 false Tier.very_low
    ∷ entry Opcode.sgt "SGT" 0 2 1 false Tier.very_low
    ∷ entry Opcode.eq "EQ" 0 2 1 false Tier.very_low
    ∷ entry Opcode.iszero "ISZERO" 0 1 1 false Tier.very_low
    ∷ entry Opcode.and_op "AND" 0 2 1 false Tier.very_low
    ∷ entry Opcode.or_op "OR" 0 2 1 false Tier.very_low
    ∷ entry Opcode.xor "XOR" 0 2 1 false Tier.very_low
    ∷ entry Opcode.byte "BYTE" 0 2 1 false Tier.very_low
    ∷ entry Opcode.shl "SHL" 0 2 1 false Tier.very_low
    ∷ entry Opcode.shr "SHR" 0 2 1 false Tier.very_low
    ∷ entry Opcode.sar "SAR" 0 2 1 false Tier.very_low
    ∷ entry Opcode.addmod "ADDMOD" 0 3 1 false Tier.mid
    ∷ entry Opcode.mulmod "MULMOD" 0 3 1 false Tier.mid
    ∷ entry Opcode.signextend "SIGNEXTEND" 0 2 1 false Tier.low
    ∷ entry Opcode.keccak256 "KECCAK256" 0 2 1 true Tier.special
    ∷ entry Opcode.address "ADDRESS" 0 0 1 false Tier.base
    ∷ entry Opcode.balance "BALANCE" 0 1 1 false Tier.balance
    ∷ entry Opcode.origin "ORIGIN" 0 0 1 false Tier.base
    ∷ entry Opcode.caller "CALLER" 0 0 1 false Tier.base
    ∷ entry Opcode.callvalue "CALLVALUE" 0 0 1 false Tier.base
    ∷ entry Opcode.calldataload "CALLDATALOAD" 0 1 1 false Tier.very_low
    ∷ entry Opcode.calldatasize "CALLDATASIZE" 0 0 1 false Tier.base
    ∷ entry Opcode.calldatacopy "CALLDATACOPY" 0 3 0 true Tier.very_low
    ∷ entry Opcode.codesize "CODESIZE" 0 0 1 false Tier.base
    ∷ entry Opcode.codecopy "CODECOPY" 0 3 0 true Tier.very_low
    ∷ entry Opcode.gasprice "GASPRICE" 0 0 1 false Tier.base
    ∷ entry Opcode.extcodesize "EXTCODESIZE" 0 1 1 false Tier.ext_code
    ∷ entry Opcode.extcodecopy "EXTCODECOPY" 0 4 0 true Tier.ext_code
    ∷ entry Opcode.returndatasize "RETURNDATASIZE" 0 0 1 false Tier.base
    ∷ entry Opcode.returndatacopy "RETURNDATACOPY" 0 3 0 true Tier.very_low
    ∷ entry Opcode.extcodehash "EXTCODEHASH" 0 1 1 false Tier.balance
    ∷ entry Opcode.blockhash "BLOCKHASH" 0 1 1 false Tier.ext
    ∷ entry Opcode.coinbase "COINBASE" 0 0 1 false Tier.base
    ∷ entry Opcode.timestamp "TIMESTAMP" 0 0 1 false Tier.base
    ∷ entry Opcode.number "NUMBER" 0 0 1 false Tier.base
    ∷ entry Opcode.difficulty "DIFFICULTY" 0 0 1 false Tier.base
    ∷ entry Opcode.gaslimit "GASLIMIT" 0 0 1 false Tier.base
    ∷ entry Opcode.chainid "CHAINID" 0 0 1 false Tier.base
    ∷ entry Opcode.selfbalance "SELFBALANCE" 0 0 1 false Tier.low
    ∷ entry Opcode.pop "POP" 0 1 0 false Tier.base
    ∷ entry Opcode.mload "MLOAD" 0 1 1 true Tier.very_low
    ∷ entry Opcode.mstore "MSTORE" 0 2 0 true Tier.very_low
    ∷ entry Opcode.mstore8 "MSTORE8" 0 2 0 true Tier.very_low
    ∷ entry Opcode.sload "SLOAD" 0 1 1 false Tier.special
    ∷ entry Opcode.sstore "SSTORE" 0 2 0 true Tier.special
    ∷ entry Opcode.jump "JUMP" 0 1 0 true Tier.mid
    ∷ entry Opcode.jumpi "JUMPI" 0 2 0 true Tier.high
    ∷ entry Opcode.pc "PC" 0 0 1 false Tier.base
    ∷ entry Opcode.msize "MSIZE" 0 0 1 false Tier.base
    ∷ entry Opcode.gas "GAS" 0 0 1 false Tier.base
    ∷ entry Opcode.jumpdest "JUMPDEST" 0 0 0 true Tier.special
    ∷ entry Opcode.push1 "PUSH1" 1 0 1 false Tier.very_low
    ∷ entry Opcode.push2 "PUSH2" 2 0 1 false Tier.very_low
    ∷ entry Opcode.push3 "PUSH3" 3 0 1 false Tier.very_low
    ∷ entry Opcode.push4 "PUSH4" 4 0 1 false Tier.very_low
    ∷ entry Opcode.push5 "PUSH5" 5 0 1 false Tier.very_low
    ∷ entry Opcode.push6 "PUSH6" 6 0 1 false Tier.very_low
    ∷ entry Opcode.push7 "PUSH7" 7 0 1 false Tier.very_low
    ∷ entry Opcode.push8 "PUSH8" 8 0 1 false Tier.very_low
    ∷ entry Opcode.push9 "PUSH9" 9 0 1 false Tier.very_low
    ∷ entry Opcode.push10 "PUSH10" 10 0 1 false Tier.very_low
    ∷ entry Opcode.push11 "PUSH11" 11 0 1 false Tier.very_low
    ∷ entry Opcode.push12 "PUSH12" 12 0 1 false Tier.very_low
    ∷ entry Opcode.push13 "PUSH13" 13 0 1 false Tier.very_low
    ∷ entry Opcode.push14 "PUSH14" 14 0 1 false Tier.very_low
    ∷ entry Opcode.push15 "PUSH15" 15 0 1 false Tier.very_low
    ∷ entry Opcode.push16 "PUSH16" 16 0 1 false Tier.very_low
    ∷ entry Opcode.push17 "PUSH17" 17 0 1 false Tier.very_low
    ∷ entry Opcode.push18 "PUSH18" 18 0 1 false Tier.very_low
    ∷ entry Opcode.push19 "PUSH19" 19 0 1 false Tier.very_low
    ∷ entry Opcode.push20 "PUSH20" 20 0 1 false Tier.very_low
    ∷ entry Opcode.push21 "PUSH21" 21 0 1 false Tier.very_low
    ∷ entry Opcode.push22 "PUSH22" 22 0 1 false Tier.very_low
    ∷ entry Opcode.push23 "PUSH23" 23 0 1 false Tier.very_low
    ∷ entry Opcode.push24 "PUSH24" 24 0 1 false Tier.very_low
    ∷ entry Opcode.push25 "PUSH25" 25 0 1 false Tier.very_low
    ∷ entry Opcode.push26 "PUSH26" 26 0 1 false Tier.very_low
    ∷ entry Opcode.push27 "PUSH27" 27 0 1 false Tier.very_low
    ∷ entry Opcode.push28 "PUSH28" 28 0 1 false Tier.very_low
    ∷ entry Opcode.push29 "PUSH29" 29 0 1 false Tier.very_low
    ∷ entry Opcode.push30 "PUSH30" 30 0 1 false Tier.very_low
    ∷ entry Opcode.push31 "PUSH31" 31 0 1 false Tier.very_low
    ∷ entry Opcode.push32 "PUSH32" 32 0 1 false Tier.very_low
    ∷ entry Opcode.dup1 "DUP1" 0 1 2 false Tier.very_low
    ∷ entry Opcode.dup2 "DUP2" 0 2 3 false Tier.very_low
    ∷ entry Opcode.dup3 "DUP3" 0 3 4 false Tier.very_low
    ∷ entry Opcode.dup4 "DUP4" 0 4 5 false Tier.very_low
    ∷ entry Opcode.dup5 "DUP5" 0 5 6 false Tier.very_low
    ∷ entry Opcode.dup6 "DUP6" 0 6 7 false Tier.very_low
    ∷ entry Opcode.dup7 "DUP7" 0 7 8 false Tier.very_low
    ∷ entry Opcode.dup8 "DUP8" 0 8 9 false Tier.very_low
    ∷ entry Opcode.dup9 "DUP9" 0 9 10 false Tier.very_low
    ∷ entry Opcode.dup10 "DUP10" 0 10 11 false Tier.very_low
    ∷ entry Opcode.dup11 "DUP11" 0 11 12 false Tier.very_low
    ∷ entry Opcode.dup12 "DUP12" 0 12 13 false Tier.very_low
    ∷ entry Opcode.dup13 "DUP13" 0 13 14 false Tier.very_low
    ∷ entry Opcode.dup14 "DUP14" 0 14 15 false Tier.very_low
    ∷ entry Opcode.dup15 "DUP15" 0 15 16 false Tier.very_low
    ∷ entry Opcode.dup16 "DUP16" 0 16 17 false Tier.very_low
    ∷ entry Opcode.swap1 "SWAP1" 0 2 2 false Tier.very_low
    ∷ entry Opcode.swap2 "SWAP2" 0 3 3 false Tier.very_low
    ∷ entry Opcode.swap3 "SWAP3" 0 4 4 false Tier.very_low
    ∷ entry Opcode.swap4 "SWAP4" 0 5 5 false Tier.very_low
    ∷ entry Opcode.swap5 "SWAP5" 0 6 6 false Tier.very_low
    ∷ entry Opcode.swap6 "SWAP6" 0 7 7 false Tier.very_low
    ∷ entry Opcode.swap7 "SWAP7" 0 8 8 false Tier.very_low
    ∷ entry Opcode.swap8 "SWAP8" 0 9 9 false Tier.very_low
    ∷ entry Opcode.swap9 "SWAP9" 0 10 10 false Tier.very_low
    ∷ entry Opcode.swap10 "SWAP10" 0 11 11 false Tier.very_low
    ∷ entry Opcode.swap11 "SWAP11" 0 12 12 false Tier.very_low
    ∷ entry Opcode.swap12 "SWAP12" 0 13 13 false Tier.very_low
    ∷ entry Opcode.swap13 "SWAP13" 0 14 14 false Tier.very_low
    ∷ entry Opcode.swap14 "SWAP14" 0 15 15 false Tier.very_low
    ∷ entry Opcode.swap15 "SWAP15" 0 16 16 false Tier.very_low
    ∷ entry Opcode.swap16 "SWAP16" 0 17 17 false Tier.very_low
    ∷ entry Opcode.log0 "LOG0" 0 2 0 true Tier.special
    ∷ entry Opcode.log1 "LOG1" 0 3 0 true Tier.special
    ∷ entry Opcode.log2 "LOG2" 0 4 0 true Tier.special
    ∷ entry Opcode.log3 "LOG3" 0 5 0 true Tier.special
    ∷ entry Opcode.log4 "LOG4" 0 6 0 true Tier.special
    ∷ entry Opcode.create "CREATE" 0 3 1 true Tier.special
    ∷ entry Opcode.call "CALL" 0 5 0 true Tier.special
    ∷ entry Opcode.callcode "CALLCODE" 0 5 1 true Tier.special
    ∷ entry Opcode.return "RETURN" 0 2 0 true Tier.zero
    ∷ entry Opcode.delegatecall "DELEGATECALL" 0 5 1 true Tier.special
    ∷ entry Opcode.synccall "SYNCCALL" 0 6 0 true Tier.special
    ∷ entry Opcode.callbackdest "CALLBACKDEST" 0 0 1 true Tier.special
    ∷ entry Opcode.staticcall "STATICCALL" 0 6 1 true Tier.special
    ∷ entry Opcode.create2 "CREATE2" 0 4 1 true Tier.special
    ∷ entry Opcode.revert "REVERT" 0 2 0 true Tier.zero
    ∷ entry Opcode.invalid "INVALID" 0 0 0 true Tier.zero
    ∷ entry Opcode.selfdestruct "SELFDESTRUCT" 0 1 0 true Tier.special
    ∷ entry Opcode.blake2b "BLAKE2B" 0 2 1 true Tier.special
    ∷ entry Opcode.tokenid "TOKENID" 0 0 1 false Tier.base
    ∷ entry Opcode.accountheight "ACCOUNTHEIGHT" 0 0 1 false Tier.ext
    ∷ entry Opcode.prevhash "PREVHASH" 0 0 1 false Tier.ext
    ∷ entry Opcode.fromhash "FROMHASH" 0 0 1 false Tier.ext
    ∷ entry Opcode.random "RANDOM" 0 0 1 false Tier.ext
    ∷ entry Opcode.seed "SEED" 0 0 1 false Tier.ext
    ∷ []
