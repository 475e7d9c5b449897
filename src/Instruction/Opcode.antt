-- ===== src/Instruction/Opcode.antt =====
-- The values of `enum class Instruction: uint8_t` in libevmasm/Instruction.h. Every byte is a value of
-- the C++ type, named or not, so the model takes instructions as numbers below 256.
use jules_solidity_pppascal.Common.{ℕ}

abbrev pub Instruction : Type 0
Instruction = ℕ

abbrev pub stop : Instruction
stop = 0x0

abbrev pub add : Instruction
add = 0x1

abbrev pub mul : Instruction
mul = 0x2

abbrev pub sub : Instruction
sub = 0x3

abbrev pub div : Instruction
div = 0x4

abbrev pub sdiv : Instruction
sdiv = 0x5

abbrev pub mod_op : Instruction
mod_op = 0x6

abbrev pub smod : Instruction
smod = 0x7

abbrev pub addmod : Instruction
addmod = 0x8

abbrev pub mulmod : Instruction
mulmod = 0x9

abbrev pub exp : Instruction
exp = 0xa

abbrev pub signextend : Instruction
signextend = 0xb

abbrev pub lt : Instruction
lt = 0x10

abbrev pub gt : Instruction
gt = 0x11

abbrev pub slt : Instruction
slt = 0x12

abbrev pub sgt : Instruction
sgt = 0x13

abbrev pub eq : Instruction
eq = 0x14

abbrev pub iszero : Instruction
iszero = 0x15

abbrev pub and_op : Instruction
and_op = 0x16

abbrev pub or_op : Instruction
or_op = 0x17

abbrev pub xor : Instruction
xor = 0x18

abbrev pub not_op : Instruction
not_op = 0x19

abbrev pub byte : Instruction
byte = 0x1a

abbrev pub shl : Instruction
shl = 0x1b

abbrev pub shr : Instruction
shr = 0x1c

abbrev pub sar : Instruction
sar = 0x1d

abbrev pub keccak256 : Instruction
keccak256 = 0x20

abbrev pub blake2b : Instruction
blake2b = 0x21

abbrev pub address : Instruction
address = 0x30

abbrev pub balance : Instruction
balance = 0x31

abbrev pub origin : Instruction
origin = 0x32

abbrev pub caller : Instruction
caller = 0x33

abbrev pub callvalue : Instruction
callvalue = 0x34

abbrev pub calldataload : Instruction
calldataload = 0x35

abbrev pub calldatasize : Instruction
calldatasize = 0x36

abbrev pub calldatacopy : Instruction
calldatacopy = 0x37

abbrev pub codesize : Instruction
codesize = 0x38

abbrev pub codecopy : Instruction
codecopy = 0x39

abbrev pub gasprice : Instruction
gasprice = 0x3a

abbrev pub extcodesize : Instruction
extcodesize = 0x3b

abbrev pub extcodecopy : Instruction
extcodecopy = 0x3c

abbrev pub returndatasize : Instruction
returndatasize = 0x3d

abbrev pub returndatacopy : Instruction
returndatacopy = 0x3e

abbrev pub extcodehash : Instruction
extcodehash = 0x3f

abbrev pub blockhash : Instruction
blockhash = 0x40

abbrev pub coinbase : Instruction
coinbase = 0x41

abbrev pub timestamp : Instruction
timestamp = 0x42

abbrev pub number : Instruction
number = 0x43

abbrev pub difficulty : Instruction
difficulty = 0x44

abbrev pub gaslimit : Instruction
gaslimit = 0x45

abbrev pub tokenid : Instruction
tokenid = 0x46

abbrev pub accountheight : Instruction
accountheight = 0x47

abbrev pub prevhash : Instruction
prevhash = 0x48

abbrev pub fromhash : Instruction
fromhash = 0x49

abbrev pub seed : Instruction
seed = 0x4a

abbrev pub random : Instruction
random = 0x4b

abbrev pub pop : Instruction
pop = 0x50

abbrev pub mload : Instruction
mload = 0x51

abbrev pub mstore : Instruction
mstore = 0x52

abbrev pub mstore8 : Instruction
mstore8 = 0x53

abbrev pub sload : Instruction
sload = 0x54

abbrev pub sstore : Instruction
sstore = 0x55

abbrev pub jump : Instruction
jump = 0x56

abbrev pub jumpi : Instruction
jumpi = 0x57

abbrev pub pc : Instruction
pc = 0x58

abbrev pub msize : Instruction
msize = 0x59

abbrev pub gas : Instruction
gas = 0x5a

abbrev pub jumpdest : Instruction
jumpdest = 0x5b

abbrev pub push1 : Instruction
push1 = 0x60

abbrev pub push2 : Instruction
push2 = 0x61

abbrev pub push3 : Instruction
push3 = 0x62

abbrev pub push4 : Instruction
push4 = 0x63

abbrev pub push5 : Instruction
push5 = 0x64

abbrev pub push6 : Instruction
push6 = 0x65

abbrev pub push7 : Instruction
push7 = 0x66

abbrev pub push8 : Instruction
push8 = 0x67

abbrev pub push9 : Instruction
push9 = 0x68

abbrev pub push10 : Instruction
push10 = 0x69

abbrev pub push11 : Instruction
push11 = 0x6a

abbrev pub push12 : Instruction
push12 = 0x6b

abbrev pub push13 : Instruction
push13 = 0x6c

abbrev pub push14 : Instruction
push14 = 0x6d

abbrev pub push15 : Instruction
push15 = 0x6e

abbrev pub push16 : Instruction
push16 = 0x6f

abbrev pub push17 : Instruction
push17 = 0x70

abbrev pub push18 : Instruction
push18 = 0x71

abbrev pub push19 : Instruction
push19 = 0x72

abbrev pub push20 : Instruction
push20 = 0x73

abbrev pub push21 : Instruction
push21 = 0x74

abbrev pub push22 : Instruction
push22 = 0x75

abbrev pub push23 : Instruction
push23 = 0x76

abbrev pub push24 : Instruction
push24 = 0x77

abbrev pub push25 : Instruction
push25 = 0x78

abbrev pub push26 : Instruction
push26 = 0x79

abbrev pub push27 : Instruction
push27 = 0x7a

abbrev pub push28 : Instruction
push28 = 0x7b

abbrev pub push29 : Instruction
push29 = 0x7c

abbrev pub push30 : Instruction
push30 = 0x7d

abbrev pub push31 : Instruction
push31 = 0x7e

abbrev pub push32 : Instruction
push32 = 0x7f

abbrev pub dup1 : Instruction
dup1 = 0x80

abbrev pub dup2 : Instruction
dup2 = 0x81

abbrev pub dup3 : Instruction
dup3 = 0x82

abbrev pub dup4 : Instruction
dup4 = 0x83

abbrev pub dup5 : Instruction
dup5 = 0x84

abbrev pub dup6 : Instruction
dup6 = 0x85

abbrev pub dup7 : Instruction
dup7 = 0x86

abbrev pub dup8 : Instruction
dup8 = 0x87

abbrev pub dup9 : Instruction
dup9 = 0x88

abbrev pub dup10 : Instruction
dup10 = 0x89

abbrev pub dup11 : Instruction
dup11 = 0x8a

abbrev pub dup12 : Instruction
dup12 = 0x8b

abbrev pub dup13 : Instruction
dup13 = 0x8c

abbrev pub dup14 : Instruction
dup14 = 0x8d

abbrev pub dup15 : Instruction
dup15 = 0x8e

abbrev pub dup16 : Instruction
dup16 = 0x8f

abbrev pub swap1 : Instruction
swap1 = 0x90

abbrev pub swap2 : Instruction
swap2 = 0x91

abbrev pub swap3 : Instruction
swap3 = 0x92

abbrev pub swap4 : Instruction
swap4 = 0x93

abbrev pub swap5 : Instruction
swap5 = 0x94

abbrev pub swap6 : Instruction
swap6 = 0x95

abbrev pub swap7 : Instruction
swap7 = 0x96

abbrev pub swap8 : Instruction
swap8 = 0x97

abbrev pub swap9 : Instruction
swap9 = 0x98

abbrev pub swap10 : Instruction
swap10 = 0x99

abbrev pub swap11 : Instruction
swap11 = 0x9a

abbrev pub swap12 : Instruction
swap12 = 0x9b

abbrev pub swap13 : Instruction
swap13 = 0x9c

abbrev pub swap14 : Instruction
swap14 = 0x9d

abbrev pub swap15 : Instruction
swap15 = 0x9e

abbrev pub swap16 : Instruction
swap16 = 0x9f

abbrev pub log0 : Instruction
log0 = 0xa0

abbrev pub log1 : Instruction
log1 = 0xa1

abbrev pub log2 : Instruction
log2 = 0xa2

abbrev pub log3 : Instruction
log3 = 0xa3

abbrev pub log4 : Instruction
log4 = 0xa4

abbrev pub eip615_jumpto : Instruction
eip615_jumpto = 0xb0

abbrev pub eip615_jumpif : Instruction
eip615_jumpif = 0xb1

abbrev pub eip615_jumpv : Instruction
eip615_jumpv = 0xb2

abbrev pub eip615_jumpsub : Instruction
eip615_jumpsub = 0xb3

abbrev pub eip615_jumpsubv : Instruction
eip615_jumpsubv = 0xb4

abbrev pub eip615_beginsub : Instruction
eip615_beginsub = 0xb5

abbrev pub eip615_begindata : Instruction
eip615_begindata = 0xb6

abbrev pub eip615_returnsub : Instruction
eip615_returnsub = 0xb7

abbrev pub eip615_putlocal : Instruction
eip615_putlocal = 0xb8

abbrev pub eip615_getlocal : Instruction
eip615_getlocal = 0xb9

abbrev pub chainid : Instruction
chainid = 0xe0

abbrev pub selfbalance : Instruction
selfbalance = 0xe1

abbrev pub create : Instruction
create = 0xf0

abbrev pub call : Instruction
call = 0xf1

abbrev pub callcode : Instruction
callcode = 0xf2

abbrev pub return : Instruction
return = 0xf3

abbrev pub delegatecall : Instruction
delegatecall = 0xf4

abbrev pub create2 : Instruction
create2 = 0xf5

abbrev pub synccall : Instruction
synccall = 0xf7

abbrev pub callbackdest : Instruction
callbackdest = 0xf8

abbrev pub staticcall : Instruction
staticcall = 0xfa

abbrev pub revert : Instruction
revert = 0xfd

abbrev pub invalid : Instruction
invalid = 0xfe

abbrev pub selfdestruct : Instruction
selfdestruct = 0xff
