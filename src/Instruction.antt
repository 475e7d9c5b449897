-- ===== src/Instruction.antt =====
-- Instructions of the virtual machine and the disassembler: libevmasm/Instruction.h and
-- libevmasm/Instruction.cpp.
pub mod Opcode
pub mod Table
pub mod Info
pub mod Disassembler
