-- ===== src/Lib.antt =====
-- The back end of the Solidity++ compiler: the assembler, which is the library libevmasm with what
-- it uses of libsolutil, and the parts of libsolidity and liblangutil in front of it that compute
-- without the syntax tree: the state of the code generator, the types of plain values, the tokens.
-- The code generator appends items to an assembly through its context. An assembly is a list of
-- items over a tree of sub-assemblies. It is built by appending items, turned into bytecode with a
-- table of tag positions and of open references by `assemble`, and linked when the addresses of
-- libraries are known.
--
-- CommonData.Endian models the conversions between numbers and big-endian bytes of
-- libsolutil/CommonData.h, CommonData.Hex the hexadecimal text of libsolutil/CommonData.cpp and
-- CommonData.Vite the texts with a checksum there: the addresses and token ids of Vite. EvmVersion
-- is liblangutil/EVMVersion.h and EVMVersion.cpp. Token.Kind and Token.Table are the enumeration
-- and the list of liblangutil/Token.h, Token its functions. Instruction.Opcode, Instruction.Table
-- and Instruction.Info are the enumeration, the two tables and the inline functions of
-- libevmasm/Instruction.h and Instruction.cpp; Instruction.Disassembler is eachInstruction and
-- disassemble. AssemblyItem is libevmasm/AssemblyItem.h and AssemblyItem.cpp, LinkerObject is
-- libevmasm/LinkerObject.h and LinkerObject.cpp.
--
-- Assembly is libevmasm/Assembly.h and Assembly.cpp: the fields of the class and the operations
-- that append to them. Assembly.Paths has the numbers of nested sub-assemblies (encodeSubPath,
-- decodeSubPath), Assembly.Emit the code of one item, that is the switch in the main loop of
-- Assembly::assemble, and Assembly.Assemble bytesRequired and the rest of Assembly::assemble. A
-- sub-assembly is assembled before its parent; where both fail, the error is that of the
-- sub-assembly.
--
-- Types is libsolidity/ast/Types.h and Types.cpp for the types of plain values: what they are, when
-- they are equal, and the types of literals. Types.Conversions has the implicit and explicit
-- conversions and commonType, Types.Operators the types of operators' results, Types.Storage the
-- layout of variables in storage (StorageOffsets) and the sizes of arrays. Codegen.Context is
-- libsolidity/codegen/CompilerContext.h and CompilerContext.cpp: the heights of local variables,
-- the memory of immutables, labels and jumps. Codegen.Queue is its FunctionCompilationQueue, with a
-- relation that has one step per operation. Codegen.Stack is the part of
-- libsolidity/codegen/CompilerUtils.cpp that moves stack slots. Codegen.Machine is no code of the
-- repository but a reference machine, which runs the instructions that Codegen.Stack emits on a
-- stack of words; as the versions of the EVM do, it has SHL and SHR from Constantinople on, and it
-- is run for the version that is compiled for.
--
-- A byte and a character are numbers, u256, size_t and unsigned are numbers with their wrap-around
-- written out, a std::map is the list of its entries in the order of its keys, an exception is a
-- value of `Error`. A declaration of the syntax tree is the number of its address, with what is
-- asked of it beside. A token is its number. A rational is a numerator and a denominator in lowest
-- terms. The hash functions are parameters, and so is ConstantEvaluator, which calculates with
-- literals. Sizes of buffers in memory do not wrap.
--
-- Fuel: eachInstruction takes at least one byte in each round and has the length of the code for
-- fuel. The loop of Assembly::bytesRequired ends when the size of a tag reaches that of the code,
-- which has 8 bytes at most, and has fuel for tags of any of these sizes. The loop of
-- RationalNumberType::fixedPointType is bounded by 80 rounds, as in the source. The loop of
-- bytesRequired for a number is recursion on the number getting smaller. All other loops are
-- recursion on a list or on a counter of the source.
--
-- Not modelled: source locations, text and JSON output of an assembly, the caching of the assembled
-- object (it is the result); Yul functions and inline assembly; the types of composite values and
-- the members of types; parser, analysis, the visitors that generate code, and the command line.
-- They work on the syntax tree or hand text to libraries that are not in the repository.
pub mod Common
pub mod CommonData
pub mod Instruction
pub mod AssemblyItem
pub mod LinkerObject
pub mod EvmVersion
pub mod Codegen
pub mod Token
pub mod Types
pub mod Assembly
pub mod Examples
