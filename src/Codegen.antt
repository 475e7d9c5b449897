-- ===== src/Codegen.antt =====
-- Code generation: libsolidity/codegen/CompilerContext.h, CompilerContext.cpp and CompilerUtils.cpp.
pub mod Context
pub mod Machine
pub mod Stack
pub mod Queue
