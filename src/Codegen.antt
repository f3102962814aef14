-- ===== src/Codegen.antt =====
-- internal/codegen: the LLVM code that is emitted for an instruction.
pub mod Ir
pub mod Build
pub mod Machine
pub mod Helpers
pub mod Arithmetic
pub mod Opcodes
mod Tests
pub mod Alu
pub mod Stack
pub mod Decimal
pub mod Total
pub mod Typing
pub mod Rotation
pub mod WordAlu
pub mod Loads
pub mod BitOps
pub mod Exits
pub mod Leave
pub mod Assembly
pub mod Catalogue
pub mod Execution
pub mod Cpu
pub mod Compiled
pub mod Emission
pub mod Blockwise
pub mod Interpret
pub mod Correct
pub mod Pipeline
pub mod Starts
pub mod Progress
pub mod Returns
pub mod Globals
mod Examples
