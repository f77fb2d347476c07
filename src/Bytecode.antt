-- ===== src/Bytecode.antt =====
-- src/bytecode/: the byte code of a function, values, and the table of symbols.
pub mod Chunk
pub mod SymbolTable
mod Tests
