-- ===== src/Interp.antt =====
-- src/bytecode/value.h, src/bytecode/heap.h and src/interp/interpreter.h: the interpreter.
pub mod Value
pub mod Arith
pub mod Machine
mod Tests
