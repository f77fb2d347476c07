-- ===== src/Tier1.antt =====
-- src/tier1: the arithmetic of the baseline compiler.
pub mod Alu
pub mod Pow
mod Tests
