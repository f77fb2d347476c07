-- ===== src/Core.antt =====
-- src/core: the Sea-of-Nodes graph.
pub mod Node
pub mod Graph
pub mod Verifier
pub mod BitSet
