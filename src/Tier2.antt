-- ===== src/Tier2.antt =====
-- src/tier2: the meaning of data nodes.
pub mod Apply
