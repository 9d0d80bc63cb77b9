-- ===== src/Hops.antt =====
-- Choosing the two nodes of a chain: which rows may be picked (src/renderer/utils/chain-node.ts) and
-- what tells that one operator holds both (src/renderer/utils/chain-diversity.ts).
pub mod Rows
pub mod Diversity
mod Tests
