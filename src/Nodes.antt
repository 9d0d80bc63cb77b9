-- ===== src/Nodes.antt =====
-- What a node says of itself, and who says it.
pub mod Signature
mod Tests
