-- ===== src/Connect.antt =====
-- Connecting: the purchase and its refund, the firewall, and the life of a connection.
pub mod Refund
pub mod Protocol
pub mod Chain
pub mod Firewall
pub mod Lifecycle
mod Tests
