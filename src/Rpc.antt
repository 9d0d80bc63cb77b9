-- ===== src/Rpc.antt =====
-- The health of the chain's RPC endpoint: how one probe is graded, which endpoint replaces the
-- one in use, and the monitor that publishes the readings.
pub mod Health
pub mod Monitor
mod Tests
