-- ===== src/Tunnels.antt =====
-- The tunnels and the processes behind them (src/main/vpn/vpn-manager.ts).
pub mod Machine
pub mod Connects
pub mod Orphans
mod Tests
