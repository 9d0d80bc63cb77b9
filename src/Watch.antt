-- ===== src/Watch.antt =====
-- The watchdog of a paid session (src/main/ipc-handlers.ts): how much of it is used up, and whether
-- the tunnel still carries traffic.
pub mod Quota
pub mod Tunnel
mod Tests
