-- ===== src/Helper.antt =====
-- The way to the privileged service: src/main/helper/daemon-client.ts and src/main/helper/privileged.ts.
pub mod Daemon
pub mod Requests
pub mod Privileged
mod Tests
