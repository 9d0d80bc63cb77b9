-- ===== src/Guard.antt =====
-- The guards between what a node sends and the privileged helper (src/main/config-guard.ts).
pub mod Text
pub mod Wireguard
pub mod Inbounds
pub mod Openvpn
pub mod Bypass
pub mod Endpoint
pub mod Dns
pub mod Json
pub mod V2ray
mod Tests
