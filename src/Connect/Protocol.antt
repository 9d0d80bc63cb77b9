-- ===== src/Connect/Protocol.antt =====
-- The six protocols, and what the code of src/main/ipc-handlers.ts asks of each.
use katacomb_vpn.Prelude.{String, Bool, true, false}

pub data Protocol : Type 0 where
  wireguard amneziawg v2ray xray hysteria2 openvpn : Protocol

-- `isWgLike` of `armKillSwitch`.
abbrev pub is_wg_like : Protocol → Bool
is_wg_like wireguard = true
is_wg_like amneziawg = true
is_wg_like _ = false

-- The protocols whose connection sets the resolver itself.
abbrev pub needs_dns : Protocol → Bool
needs_dns wireguard = false
needs_dns amneziawg = false
needs_dns _ = true

abbrev pub interface_of : Protocol → String
interface_of wireguard = "sntl0"
interface_of amneziawg = "sntl0"
interface_of openvpn = "sntl-ovpn"
interface_of _ = "sntl-tun"
