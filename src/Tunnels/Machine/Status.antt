-- ===== src/Tunnels/Machine/Status.antt =====
-- What `getConnectionStatus`, `isProxyChildAlive`, `isVpnActive` and `getActiveProxyPort` of
-- src/main/vpn/vpn-manager.ts report.
use katacomb_vpn.Prelude.{
  ℕ, Bool, true, false, not, ◌&&◌, ◌||◌, Option, none, some, ◌==◌, if◌then◌else◌, any,
}
use katacomb_vpn.Connect.Protocol.{Protocol, openvpn}
use katacomb_vpn.Tunnels.Machine.{
  is_child_proxy, is_wireguard_up, is_amneziawg, is_wireguard, is_openvpn, forget_child,
  kind_of_sntl0, Machine, Mode, tunnel, proxy,
}

abbrev pub is_running : Machine → Option ℕ → Bool
is_running m none = false
is_running m (some c) = any (λ d. d == c) m.running

-- `isProxyChildAlive`.
unfoldable is_proxy_child_alive : Machine → Bool
is_proxy_child_alive m = is_child_proxy m.active_protocol && is_running m m.active_child

abbrev is_proxy_mode : Mode → Bool
is_proxy_mode proxy = true
is_proxy_mode tunnel = false

-- `isChildProxyCarryingTraffic` of src/main/vpn/connect-decisions.ts.
unfoldable pub is_child_proxy_carrying_traffic : Bool → Bool → Bool → Bool
is_child_proxy_carrying_traffic child_alive proxy_mode tun_up =
    if not child_alive then false else proxy_mode || tun_up

pub record Status : Type 0 where
  pub connected : Bool
  pub protocol : Option Protocol
  pub proxy_mode : Bool
  pub has_socks_addr : Bool

abbrev pub disconnected : Status
disconnected = record {
  connected = false;
  protocol = none;
  proxy_mode = false;
  has_socks_addr = false;
}

abbrev connected_by : Option Protocol → Status
connected_by p = record {
  connected = true;
  protocol = p;
  proxy_mode = false;
  has_socks_addr = false;
}

abbrev or_adopted : Option Protocol → Protocol → Option Protocol
or_adopted none p = some p
or_adopted (some q) p = some q

abbrev is_interface_protocol : Option Protocol → Bool
is_interface_protocol p = is_wireguard p || is_amneziawg p || is_openvpn p

-- The tests of `getConnectionStatus` behind those of a child.
unfoldable pub status_of_interfaces : Machine → Status × Machine
status_of_interfaces m =
    let p = or_adopted m.active_protocol (kind_of_sntl0 m) in
    let q = or_adopted m.active_protocol openvpn in
    if is_wireguard_up m
    then (connected_by p, record m { active_protocol = p })
    else if m.openvpn_up
    then (connected_by q, record m { active_protocol = q })
    else if is_interface_protocol m.active_protocol
    then (disconnected, record m { active_protocol = none; active_config_file = none })
    else (disconnected, m)

-- The answer of `getConnectionStatus` while the child runs.
unfoldable pub status_of_child : Machine → Status
status_of_child m =
    let proxied = is_proxy_mode m.active_mode in
    if not (is_child_proxy_carrying_traffic true proxied m.tun_up) then disconnected else record {
      connected = true;
      protocol = m.active_protocol;
      proxy_mode = proxied;
      has_socks_addr = proxied;
    }

-- `getConnectionStatus`: the status, and the variables behind the call.
unfoldable pub get_connection_status : Machine → Status × Machine
get_connection_status m =
    if is_child_proxy m.active_protocol
    then if is_running m m.active_child
      then (status_of_child m, m)
      else status_of_interfaces (forget_child m)
    else status_of_interfaces m

-- `isVpnActive`.
unfoldable pub is_vpn_active : Machine → Bool
is_vpn_active m = is_wireguard_up m || m.tun_up || m.openvpn_up

-- `getActiveProxyPort`.
unfoldable pub get_active_proxy_port : ℕ → Machine → Option ℕ
get_active_proxy_port socks_port m =
    if not (is_proxy_mode m.active_mode)
    then none
    else if not (is_child_proxy m.active_protocol)
    then none
    else if not (is_running m m.active_child)
    then none
    else some socks_port
