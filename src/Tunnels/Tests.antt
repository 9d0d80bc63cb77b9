-- ===== src/Tunnels/Tests.antt =====
-- Runs of the tunnel manager at concrete machines.
use katacomb_vpn.Prelude.{◌≡◌, refl, true, false, not, none, some, [], ◌∷◌, ◌==◌, filter}
use katacomb_vpn.Connect.Protocol.{v2ray}
use katacomb_vpn.Tunnels.Machine.{
  Machine, Teardown, tunnel, userspace, v2ray_json, disconnect, forget, stop_tun, stop_child,
  stop_amneziawg, stop_wireguard, stop_openvpn, bring_down_tun, bring_down_amneziawg,
  bring_down_all_wireguard, child_exits,
}
use katacomb_vpn.Tunnels.Machine.Status.{get_connection_status, is_vpn_active, disconnected}
use katacomb_vpn.Tunnels.Machine.Idle.{
  IsForgotten, IsDown, disconnect-IsIdle, child_exits-disconnect,
}
use katacomb_vpn.Tunnels.Connects.{Answers, connect_child_from_config, bring_up_tun, spawn_v2ray}
use katacomb_vpn.Tunnels.Connects.Reports.{connect_child_from_config-get_connection_status}

abbrev obeyed : Teardown
obeyed = record { down = true; awg_down = true; ovpn_down = true; tun_down = true }

-- A v2ray tunnel beside a stale AmneziaWG interface.
abbrev busy : Machine
busy = record {
  active_child = some 7;
  active_protocol = some v2ray;
  active_mode = tunnel;
  active_config_file = some v2ray_json;
  active_log_path = true;
  tun_active = true;
  sntl0 = userspace;
  other_wireguard = false;
  tun_up = true;
  openvpn_up = false;
  running = 7 ∷ [];
  has_sntl0_conf = true;
  has_v2ray_json = true;
  has_openvpn_conf = false;
  has_log = true;
  signalled = [];
  callbacks = 0;
}

abbrev works : Answers
works = record {
  has_binary = true;
  is_safe = true;
  comes_up = true;
  leaves = false;
  has_default_route = true;
  has_remote_host = true;
  tun_appears = true;
  pid = 8;
  teardown = obeyed;
}

abbrev refuses : Answers
refuses = record works { comes_up = false; leaves = true }

child_signalled : (disconnect obeyed busy).signalled ≡ 7 ∷ []
unfolding disconnect forget stop_tun stop_child stop_amneziawg stop_wireguard stop_openvpn
    bring_down_tun bring_down_amneziawg bring_down_all_wireguard
child_signalled = refl

disconnect-IsIdle_example :
    IsForgotten (disconnect obeyed busy)
    × IsDown (disconnect obeyed busy)
    × (get_connection_status (disconnect obeyed busy) ≡ (disconnected, disconnect obeyed busy))
    × (is_vpn_active (disconnect obeyed busy) ≡ false)
disconnect-IsIdle_example =
    disconnect-IsIdle obeyed busy
      (record { by_down = refl; by_awg_down = refl; by_ovpn_down = refl; by_tun_down = refl })

child_exits-disconnect_example :
    child_exits obeyed 7 (disconnect obeyed busy) ≡ record (disconnect obeyed busy) {
      running = filter (λ d. not (d == 7)) (disconnect obeyed busy).running;
    }
child_exits-disconnect_example = child_exits-disconnect obeyed obeyed 7 busy

abbrev quiet : Machine
quiet = record busy { tun_active = false; tun_up = false; active_child = none }

connect_child_from_config-get_connection_status_example :
    ((get_connection_status (connect_child_from_config v2ray false works quiet).1).0.connected
      ≡ false)
    × ((get_connection_status
          (bring_up_tun works (connect_child_from_config v2ray false works quiet).1).1).0
        ≡ record {
          connected = true;
          protocol = some v2ray;
          proxy_mode = false;
          has_socks_addr = false;
        })
unfolding connect_child_from_config bring_up_tun spawn_v2ray
connect_child_from_config-get_connection_status_example =
    connect_child_from_config-get_connection_status v2ray false works works quiet refl refl refl
