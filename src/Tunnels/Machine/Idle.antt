-- ===== src/Tunnels/Machine/Idle.antt =====
-- What is left behind `disconnect` of src/main/vpn/vpn-manager.ts.
use katacomb_vpn.Prelude.{◌≢◌, ℕ, ◌≡◌, refl, ◌∙◌, true, false, not, none, arith, ◌==◌, filter}
use katacomb_vpn.Tunnels.Machine.{
  Machine, Teardown, tunnel, absent, userspace, stop_tun, stop_child, stop_amneziawg,
  stop_wireguard, stop_openvpn, forget, disconnect, child_exits, bring_down_tun,
  bring_down_amneziawg, bring_down_all_wireguard, bring_down_openvpn,
}
use katacomb_vpn.Tunnels.Machine.Status.{
  get_connection_status, status_of_interfaces, disconnected, is_vpn_active,
}

-- The variables of the module are those of no connection.
pub record IsForgotten (m : Machine) : Type 0 where
  pub no_child : m.active_child ≡ none
  pub no_protocol : m.active_protocol ≡ none
  pub in_tunnel_mode : m.active_mode ≡ tunnel
  pub no_config_file : m.active_config_file ≡ none
  pub no_log_path : m.active_log_path ≡ false
  pub no_v2ray_json : m.has_v2ray_json ≡ false
  pub tun_inactive : m.tun_active ≡ false

-- Every call takes its interface down.
pub record IsObeyed (r : Teardown) : Type 0 where
  pub by_down : r.down ≡ true
  pub by_awg_down : r.awg_down ≡ true
  pub by_ovpn_down : r.ovpn_down ≡ true
  pub by_tun_down : r.tun_down ≡ true

-- No interface of ours is left.
pub record IsDown (m : Machine) : Type 0 where
  pub no_sntl0 : m.sntl0 ≡ absent
  pub no_tun : m.tun_up ≡ false
  pub no_openvpn : m.openvpn_up ≡ false

stop_tun-tun_active : (r : Teardown) (m : Machine) → (stop_tun r m).tun_active ≡ false
unfolding stop_tun bring_down_tun
stop_tun-tun_active r m = ground arith

stop_child-tun_active : (m : Machine) → (stop_child m).tun_active ≡ m.tun_active
unfolding stop_child
stop_child-tun_active m = ground arith

stop_amneziawg-tun_active :
    (r : Teardown) (m : Machine) → (stop_amneziawg r m).tun_active ≡ m.tun_active
unfolding stop_amneziawg bring_down_amneziawg
stop_amneziawg-tun_active r m = ground arith

stop_wireguard-tun_active :
    (r : Teardown) (m : Machine) → (stop_wireguard r m).tun_active ≡ m.tun_active
unfolding stop_wireguard bring_down_all_wireguard
stop_wireguard-tun_active r m = ground arith

stop_openvpn-tun_active :
    (r : Teardown) (m : Machine) → (stop_openvpn r m).tun_active ≡ m.tun_active
unfolding stop_openvpn bring_down_openvpn
stop_openvpn-tun_active r m = ground arith

disconnect-IsForgotten : (r : Teardown) (m : Machine) → IsForgotten (disconnect r m)
unfolding disconnect forget
disconnect-IsForgotten r m =
    let t = stop_tun r m in
    let c = stop_child t in
    let a = stop_amneziawg r c in
    let w = stop_wireguard r a in
    record {
      no_child = refl;
      no_protocol = refl;
      in_tunnel_mode = refl;
      no_config_file = refl;
      no_log_path = refl;
      no_v2ray_json = refl;
      tun_inactive =
          stop_openvpn-tun_active r w
          ∙ stop_wireguard-tun_active r a
          ∙ stop_amneziawg-tun_active r c
          ∙ stop_child-tun_active t
          ∙ stop_tun-tun_active r m;
    }

stop_amneziawg-sntl0 :
    (r : Teardown) (m : Machine) → r.awg_down ≡ true → (stop_amneziawg r m).sntl0 ≢ userspace
unfolding stop_amneziawg bring_down_amneziawg
stop_amneziawg-sntl0 r m g = ground arith

stop_wireguard-sntl0 :
    (r : Teardown) (m : Machine)
    → r.down ≡ true
    → m.sntl0 ≢ userspace
    → (stop_wireguard r m).sntl0 ≡ absent
unfolding stop_wireguard bring_down_all_wireguard
stop_wireguard-sntl0 r m g n = ground arith

stop_openvpn-sntl0 : (r : Teardown) (m : Machine) → (stop_openvpn r m).sntl0 ≡ m.sntl0
unfolding stop_openvpn bring_down_openvpn
stop_openvpn-sntl0 r m = ground arith

stop_openvpn-openvpn_up :
    (r : Teardown) (m : Machine) → r.ovpn_down ≡ true → (stop_openvpn r m).openvpn_up ≡ false
unfolding stop_openvpn bring_down_openvpn
stop_openvpn-openvpn_up r m g = ground arith

stop_tun-tun_up : (r : Teardown) (m : Machine) → r.tun_down ≡ true → (stop_tun r m).tun_up ≡ false
unfolding stop_tun bring_down_tun
stop_tun-tun_up r m g = ground arith

stop_child-tun_up : (m : Machine) → (stop_child m).tun_up ≡ m.tun_up
unfolding stop_child
stop_child-tun_up m = ground arith

stop_amneziawg-tun_up : (r : Teardown) (m : Machine) → (stop_amneziawg r m).tun_up ≡ m.tun_up
unfolding stop_amneziawg bring_down_amneziawg
stop_amneziawg-tun_up r m = ground arith

stop_wireguard-tun_up : (r : Teardown) (m : Machine) → (stop_wireguard r m).tun_up ≡ m.tun_up
unfolding stop_wireguard bring_down_all_wireguard
stop_wireguard-tun_up r m = ground arith

stop_openvpn-tun_up : (r : Teardown) (m : Machine) → (stop_openvpn r m).tun_up ≡ m.tun_up
unfolding stop_openvpn bring_down_openvpn
stop_openvpn-tun_up r m = ground arith

disconnect-IsDown : (r : Teardown) (m : Machine) → IsObeyed r → IsDown (disconnect r m)
unfolding disconnect forget
disconnect-IsDown r m o =
    let t = stop_tun r m in
    let c = stop_child t in
    let a = stop_amneziawg r c in
    let w = stop_wireguard r a in
    record {
      no_sntl0 =
          stop_openvpn-sntl0 r w
          ∙ stop_wireguard-sntl0 r a o.by_down (stop_amneziawg-sntl0 r c o.by_awg_down);
      no_tun =
          stop_openvpn-tun_up r w
          ∙ stop_wireguard-tun_up r a
          ∙ stop_amneziawg-tun_up r c
          ∙ stop_child-tun_up t
          ∙ stop_tun-tun_up r m o.by_tun_down;
      no_openvpn = stop_openvpn-openvpn_up r w o.by_ovpn_down;
    }

-- Once nothing is up and nothing is remembered, the status says so and the call changes nothing.
status_when_idle :
    (m : Machine)
    → IsForgotten m
    → IsDown m
    → (get_connection_status m ≡ (disconnected, m)) × (is_vpn_active m ≡ false)
unfolding get_connection_status status_of_interfaces is_vpn_active
status_when_idle m f d =
    let no_protocol = f.no_protocol in
    let no_sntl0 = d.no_sntl0 in
    let no_tun = d.no_tun in let no_openvpn = d.no_openvpn in ground arith

-- The exit of a process that is not the active child touches the list of processes alone.
child_exits-forgotten :
    (r : Teardown) (c : ℕ) (m : Machine)
    → m.active_child ≡ none
    → child_exits r c m ≡ record m { running = filter (λ d. not (d == c)) m.running }
unfolding child_exits
child_exits-forgotten r c m n = ground arith

-- If every call takes its interface down, none of ours is left behind a `disconnect`, whatever was
-- up, no connection is remembered, and the status says so and changes nothing by that.
pub disconnect-IsIdle :
    (r : Teardown) (m : Machine)
    → IsObeyed r
    → IsForgotten (disconnect r m)
      × IsDown (disconnect r m)
      × (get_connection_status (disconnect r m) ≡ (disconnected, disconnect r m))
      × (is_vpn_active (disconnect r m) ≡ false)
disconnect-IsIdle r m o =
    let f = disconnect-IsForgotten r m in
    let d = disconnect-IsDown r m o in
    let (status, inactive) = status_when_idle (disconnect r m) f d in (f, d, status, inactive)

-- Behind a `disconnect`, whatever its calls did, the exit of any process, such as the child that was
-- signalled, touches no variable and no interface and makes no call of the callback for an
-- unexpected exit.
pub child_exits-disconnect :
    (r s : Teardown) (c : ℕ) (m : Machine)
    → child_exits s c (disconnect r m)
      ≡ record (disconnect r m) { running = filter (λ d. not (d == c)) (disconnect r m).running }
child_exits-disconnect r s c m =
    child_exits-forgotten s c (disconnect r m) (disconnect-IsForgotten r m).no_child
