-- ===== src/Tunnels/Connects.antt =====
-- The bring-ups of src/main/vpn/vpn-manager.ts. What the code asks of the helper, of the binaries
-- and of the guards of a configuration is answered by `Answers`.
pub mod Failures
pub mod Reports
use katacomb_vpn.Prelude.{
  ℕ, zero, suc, ◌+◌, ◌-◌, ◌*◌, ◌/◌, ◌%◌, ◌≤◌, ◌<◌, ◌≡◌, refl, sym, ap, ◌∙◌, subst, ◌↔◌, ◌⊎◌, inl,
  inr, Bool, true, false, not, ◌&&◌, ◌||◌, Option, none, some, List, [], ◌∷◌, ◌++◌, map, arith, ltb,
  leb, ◌==◌, if◌then◌else◌, ltb→lt, lt→ltb, leb→le, le→leb, ==_iff, tests, Bool-cases, Option-cases,
  is_none, is_some, unless_thrown, unless_thrown-ok, Result, ok, err, Result-cases, length, filter,
  find, any, all, All, Mem, All-mem, All-of-mem, mem-filter, mem-of-filter,
}
use katacomb_vpn.Connect.Protocol.{Protocol, wireguard, amneziawg, v2ray, xray, hysteria2, openvpn}
use katacomb_vpn.Tunnels.Machine.{
  Machine, Teardown, Mode, tunnel, proxy, Sntl0, kernel, userspace, sntl0_conf, v2ray_json,
  openvpn_conf, ensure_sntl0_down, ensure_openvpn_down, is_child_protocol,
}

pub data ConnectError : Type 0 where
  binary_missing config_unsafe bring_up_refused : ConnectError
  no_default_route no_remote_host tun_missing : ConnectError

pub record Answers : Type 0 where
  -- Whether the binary of the protocol is there, and whether its guard accepts the configuration.
  pub has_binary : Bool
  pub is_safe : Bool
  -- Whether the call that brings the interface up succeeds.
  pub comes_up : Bool
  -- Whether a call that fails leaves its interface behind, or brings it up later all the same.
  pub leaves : Bool
  pub has_default_route : Bool
  pub has_remote_host : Bool
  -- Whether the interface of tun2socks is there behind a call that succeeded.
  pub tun_appears : Bool
  -- The number of the process that is spawned.
  pub pid : ℕ
  pub teardown : Teardown

-- The error that is thrown, if one is, and the state behind the call.
abbrev pub Outcome : Type 0
Outcome = Option ConnectError × Machine

-- `bringUpWireGuard` with the clean-up of its caller.
unfoldable pub bring_up_wireguard : Answers → Machine → Outcome
bring_up_wireguard a m =
    let written = record m { has_sntl0_conf = true } in
    if not a.comes_up
    then (
      some bring_up_refused,
      record written { has_sntl0_conf = false; sntl0 = if a.leaves then kernel else m.sntl0 },
    )
    else (
      none,
      record written {
        sntl0 = kernel;
        active_protocol = some wireguard;
        active_mode = tunnel;
        active_config_file = some sntl0_conf;
      },
    )

-- `connectWireGuardFromConfig`.
unfoldable pub connect_wireguard_from_config : Answers → Machine → Outcome
connect_wireguard_from_config a m =
    if not a.has_binary
    then (some binary_missing, m)
    else if not a.is_safe
    then (some config_unsafe, ensure_sntl0_down a.teardown m)
    else bring_up_wireguard a (ensure_sntl0_down a.teardown m)

-- `bringUpAmneziaWg` with the clean-up of its caller.
unfoldable pub bring_up_amneziawg : Answers → Machine → Outcome
bring_up_amneziawg a m =
    let written = record m { has_sntl0_conf = true } in
    if not a.comes_up
    then (
      some bring_up_refused,
      record written { has_sntl0_conf = false; sntl0 = if a.leaves then userspace else m.sntl0 },
    )
    else (
      none,
      record written {
        sntl0 = userspace;
        active_protocol = some amneziawg;
        active_mode = tunnel;
        active_config_file = some sntl0_conf;
      },
    )

-- `connectAmneziaWgFromConfig`.
unfoldable pub connect_amneziawg_from_config : Answers → Machine → Outcome
connect_amneziawg_from_config a m =
    if not a.is_safe
    then (some config_unsafe, ensure_sntl0_down a.teardown m)
    else bring_up_amneziawg a (ensure_sntl0_down a.teardown m)

-- `bringUpOpenVpn` with the clean-up of its caller.
unfoldable pub bring_up_openvpn : Answers → Machine → Outcome
bring_up_openvpn a m =
    let written = record m { has_openvpn_conf = true } in
    if not a.comes_up
    then (
      some bring_up_refused,
      record written { has_openvpn_conf = false; openvpn_up = m.openvpn_up || a.leaves },
    )
    else (
      none,
      record written {
        openvpn_up = true;
        active_protocol = some openvpn;
        active_mode = tunnel;
        active_config_file = some openvpn_conf;
      },
    )

-- `connectOpenVpnFromConfig`.
unfoldable pub connect_openvpn_from_config : Answers → Machine → Outcome
connect_openvpn_from_config a m =
    if not a.has_binary
    then (some binary_missing, m)
    else if not a.is_safe
    then (some config_unsafe, ensure_openvpn_down a.teardown m)
    else bring_up_openvpn a (ensure_openvpn_down a.teardown m)

-- `spawnV2Ray`.
unfoldable pub spawn_v2ray : ℕ → Machine → Machine
spawn_v2ray c m = record m { running = c ∷ m.running; active_log_path = true; has_log = true }

abbrev mode_of : Bool → Mode
mode_of true = proxy
mode_of false = tunnel

-- The common part of `connectV2RayFromConfig`, `connectXRayFromConfig` and
-- `connectHysteria2FromConfig`.
unfoldable pub connect_child_from_config : Protocol → Bool → Answers → Machine → Outcome
connect_child_from_config p proxy_only a m =
    if not a.has_binary
    then (some binary_missing, m)
    else if not a.is_safe
    then (some config_unsafe, m)
    else (
      none,
      record (spawn_v2ray a.pid m) {
        has_v2ray_json = true;
        active_child = some a.pid;
        active_protocol = some p;
        active_mode = mode_of proxy_only;
        active_config_file = some v2ray_json;
      },
    )

abbrev connect_v2ray_from_config : Bool → Answers → Machine → Outcome
connect_v2ray_from_config = connect_child_from_config v2ray

abbrev connect_xray_from_config : Bool → Answers → Machine → Outcome
connect_xray_from_config = connect_child_from_config xray

abbrev connect_hysteria2_from_config : Bool → Answers → Machine → Outcome
connect_hysteria2_from_config = connect_child_from_config hysteria2

-- `bringUpTun`.
unfoldable pub bring_up_tun : Answers → Machine → Outcome
bring_up_tun a m =
    if not a.has_default_route
    then (some no_default_route, m)
    else if not a.has_remote_host
    then (some no_remote_host, m)
    else if not a.comes_up
    then (some bring_up_refused, record m { tun_up = m.tun_up || a.leaves })
    else if not (m.tun_up || a.tun_appears)
    then (some tun_missing, m)
    else (none, record m { tun_up = true; tun_active = true })

-- The bring-ups of the six protocols, and that of tun2socks behind a child.
pub data BringUp : Type 0 where
  by_wireguard by_amneziawg by_openvpn by_tun : BringUp
  by_child : Protocol → Bool → BringUp

abbrev pub bring_up : BringUp → Answers → Machine → Outcome
bring_up by_wireguard a m = connect_wireguard_from_config a m
bring_up by_amneziawg a m = connect_amneziawg_from_config a m
bring_up by_openvpn a m = connect_openvpn_from_config a m
bring_up by_tun a m = bring_up_tun a m
bring_up (by_child p proxy_only) a m = connect_child_from_config p proxy_only a m
