-- ===== src/Tunnels/Machine.antt =====
-- The state of src/main/vpn/vpn-manager.ts with what it asks of the system, and its teardowns; the
-- status is in Status. A privileged call that takes an interface down is answered by whether the interface is
-- gone behind it: the code looks at nothing else of the answer.
pub mod Status
pub mod Idle
pub mod Evidence
use katacomb_vpn.Prelude.{
  ℕ, ◌+◌, ◌-◌, ◌/◌, Bool, true, false, not, ◌&&◌, ◌||◌, Option, none, some, List, ◌∷◌, ◌==◌,
  if◌then◌else◌, is_none, filter, any,
}
use katacomb_vpn.Connect.Protocol.{Protocol, wireguard, amneziawg, v2ray, xray, hysteria2, openvpn}

pub data Mode : Type 0 where
  tunnel proxy : Mode

-- What `sntl0` is: no interface, WireGuard's of the kernel, or AmneziaWG's in user space.
pub data Sntl0 : Type 0 where
  absent kernel userspace : Sntl0

pub data ConfigFile : Type 0 where
  sntl0_conf v2ray_json openvpn_conf : ConfigFile

pub record Machine : Type 0 where
  -- The variables of the module; a child is the number of its process.
  pub active_child : Option ℕ
  pub active_protocol : Option Protocol
  pub active_mode : Mode
  pub active_config_file : Option ConfigFile
  pub active_log_path : Bool
  pub tun_active : Bool
  -- The system: interfaces, running processes, files, signals sent, and calls of the callback.
  pub sntl0 : Sntl0
  pub other_wireguard : Bool
  pub tun_up : Bool
  pub openvpn_up : Bool
  pub running : List ℕ
  pub has_sntl0_conf : Bool
  pub has_v2ray_json : Bool
  pub has_openvpn_conf : Bool
  pub has_log : Bool
  pub signalled : List ℕ
  pub callbacks : ℕ

-- Whether an interface is gone behind the call that takes it down.
pub record Teardown : Type 0 where
  pub down : Bool
  pub awg_down : Bool
  pub ovpn_down : Bool
  pub tun_down : Bool

-- `isChildProxy`.
abbrev pub is_child_protocol : Protocol → Bool
is_child_protocol v2ray = true
is_child_protocol xray = true
is_child_protocol hysteria2 = true
is_child_protocol _ = false

abbrev pub is_child_proxy : Option Protocol → Bool
is_child_proxy none = false
is_child_proxy (some p) = is_child_protocol p

abbrev is_kernel : Sntl0 → Bool
is_kernel kernel = true
is_kernel _ = false

abbrev pub is_present : Sntl0 → Bool
is_present absent = false
is_present _ = true

-- `isWireGuardUp`, `sntl0IsKernelWireGuard`, `isAnyWireGuardUp`.
abbrev pub is_wireguard_up : Machine → Bool
is_wireguard_up m = is_present m.sntl0

abbrev sntl0_is_kernel_wireguard : Machine → Bool
sntl0_is_kernel_wireguard m = is_kernel m.sntl0

abbrev is_any_wireguard_up : Machine → Bool
is_any_wireguard_up m = is_kernel m.sntl0 || m.other_wireguard

abbrev pub is_amneziawg : Option Protocol → Bool
is_amneziawg (some amneziawg) = true
is_amneziawg _ = false

abbrev pub is_wireguard : Option Protocol → Bool
is_wireguard (some wireguard) = true
is_wireguard _ = false

abbrev pub is_openvpn : Option Protocol → Bool
is_openvpn (some openvpn) = true
is_openvpn _ = false

abbrev without_kernel : Bool → Sntl0 → Sntl0
without_kernel true kernel = absent
without_kernel true s = s
without_kernel false s = s

abbrev without_userspace : Bool → Sntl0 → Sntl0
without_userspace true userspace = absent
without_userspace true s = s
without_userspace false s = s

-- `bringDownAllWireGuard`.
unfoldable pub bring_down_all_wireguard : Teardown → Machine → Machine
bring_down_all_wireguard r m =
    if not (is_any_wireguard_up m)
    then m
    else record m { sntl0 = without_kernel r.down m.sntl0; has_sntl0_conf = false }

-- `bringDownAmneziaWg`.
unfoldable pub bring_down_amneziawg : Teardown → Machine → Machine
bring_down_amneziawg r m = record m {
  sntl0 = without_userspace r.awg_down m.sntl0;
  has_sntl0_conf = false;
}

-- `ensureSntl0Down`.
unfoldable pub ensure_sntl0_down : Teardown → Machine → Machine
ensure_sntl0_down r m =
    if not (is_wireguard_up m)
    then m
    else if sntl0_is_kernel_wireguard m
    then bring_down_all_wireguard r m
    else bring_down_amneziawg r m

-- `bringDownOpenVpn` and `ensureOpenVpnDown`.
unfoldable pub bring_down_openvpn : Teardown → Machine → Machine
bring_down_openvpn r m = record m {
  openvpn_up = m.openvpn_up && not r.ovpn_down;
  has_openvpn_conf = false;
}

unfoldable pub ensure_openvpn_down : Teardown → Machine → Machine
ensure_openvpn_down r m = if not m.openvpn_up then m else bring_down_openvpn r m

-- `bringDownTun`.
unfoldable pub bring_down_tun : Teardown → Machine → Machine
bring_down_tun r m =
    if not m.tun_active && not m.tun_up
    then m
    else record m { tun_up = m.tun_up && not r.tun_down; tun_active = false }

-- The `SIGTERM` of `disconnect`.
abbrev signal_child : Option ℕ → Machine → Machine
signal_child none m = m
signal_child (some c) m = record m { active_child = none; signalled = c ∷ m.signalled }

unfoldable pub stop_child : Machine → Machine
stop_child m = if is_child_proxy m.active_protocol then signal_child m.active_child m else m

unfoldable pub stop_tun : Teardown → Machine → Machine
stop_tun r m = if m.tun_active || m.tun_up then bring_down_tun r m else m

unfoldable pub stop_amneziawg : Teardown → Machine → Machine
stop_amneziawg r m =
    if is_amneziawg m.active_protocol || (is_wireguard_up m && not (sntl0_is_kernel_wireguard m))
    then bring_down_amneziawg r m
    else m

unfoldable pub stop_wireguard : Teardown → Machine → Machine
stop_wireguard r m =
    if is_wireguard m.active_protocol || is_wireguard_up m then bring_down_all_wireguard r m else m

unfoldable pub stop_openvpn : Teardown → Machine → Machine
stop_openvpn r m =
    if is_openvpn m.active_protocol || m.openvpn_up then bring_down_openvpn r m else m

-- The files and the variables at the end of `disconnect`.
unfoldable pub forget : Machine → Machine
forget m = record m {
  has_v2ray_json = false;
  has_log = m.has_log && not m.active_log_path;
  active_log_path = false;
  active_protocol = none;
  active_mode = tunnel;
  active_config_file = none;
  active_child = none;
}

-- `disconnect`.
unfoldable pub disconnect : Teardown → Machine → Machine
disconnect r m =
    forget (stop_openvpn r (stop_wireguard r (stop_amneziawg r (stop_child (stop_tun r m)))))

abbrev pub forget_child : Machine → Machine
forget_child m = record m {
  active_protocol = none;
  active_mode = tunnel;
  active_config_file = none;
  active_child = none;
}

abbrev pub kind_of_sntl0 : Machine → Protocol
kind_of_sntl0 m = if sntl0_is_kernel_wireguard m then wireguard else amneziawg

-- The `exit` handler of a child that `spawnV2Ray` started, with the teardown that it starts done.
abbrev pub is_active : Option ℕ → ℕ → Bool
is_active none c = false
is_active (some d) c = d == c

unfoldable pub child_exits : Teardown → ℕ → Machine → Machine
child_exits r c m =
    let gone = record m { running = filter (λ d. not (d == c)) m.running } in
    let down = if m.tun_active || m.tun_up then bring_down_tun r gone else gone in
    if is_active m.active_child c
    then record (forget_child down) { callbacks = m.callbacks + 1 }
    else gone

-- `killAllTunnels`.
abbrev kill_active : Machine → Machine
kill_active m = elim m.active_child [
  | none ↦ m
  | some c ↦ if any (λ d. d == c) m.signalled then m else record m { signalled = c ∷ m.signalled }
]

unfoldable kill_all_tunnels : Teardown → Machine → Machine
kill_all_tunnels r m =
    let down = ensure_openvpn_down r (ensure_sntl0_down r (kill_active (stop_tun r m))) in
    record down {
      has_v2ray_json = false;
      active_child = none;
      active_protocol = none;
      active_config_file = none;
    }

-- `detectExistingConnection`.
unfoldable detect_existing_connection : Teardown → Machine → Machine
detect_existing_connection r m =
    let adopted =
      if is_wireguard_up m
      then record m {
        active_protocol = some (kind_of_sntl0 m);
        active_config_file = some sntl0_conf;
      }
      else if m.openvpn_up
      then record m { active_protocol = some openvpn; active_config_file = some openvpn_conf }
      else m in
    if m.tun_up && is_none m.active_child then bring_down_tun r adopted else adopted
