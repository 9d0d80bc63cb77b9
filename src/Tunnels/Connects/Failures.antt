-- ===== src/Tunnels/Connects/Failures.antt =====
-- What a bring-up of src/main/vpn/vpn-manager.ts that fails leaves behind.
use katacomb_vpn.Prelude.{Bool, true, ◌≡◌, ◌⊎◌, false, none}
use katacomb_vpn.Tunnels.Machine.{Machine, is_present}
use katacomb_vpn.Tunnels.Connects.{Outcome}

-- The variables are as they were, no file or process has come, and no interface, unless the call that
-- failed `leaves` its own.
pub record IsUntouched (leaves : Bool) (old new : Machine) : Type 0 where
  pub same_child : new.active_child ≡ old.active_child
  pub same_protocol : new.active_protocol ≡ old.active_protocol
  pub same_mode : new.active_mode ≡ old.active_mode
  pub same_config_file : new.active_config_file ≡ old.active_config_file
  pub same_running : new.running ≡ old.running
  pub same_tun : (new.tun_active ≡ old.tun_active) × ((new.tun_up ≡ old.tun_up) ⊎ (leaves ≡ true))
  pub no_new_sntl0 : (new.sntl0 ≡ old.sntl0) ⊎ ((is_present new.sntl0 ≡ false) ⊎ (leaves ≡ true))
  pub no_new_openvpn :
      (new.openvpn_up ≡ old.openvpn_up) ⊎ ((new.openvpn_up ≡ false) ⊎ (leaves ≡ true))
  pub no_new_sntl0_conf : (new.has_sntl0_conf ≡ old.has_sntl0_conf) ⊎ (new.has_sntl0_conf ≡ false)
  pub no_new_openvpn_conf :
      (new.has_openvpn_conf ≡ old.has_openvpn_conf) ⊎ (new.has_openvpn_conf ≡ false)
  pub same_v2ray_json : new.has_v2ray_json ≡ old.has_v2ray_json

-- A call throws nothing, or it leaves all as it was but for what the failed call leaves.
abbrev pub IsAtomic : Bool → Machine → Outcome → Type 0
IsAtomic l m (e, n) = (e ≡ none) ⊎ IsUntouched l m n
