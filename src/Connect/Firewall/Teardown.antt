-- ===== src/Connect/Firewall/Teardown.antt =====
-- What is installed after the firewall's operations, and what the flags say of it.
use katacomb_vpn.Prelude.{◌≡◌, String, Bool, true, false, Option, List, ◌∷◌, arith}
use katacomb_vpn.Connect.Protocol.{Protocol}
use katacomb_vpn.Connect.Firewall.{
  Reply, done, Firewall, Settings, disable_kill_switch, restore_dns_override,
  revert_post_connect_settings, reapply_firewall, disarm_now,
}
use katacomb_vpn.Connect.Firewall.Coverage.{IsCovered}

-- A disconnect never leaves the user blocked in silence: from any covered state, a chain that may
-- still be installed after the revert is flagged by `killSwitchTeardownFailed`.
revert-chain_flagged :
    (f : Firewall)
    → IsCovered f
    → (revert_post_connect_settings f).chain ≡ true
    → (revert_post_connect_settings f).teardown_failed ≡ true
unfolding revert_post_connect_settings disable_kill_switch restore_dns_override
revert-chain_flagged f c h = ground arith

-- Nothing is installed and no marker is left.
pub record IsClean (f : Firewall) : Type 0 where
  pub no_chain : f.chain ≡ false
  pub no_dns : f.dns_set ≡ false
  pub not_armed : f.armed ≡ false
  pub not_overridden : f.dns_overridden ≡ false
  pub no_failure : f.teardown_failed ≡ false

-- If the helper does what it is asked, a revert removes the chain, the DNS override and both
-- markers, from any covered state.
revert-IsClean :
    (f : Firewall) (later : List Reply)
    → IsCovered f
    → f.replies ≡ done ∷ done ∷ later
    → IsClean (revert_post_connect_settings f)
unfolding revert_post_connect_settings disable_kill_switch restore_dns_override
revert-IsClean f later c h = ground arith

disarm-chain_flagged :
    (f : Firewall)
    → IsCovered f
    → (disarm_now f).chain ≡ true
    → (disarm_now f).teardown_failed ≡ true
unfolding disable_kill_switch
disarm-chain_flagged f c h = ground arith

-- Turning the kill switch off in a session removes the chain or says that it could not.
toggle_off-chain_flagged :
    (p : Option Protocol) (host : Option String) (active : Bool) (s : Settings) (f : Firewall)
    → IsCovered f
    → s.kill_switch ≡ false
    → (reapply_firewall p host active s f).chain ≡ true
    → (reapply_firewall p host active s f).teardown_failed ≡ true
unfolding reapply_firewall disable_kill_switch
toggle_off-chain_flagged p host active s f c off h = ground arith
