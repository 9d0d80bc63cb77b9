-- ===== src/Connect/Firewall/Coverage.antt =====
-- Whatever the firewall code does, a marker file tells of what may be installed.
use katacomb_vpn.Prelude.{
  ◌≡◌, String, Bool, true, false, Option, none, some, List, [], ◌∷◌, arith, inl, inr, Bool-cases,
  if◌then◌else◌,
}
use katacomb_vpn.Connect.Protocol.{Protocol}
use katacomb_vpn.Connect.Firewall.{
  Firewall, Settings, FirewallAction, arm, disarm, rearm, nothing, ArmedWith, enable_kill_switch,
  disable_kill_switch, arm_kill_switch, set_dns, set_dns_if, restore_dns_override, arm_and_flag,
  rearm_with, arm_now, disarm_now, perform, resolver_for, apply_post_connect_settings,
  revert_post_connect_settings, reapply_firewall, stand_down_firewall, heal_stranded_kill_switch,
  armed_lan, decide_firewall_action,
}

-- What may be installed is recorded by a marker, and the markers can be written.
pub record IsCovered (f : Firewall) : Type 0 where
  pub chain_marked : f.chain ≡ true → f.armed ≡ true
  pub dns_marked : f.dns_set ≡ true → f.dns_overridden ≡ true
  pub on_disk : f.writable ≡ true

-- What the connection code asks of the firewall.
pub data FirewallOp : Type 0 where
  connected : Protocol → Option String → Settings → FirewallOp
  reverted : FirewallOp
  toggled : Option Protocol → Option String → Bool → Settings → FirewallOp
  stood_down : Settings → FirewallOp
  launched : Bool → FirewallOp

abbrev apply : FirewallOp → Firewall → Firewall
apply (connected p host s) f = apply_post_connect_settings p host s f
apply reverted f = revert_post_connect_settings f
apply (toggled p host active s) f = reapply_firewall p host active s f
apply (stood_down s) f = stand_down_firewall s f
apply (launched live) f = heal_stranded_kill_switch live f

abbrev pub apply_all : List FirewallOp → Firewall → Firewall
apply_all [] f = f
apply_all (op ∷ ops) f = apply_all ops (apply op f)

set_dns_if-IsCovered : (o : Option String) (f : Firewall) → IsCovered f → IsCovered (set_dns_if o f)
unfolding set_dns
set_dns_if-IsCovered none f c = c
set_dns_if-IsCovered (some ip) f c = ground arith

arm_and_flag-IsCovered :
    (p : Protocol) (host dns : Option String) (lan : Bool) (f : Firewall)
    → IsCovered f
    → IsCovered (arm_and_flag p host dns lan f)
unfolding arm_kill_switch
arm_and_flag-IsCovered p none dns lan f c = ground arith
arm_and_flag-IsCovered p (some h) dns lan f c = ground arith

restore-IsCovered : (f : Firewall) → IsCovered f → IsCovered (restore_dns_override f)
unfolding restore_dns_override
restore-IsCovered f c = ground arith

revert-IsCovered : (f : Firewall) → IsCovered f → IsCovered (revert_post_connect_settings f)
unfolding revert_post_connect_settings disable_kill_switch restore_dns_override
revert-IsCovered f c = ground arith

if-IsCovered :
    (b : Bool) {f g : Firewall} → IsCovered f → IsCovered g → IsCovered (if b then f else g)
if-IsCovered true c d = c
if-IsCovered false c d = d

connect-IsCovered :
    (p : Protocol) (host : Option String) (s : Settings) (f : Firewall)
    → IsCovered f
    → IsCovered (apply_post_connect_settings p host s f)
unfolding apply_post_connect_settings
connect-IsCovered p host s f c =
    if-IsCovered s.kill_switch
      (arm_and_flag-IsCovered p host (resolver_for p s) s.lan_sharing _ (covered f c)) (covered f c)
  where
    covered :
        (f : Firewall)
        → IsCovered f
        → IsCovered (
            set_dns_if
              (resolver_for p s)
              (record f { kill_switch_failed = false; teardown_failed = false }))
    covered f c = set_dns_if-IsCovered (resolver_for p s) _ (ground arith)

rearm-IsCovered :
    (lan : Bool) (o : Option ArmedWith) (f : Firewall)
    → IsCovered f
    → IsCovered (rearm_with lan o f)
unfolding enable_kill_switch
rearm-IsCovered lan none f c = c
rearm-IsCovered lan (some w) f c = ground arith

disarm-IsCovered : (f : Firewall) → IsCovered f → IsCovered (disarm_now f)
unfolding disable_kill_switch
disarm-IsCovered f c = ground arith

arm_now-IsCovered :
    (p : Option Protocol) (host : Option String) (s : Settings) (f : Firewall)
    → IsCovered f
    → IsCovered (arm_now p host s f)
arm_now-IsCovered none host s f c = ground arith
arm_now-IsCovered (some p) host s f c = elim (Bool-cases f.dns_overridden) [
  | inl e ↦ simp e (arm_and_flag-IsCovered p host (resolver_for p s) s.lan_sharing f c)
  | inr e ↦ simp e (
      arm_and_flag-IsCovered p host (resolver_for p s) s.lan_sharing _
        (set_dns_if-IsCovered (resolver_for p s) f c))
]

perform-IsCovered :
    (a : FirewallAction) (p : Option Protocol) (host : Option String) (s : Settings) (f : Firewall)
    → IsCovered f
    → IsCovered (perform a p host s f)
perform-IsCovered nothing p host s f c = c
perform-IsCovered disarm p host s f c = disarm-IsCovered f c
perform-IsCovered rearm p host s f c = rearm-IsCovered s.lan_sharing f.armed_with f c
perform-IsCovered arm p host s f c = arm_now-IsCovered p host s f c

reapply-IsCovered :
    (p : Option Protocol) (host : Option String) (active : Bool) (s : Settings) (f : Firewall)
    → IsCovered f
    → IsCovered (reapply_firewall p host active s f)
unfolding reapply_firewall
reapply-IsCovered p host active s f c =
    perform-IsCovered
      (decide_firewall_action s.kill_switch s.lan_sharing f.armed (armed_lan f.armed_with) active) p
      host s f c

apply-IsCovered : (op : FirewallOp) (f : Firewall) → IsCovered f → IsCovered (apply op f)
unfolding stand_down_firewall heal_stranded_kill_switch
apply-IsCovered (connected p host s) f c = connect-IsCovered p host s f c
apply-IsCovered reverted f c = revert-IsCovered f c
apply-IsCovered (toggled p host active s) f c = reapply-IsCovered p host active s f c
apply-IsCovered (stood_down s) f c = ground (arith, restore-IsCovered f c, revert-IsCovered f c)
apply-IsCovered (launched live) f c = ground (arith, revert-IsCovered f c)

-- Over every sequence of connects, reverts, setting toggles, stand-downs and launches, and however
-- the helper's calls end, a kill switch chain or a DNS override that may be installed is recorded by
-- its marker file, as long as the marker files can be written.
pub apply_all-IsCovered :
    (ops : List FirewallOp) (f : Firewall) → IsCovered f → IsCovered (apply_all ops f)
apply_all-IsCovered [] f c = c
apply_all-IsCovered (op ∷ ops) f c = apply_all-IsCovered ops (apply op f) (apply-IsCovered op f c)
