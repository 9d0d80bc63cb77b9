-- ===== src/Connect/Firewall.antt =====
-- The kill switch and the DNS override: src/main/vpn/kill-switch.ts and their use in
-- src/main/ipc-handlers.ts (`armKillSwitch`, `applyPostConnectSettings`,
-- `revertPostConnectSettings`, `reapplyFirewall`, `restoreDnsOverride`, `healStrandedKillSwitch`,
-- the teardown of `standDownSession`), with `decideFirewallAction` of
-- src/main/vpn/connect-decisions.ts. The privileged helper is not this code: the outcomes of its
-- calls are the list `replies`, and `chain` and `dns_set` are what it may have left installed,
-- and `chain_words` the words of the last call that may have installed the chain.
pub mod Coverage
pub mod Teardown
use text.Mathlib.Text.{◌==◌ as str_eq}
use katacomb_vpn.Prelude.{
  ◌++◌, ℕ, ◌+◌, String, Bool, true, false, not, ◌&&◌, ◌||◌, Option, none, some, List, [], ◌∷◌,
  if◌then◌else◌, is_some,
}
use katacomb_vpn.Connect.Protocol.{Protocol, is_wg_like, needs_dns, interface_of}

-- How a privileged call ended: done, failed having changed nothing, or failed half-way.
pub data Reply : Type 0 where
  done refused partial : Reply

-- `armedWith`: what the kill switch was armed with.
pub record ArmedWith : Type 0 where
  pub iface : String
  pub remote_host : String
  pub dns_ip : Option String
  pub lan_sharing : Bool

pub record Settings : Type 0 where
  pub kill_switch : Bool
  pub lan_sharing : Bool
  pub dns_resolver : Option String  -- none is 'system'

-- `armed` and `dns_overridden` are the marker files, which are written and removed only if the
-- directory is `writable` (the code goes on without them). `calls` counts the privileged calls.
pub record Firewall : Type 0 where
  pub armed : Bool
  pub armed_with : Option ArmedWith
  pub kill_switch_failed : Bool
  pub teardown_failed : Bool
  pub dns_overridden : Bool
  pub chain : Bool
  pub chain_words : List String
  pub dns_set : Bool
  pub writable : Bool
  pub replies : List Reply
  pub calls : ℕ

abbrev default_kill_switch_dns : String
default_kill_switch_dns = "1.1.1.1"

unfoldable pub effective_resolver_ip : Settings → Option String
effective_resolver_ip s = elim s.dns_resolver [
  | some ip ↦ some ip
  | none ↦ if s.kill_switch then some default_kill_switch_dns else none
]

-- A call of the helper takes the next reply; with none left it fails.
abbrev next_reply : List Reply → Reply
next_reply [] = refused
next_reply (r ∷ _) = r

abbrev later_replies : List Reply → List Reply
later_replies [] = []
later_replies (_ ∷ rs) = rs

abbrev pub call : Firewall → Firewall
call f = record f { replies = later_replies f.replies; calls = f.calls + 1 }

-- A call that installs something: it is there unless the call changed nothing.
abbrev pub installed : Reply → Bool → Bool
installed refused before = before
installed _ before = true

-- A call that removes something: it is gone only if the call succeeded.
abbrev removed : Reply → Bool → Bool
removed done before = false
removed _ before = before

abbrev pub succeeded : Reply → Bool
succeeded done = true
succeeded _ = false

-- `opts.dnsIp && opts.dnsIp !== 'system' ? [opts.dnsIp] : []`
abbrev pub dns_words : Option String → List String
dns_words none = []
dns_words (some ip) = if str_eq ip "" || str_eq ip "system" then [] else ip ∷ []

abbrev pub lan_words : Bool → List String
lan_words true = "lan-sharing" ∷ []
lan_words false = []

abbrev words_after : Reply → List String → List String → List String
words_after refused new old = old
words_after _ new old = new

-- `enableKillSwitch`: the marker first, then the call. The result tells whether it returned.
unfoldable pub enable_kill_switch :
    String → String → Option String → Bool → Firewall → Bool × Firewall
enable_kill_switch vpn_interface remote_host dns_ip lan f =
    let r = next_reply f.replies in
    let f' = call f in
    let words =
      "killswitch-on" ∷ vpn_interface ∷ remote_host ∷ (dns_words dns_ip ++ lan_words lan) in
    (
      succeeded r,
      record f' {
        armed = f.writable || f.armed;
        chain = installed r f.chain;
        chain_words = words_after r words f.chain_words;
      },
    )

-- `disableKillSwitch`: the marker goes only after a confirmed teardown.
unfoldable pub disable_kill_switch : Firewall → Bool × Firewall
disable_kill_switch f =
    let r = next_reply f.replies in
    let f' = call f in
    (
      succeeded r,
      record f' { armed = f.armed && not (succeeded r && f.writable); chain = removed r f.chain },
    )

-- How `armKillSwitch` ends: it returns a Boolean or throws.
pub data ArmResult : Type 0 where
  armed no_endpoint threw : ArmResult

-- `host` is the endpoint's address as the protocol's getter finds it.
unfoldable pub arm_kill_switch :
    Protocol → Option String → Option String → Bool → Firewall → ArmResult × Firewall
unfolding enable_kill_switch
arm_kill_switch p none dns_ip lan f = (no_endpoint, f)
arm_kill_switch p (some host) dns_ip lan f =
    let (returned, f') = enable_kill_switch (interface_of p) host dns_ip lan f in
    if returned
    then (
      armed,
      record f' {
        armed_with = some (record {
          iface = interface_of p;
          remote_host = host;
          dns_ip = dns_ip;
          lan_sharing = lan;
        });
      },
    )
    else (threw, f')

-- `markDnsOverridden` and `dns-set`, whose failure is only logged.
unfoldable pub set_dns : Firewall → Firewall
set_dns f =
    let f' = call f in
    record f' {
      dns_overridden = f.writable || f.dns_overridden;
      dns_set = installed (next_reply f.replies) f.dns_set;
    }

unfoldable pub restore_dns_override : Firewall → Firewall
restore_dns_override f =
    if f.dns_overridden
    then (let r = next_reply f.replies in
        let f' = call f in
        record f' {
          dns_overridden = not (succeeded r && f.writable);
          dns_set = removed r f.dns_set;
        })
    else f

abbrev was_armed : ArmResult → Bool
was_armed armed = true
was_armed _ = false

abbrev pub arm_and_flag : Protocol → Option String → Option String → Bool → Firewall → Firewall
arm_and_flag p host dns_ip lan f =
    let (r, f') = arm_kill_switch p host dns_ip lan f in
    record f' { kill_switch_failed = not (was_armed r) }

-- The resolver that a connection of the protocol has to be pointed at.
abbrev pub resolver_for : Protocol → Settings → Option String
resolver_for p s = if needs_dns p then effective_resolver_ip s else none

abbrev pub set_dns_if : Option String → Firewall → Firewall
set_dns_if none f = f
set_dns_if (some _) f = set_dns f

unfoldable pub apply_post_connect_settings :
    Protocol → Option String → Settings → Firewall → Firewall
apply_post_connect_settings p host s f =
    let g =
      set_dns_if (resolver_for p s)
        (record f { kill_switch_failed = false; teardown_failed = false }) in
    if s.kill_switch then arm_and_flag p host (resolver_for p s) s.lan_sharing g else g

unfoldable pub revert_post_connect_settings : Firewall → Firewall
revert_post_connect_settings f = restore_dns_override (
    if f.armed
    then (let (ok, g) = disable_kill_switch f in
        record g {
          kill_switch_failed = false;
          teardown_failed = not ok;
          armed_with = if ok then none else g.armed_with;
        })
    else record f { kill_switch_failed = false; teardown_failed = false; armed_with = none })

pub data FirewallAction : Type 0 where
  arm disarm rearm nothing : FirewallAction

abbrev pub differs : Bool → Bool → Bool
differs true b = not b
differs false b = b

unfoldable pub decide_firewall_action : Bool → Bool → Bool → Bool → Bool → FirewallAction
decide_firewall_action kill_switch lan_sharing is_armed armed_lan_sharing tunnel_active =
    if is_armed && not kill_switch
    then disarm
    else if is_armed && differs lan_sharing armed_lan_sharing
    then rearm
    else if not is_armed && (kill_switch && tunnel_active)
    then arm
    else nothing

-- `armedWith?.lanSharing ?? false`
abbrev pub armed_lan : Option ArmedWith → Bool
armed_lan none = false
armed_lan (some w) = w.lan_sharing

abbrev pub rearm_with : Bool → Option ArmedWith → Firewall → Firewall
rearm_with lan none f = f
rearm_with lan (some w) f =
    let (returned, g) = enable_kill_switch w.iface w.remote_host w.dns_ip lan f in
    if returned
    then record g { armed_with = some (record w { lan_sharing = lan }); kill_switch_failed = false }
    else record g { kill_switch_failed = true }

abbrev pub arm_now : Option Protocol → Option String → Settings → Firewall → Firewall
arm_now none host s f = record f { kill_switch_failed = true }
arm_now (some p) host s f =
    arm_and_flag p host (resolver_for p s) s.lan_sharing
      (if f.dns_overridden then f else set_dns_if (resolver_for p s) f)

abbrev pub disarm_now : Firewall → Firewall
disarm_now f =
    let (ok, g) = disable_kill_switch f in
    record g {
      teardown_failed = not ok;
      armed_with = if ok then none else g.armed_with;
      kill_switch_failed = if ok then false else g.kill_switch_failed;
    }

abbrev pub perform :
    FirewallAction → Option Protocol → Option String → Settings → Firewall → Firewall
perform nothing p host s f = f
perform disarm p host s f = disarm_now f
perform rearm p host s f = rearm_with s.lan_sharing f.armed_with f
perform arm p host s f = arm_now p host s f

-- `p` is `desiredProtocol`, `active` is `isVpnActive()`.
unfoldable pub reapply_firewall :
    Option Protocol → Option String → Bool → Settings → Firewall → Firewall
unfolding decide_firewall_action
reapply_firewall p host active s f =
    perform
      (decide_firewall_action s.kill_switch s.lan_sharing f.armed (armed_lan f.armed_with) active) p
      host s f

-- The firewall's part of `standDownSession`: the chain stays if the setting says so.
unfoldable pub stand_down_firewall : Settings → Firewall → Firewall
stand_down_firewall s f =
    if s.kill_switch then restore_dns_override f else revert_post_connect_settings f

unfoldable pub heal_stranded_kill_switch : Bool → Firewall → Firewall
heal_stranded_kill_switch connected f =
    if f.armed && not connected then revert_post_connect_settings f else f
