-- ===== src/Helper/Requests.antt =====
-- The words of a privileged call and the requests of the daemon: `runViaDaemon` of
-- src/main/helper/privileged.ts, and the two callers whose words carry more than a file,
-- `enableKillSwitch` of src/main/vpn/kill-switch.ts and `bringUpTun` of src/main/vpn/vpn-manager.ts.
pub mod RoundTrip
use katacomb_vpn.Prelude.{
  ℕ, zero, suc, ◌+◌, ◌-◌, ◌*◌, ◌/◌, ◌%◌, ◌≤◌, ◌<◌, ◌≡◌, refl, sym, ap, ◌∙◌, subst, ◌≢◌, ◌↔◌, ◌⊎◌,
  inl, inr, Bool, true, false, not, ◌&&◌, ◌||◌, Option, none, some, List, [], ◌∷◌, ◌++◌, map, arith,
  ltb, leb, ◌==◌, if◌then◌else◌, ltb→lt, lt→ltb, leb→le, le→leb, ==_iff, tests, Bool-cases,
  Option-cases, is_none, is_some, unless_thrown, unless_thrown-ok, Result, ok, err, Result-cases,
  length, length-filter, filter, find, any, all, All, Mem, All-mem, All-of-mem, mem-filter,
  mem-of-filter,
}
use katacomb_vpn.Guard.Text.{
  onto_cut, trim_start, trim_end, before_trimmed, onto_first, join_with, Text, codes, is_empty,
  same_text, one_of, is_space, trim, to_lower, split_at, cut_first, cut_last, starts_with,
  strip_prefix, drop_optional, span, is_digit, is_letter, is_hex, is_number, value_of, between,
  same_text→≡, one_of→Mem, one_of-append,
}

-- A `DaemonRequest` with its arguments; one that may be undefined is optional.
pub data Request : Type 0 where
  wireguard_up amneziawg_up openvpn_up : Text → Request
  wireguard_down amneziawg_down openvpn_down tun_down killswitch_off dns_restore : Request
  tun_up : Option Text → Option Text → Option Text → Option Text → List Text → Request
  killswitch_on : Option Text → Option Text → Option Text → Bool → Request
  dns_set : Option Text → Request

pub data VerbError : Type 0 where
  unknown_verb unreadable_file : VerbError

abbrev pub lan_sharing_arg : Text
lan_sharing_arg = codes "lan-sharing"

abbrev nth : ℕ → List Text → Option Text
nth n [] = none
nth zero (t ∷ ts) = some t
nth (suc n) (t ∷ ts) = nth n ts

-- The last word, and the words without it.
abbrev pub last : List Text → Option Text
last [] = none
last (t ∷ []) = some t
last (t ∷ u ∷ ts) = last (u ∷ ts)

abbrev but_last : List Text → List Text
but_last [] = []
but_last (t ∷ []) = []
but_last (t ∷ u ∷ ts) = t ∷ but_last (u ∷ ts)

abbrev pub is_lan_sharing : Option Text → Bool
is_lan_sharing none = false
is_lan_sharing (some t) = same_text t lan_sharing_arg

-- The case `killswitch-on`.
unfoldable pub kill_switch_request : List Text → Request
kill_switch_request rest =
    let lan_sharing = is_lan_sharing (last rest) in
    let words = if lan_sharing then but_last rest else rest in
    killswitch_on (nth 0 words) (nth 1 words) (nth 2 words) lan_sharing

-- `bypassCsv ? bypassCsv.split(',') : []`.
abbrev routes_of : Option Text → List Text
routes_of none = []
routes_of (some csv) = if is_empty csv then [] else split_at 44 csv

-- The case `tun-up`.
unfoldable pub tun_request : List Text → Request
tun_request rest =
    tun_up (nth 1 rest) (nth 2 rest) (nth 3 rest) (nth 4 rest) (routes_of (nth 5 rest))

module _ (read_file : Text → Option Text) where
  -- The configuration that is sent in place of its path.
  abbrev with_file : (Text → Request) → Option Text → Result VerbError Request
  with_file request none = err unreadable_file
  with_file request (some path) = elim (read_file path) [
    | none ↦ err unreadable_file
    | some content ↦ ok (request content)
  ]

  unfoldable pub request_of : Text → List Text → Result VerbError Request
  request_of verb rest =
      if same_text verb (codes "up")
      then with_file wireguard_up (nth 0 rest)
      else if same_text verb (codes "down")
      then ok wireguard_down
      else if same_text verb (codes "awg-up")
      then with_file amneziawg_up (nth 0 rest)
      else if same_text verb (codes "awg-down")
      then ok amneziawg_down
      else if same_text verb (codes "ovpn-up")
      then with_file openvpn_up (nth 0 rest)
      else if same_text verb (codes "ovpn-down")
      then ok openvpn_down
      else if same_text verb (codes "tun-up")
      then ok (tun_request rest)
      else if same_text verb (codes "tun-down")
      then ok tun_down
      else if same_text verb (codes "killswitch-on")
      then ok (kill_switch_request rest)
      else if same_text verb (codes "killswitch-off")
      then ok killswitch_off
      else if same_text verb (codes "dns-set")
      then ok (dns_set (nth 0 rest))
      else if same_text verb (codes "dns-restore")
      then ok dns_restore
      else err unknown_verb

  -- The request that `runViaDaemon` makes of the words.
  abbrev pub run_via_daemon : List Text → Result VerbError Request
  run_via_daemon [] = err unknown_verb
  run_via_daemon (verb ∷ rest) = request_of verb rest

-- `opts.dnsIp && opts.dnsIp !== 'system' ? [opts.dnsIp] : []`.
abbrev pub chosen_resolver : Option Text → Option Text
chosen_resolver none = none
chosen_resolver (some ip) = if is_empty ip || same_text ip (codes "system") then none else some ip

abbrev pub word_of : Option Text → List Text
word_of none = []
word_of (some t) = t ∷ []

-- The words of `enableKillSwitch`.
abbrev pub kill_switch_args : Text → Text → Option Text → Bool → List Text
kill_switch_args iface remote_host dns_ip lan_sharing =
    codes "killswitch-on"
    ∷ iface
    ∷ remote_host
    ∷ (word_of (chosen_resolver dns_ip) ++ (if lan_sharing then lan_sharing_arg ∷ [] else []))

-- The words of `bringUpTun`; the routes are those of `sanitizeBypassRoutes`.
abbrev pub tun_args : Text → Text → Text → Text → List Text → List Text
tun_args socks_addr remote_host gateway iface bypass_routes =
    let csv = join_with 44 bypass_routes in
    codes "tun-up"
    ∷ codes "-"
    ∷ socks_addr
    ∷ remote_host
    ∷ gateway
    ∷ iface
    ∷ (if is_empty csv then [] else csv ∷ [])
