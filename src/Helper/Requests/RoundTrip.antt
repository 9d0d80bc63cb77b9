-- ===== src/Helper/Requests/RoundTrip.antt =====
-- The daemon is asked for what the callers said.
use katacomb_vpn.Prelude.{
  ◌≡◌, refl, ap, ◌∙◌, Bool, true, false, Option, none, some, List, [], ◌∷◌, ◌++◌, if◌then◌else◌, ok,
  all, All,
}
use katacomb_vpn.Guard.Text.{join_with, Text, codes, is_empty, same_text, split_at}
use katacomb_vpn.Guard.Text.Trimming.{has}
use katacomb_vpn.Guard.Text.Pieces.{lacks, split_at-join_with}
use katacomb_vpn.Guard.Bypass.{sanitize_bypass_routes, is_allowed_bypass_cidr}
use katacomb_vpn.Guard.Bypass.Routes.{sanitize_bypass_routes-IsAllowed}
use katacomb_vpn.Helper.Requests.{
  tun_up, killswitch_on, is_lan_sharing, lan_sharing_arg, kill_switch_request, tun_request,
  request_of, run_via_daemon, chosen_resolver, word_of, kill_switch_args, tun_args,
}

-- The daemon gets the interface, the server, the resolver unless it is the system's, and the flag
-- that `enableKillSwitch` was called with, if neither the server nor the resolver is spelled like
-- the flag.
run_via_daemon-kill_switch_args :
    (read_file : Text → Option Text) (iface remote_host : Text) (dns_ip : Option Text)
    (lan_sharing : Bool)
    → same_text remote_host lan_sharing_arg ≡ false
    → is_lan_sharing (chosen_resolver dns_ip) ≡ false
    → run_via_daemon read_file (kill_switch_args iface remote_host dns_ip lan_sharing)
      ≡ ok (killswitch_on (some iface) (some remote_host) (chosen_resolver dns_ip) lan_sharing)
unfolding request_of kill_switch_request
run_via_daemon-kill_switch_args read_file iface remote_host dns_ip lan_sharing r d =
    resolved (chosen_resolver dns_ip) lan_sharing d
  where
    resolved :
        (ip : Option Text) (lan : Bool)
        → is_lan_sharing ip ≡ false
        → run_via_daemon read_file (
            codes "killswitch-on"
            ∷ iface
            ∷ remote_host
            ∷ (word_of ip ++ (if lan then lan_sharing_arg ∷ [] else [])))
          ≡ ok (killswitch_on (some iface) (some remote_host) ip lan)
    resolved none true h = refl
    resolved none false h = rw (r) refl
    resolved (some ip) true h = refl
    resolved (some ip) false h = rw (h) refl

-- A word that is empty is no allowed range.
nonempty : (t : Text) → is_allowed_bypass_cidr t ≡ true → is_empty t ≡ false
nonempty [] h = cc
nonempty (c ∷ t) h = refl

joined_nonempty :
    (t : Text) (ts : List Text) → is_empty t ≡ false → is_empty (join_with 44 (t ∷ ts)) ≡ false
joined_nonempty [] ts h = cc
joined_nonempty (c ∷ t) [] h = refl
joined_nonempty (c ∷ t) (u ∷ ts) h = refl

abbrev IsRoute : Text → Type 0
IsRoute r = (is_allowed_bypass_cidr r ≡ true) × (has 44 r ≡ false)

all_lack : (ts : List Text) → All IsRoute ts → all (lacks 44) ts ≡ true
all_lack [] h = refl
all_lack (t ∷ ts) ((_, l), h) = rw l (all_lack ts h)

carried :
    (read_file : Text → Option Text) (socks_addr remote_host gateway iface csv : Text)
    → is_empty csv ≡ false
    → run_via_daemon read_file (
        codes "tun-up"
        ∷ codes "-"
        ∷ socks_addr
        ∷ remote_host
        ∷ gateway
        ∷ iface
        ∷ (if is_empty csv then [] else csv ∷ []))
      ≡ ok (
          tun_up (some socks_addr) (some remote_host) (some gateway) (some iface) (split_at 44 csv))
unfolding request_of tun_request
carried read_file socks_addr remote_host gateway iface csv n = rw (n) (rw (n) refl)

tun_args_routes :
    (read_file : Text → Option Text) (socks_addr remote_host gateway iface : Text)
    (routes : List Text)
    → All IsRoute routes
    → run_via_daemon read_file (tun_args socks_addr remote_host gateway iface routes)
      ≡ ok (tun_up (some socks_addr) (some remote_host) (some gateway) (some iface) routes)
unfolding request_of tun_request
tun_args_routes read_file socks_addr remote_host gateway iface [] h = refl
tun_args_routes read_file socks_addr remote_host gateway iface (t ∷ ts) ((a, l), h) =
    carried read_file socks_addr remote_host gateway iface (join_with 44 (t ∷ ts))
      (joined_nonempty t ts (nonempty t a))
    ∙ ap (λ rs. ok (tun_up (some socks_addr) (some remote_host) (some gateway) (some iface) rs))
        (split_at-join_with 44 t ts (all_lack (t ∷ ts) ((a, l), h)))

-- The daemon gets the bypass routes that `bringUpTun` sanitized, each as it was and in their order,
-- with the address of the proxy, the server and the uplink.
pub run_via_daemon-tun_args :
    (read_file : Text → Option Text) (socks_addr remote_host gateway iface : Text)
    (routes : List (Option Text))
    → run_via_daemon read_file
        (tun_args socks_addr remote_host gateway iface (sanitize_bypass_routes routes))
      ≡ ok (
          tun_up
            (some socks_addr)
            (some remote_host)
            (some gateway)
            (some iface)
            (sanitize_bypass_routes routes))
run_via_daemon-tun_args read_file socks_addr remote_host gateway iface routes =
    tun_args_routes read_file socks_addr remote_host gateway iface (sanitize_bypass_routes routes)
      (sanitize_bypass_routes-IsAllowed routes).0
