-- ===== src/Guard/Tests.antt =====
-- Runs of the guards at concrete texts.
use katacomb_vpn.Prelude.{
  ◌<◌, ◌≡◌, refl, ◌↔◌, inl, inr, true, some, [], ◌∷◌, ◌++◌, map, ok, err, length, Mem,
}
use katacomb_vpn.Guard.Text.{join_with, Text, codes, trim}
use katacomb_vpn.Guard.Wireguard.{
  peer, key_not_allowed, wg_allowed, assert_safe_wireguard_config, assert_safe_amnezia_wg_config,
  assert_safe_wireguard_value, check_key, wg_host_or_cidr,
}
use katacomb_vpn.Guard.Wireguard.Safety.{
  IsClean, assert_safe_wireguard_config-IsClean, assert_safe_amnezia_wg_config-ok,
}
use katacomb_vpn.Guard.Inbounds.{
  V2RayMetadata, filter_v2ray_metadata, is_all_cleartext, IsClear, filter_v2ray_metadata_iff,
  classify_v2ray_inbound, v2ray_security_badge,
}
use katacomb_vpn.Guard.Bypass.{
  is_allowed_range, sanitize_bypass_routes, is_valid_socks_addr, is_ipv4,
}
use katacomb_vpn.Guard.Bypass.Pane.{parse_split_tunnel_routes, pane_allows_range}
use katacomb_vpn.Guard.Bypass.Routes.{sanitize_bypass_routes-parse_split_tunnel_routes}

-- Two sections with a key each.
abbrev two_sections : Text
two_sections =
    codes "[Interface]"
    ++ ((10 ∷ [])
        ++ (codes " MTU = 1420 "
            ++ ((10 ∷ []) ++ (codes "[peer]" ++ ((10 ∷ []) ++ codes "Endpoint = a.b:51820")))))

-- A hook that `wg-quick` would run as root.
abbrev hooked : Text
hooked = codes "[Interface]" ++ ((10 ∷ []) ++ codes "PostUp = sh")

two_sections_accepted : assert_safe_wireguard_config two_sections ≡ ok (some peer)
unfolding check_key assert_safe_wireguard_value
two_sections_accepted = refl

hooked_refused : assert_safe_wireguard_config hooked ≡ err key_not_allowed
unfolding check_key assert_safe_wireguard_value
hooked_refused = refl

hooked_refused_amnezia : assert_safe_amnezia_wg_config hooked ≡ err key_not_allowed
unfolding check_key assert_safe_wireguard_value
hooked_refused_amnezia = refl

bracketed_cidr : wg_host_or_cidr (codes "[fd00::1]/64") ≡ true
bracketed_cidr = refl

assert_safe_wireguard_config-IsClean_example :
    IsClean wg_allowed assert_safe_wireguard_value (trim (codes " MTU = 1420 "))
assert_safe_wireguard_config-IsClean_example =
    assert_safe_wireguard_config-IsClean two_sections (codes " MTU = 1420 ") two_sections_accepted
      (inr (inl refl))

assert_safe_amnezia_wg_config-ok_example :
    assert_safe_amnezia_wg_config two_sections ≡ ok (some peer)
assert_safe_amnezia_wg_config-ok_example =
    assert_safe_amnezia_wg_config-ok two_sections two_sections_accepted

abbrev in_clear : V2RayMetadata
in_clear = record { proxy_protocol = 1; transport_security = 1 }

abbrev over_tls : V2RayMetadata
over_tls = record { proxy_protocol = 1; transport_security = 2 }

badge_of_tls : v2ray_security_badge (in_clear ∷ over_tls ∷ []) ≡ "VLess+TLS"
unfolding v2ray_security_badge is_all_cleartext classify_v2ray_inbound
badge_of_tls = refl

filter_v2ray_metadata_iff_example :
    ((m : V2RayMetadata)
      → Mem m (filter_v2ray_metadata (in_clear ∷ over_tls ∷ []))
        ↔ (Mem m (in_clear ∷ over_tls ∷ []) × (¬ IsClear m)))
    × ((0 < 2)
        → (length (filter_v2ray_metadata (in_clear ∷ over_tls ∷ [])) ≡ 0)
          ↔ (is_all_cleartext (in_clear ∷ over_tls ∷ []) ≡ true))
filter_v2ray_metadata_iff_example = filter_v2ray_metadata_iff (in_clear ∷ over_tls ∷ [])

-- A range with blanks, a whole default route, and an empty line.
abbrev page : Text
page = join_with 10 (codes " 10.0.0.0/8 " ∷ codes "0.0.0.0/0" ∷ [] ∷ [])

page_invalid : (parse_split_tunnel_routes page).invalid ≡ codes "0.0.0.0/0" ∷ []
unfolding is_allowed_range pane_allows_range
page_invalid = refl

socks_addr_valid : is_valid_socks_addr (codes "127.0.0.1:1080") ≡ true
unfolding is_ipv4
socks_addr_valid = refl

sanitize_bypass_routes-parse_split_tunnel_routes_example :
    sanitize_bypass_routes (map some (codes "10.0.0.0/8" ∷ [])) ≡ codes "10.0.0.0/8" ∷ []
unfolding is_allowed_range pane_allows_range
sanitize_bypass_routes-parse_split_tunnel_routes_example =
    sanitize_bypass_routes-parse_split_tunnel_routes page refl
