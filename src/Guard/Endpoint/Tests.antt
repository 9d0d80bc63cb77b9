-- ===== src/Guard/Endpoint/Tests.antt =====
-- Runs of the pinning of endpoints.
use katacomb_vpn.Prelude.{◌≡◌, refl, Option, none, some, [], ◌∷◌, if◌then◌else◌}
use katacomb_vpn.Guard.Text.{join_with, Text, codes, same_text}
use katacomb_vpn.Guard.Bypass.{is_ipv4}
use katacomb_vpn.Guard.Endpoint.{extract_wireguard_endpoint_host, pin_wireguard_endpoint}
use katacomb_vpn.Guard.Endpoint.Lines.{pinned_host}
use katacomb_vpn.Guard.Endpoint.Pinning.{extract-pin_wireguard_endpoint}

abbrev directory : Text → Option Text
directory host = if same_text host (codes "a.b") then some (codes "1.2.3.4") else none

abbrev peer_text : Text
peer_text = join_with 10 (codes "[Peer]" ∷ codes "Endpoint = a.b:51820 " ∷ [])

pinned_text :
    pin_wireguard_endpoint directory peer_text
    ≡ join_with 10 (codes "[Peer]" ∷ codes "Endpoint = 1.2.3.4:51820" ∷ [])
unfolding is_ipv4
pinned_text = refl

extract-pin_wireguard_endpoint_example :
    extract_wireguard_endpoint_host (pin_wireguard_endpoint directory peer_text)
    ≡ some (codes "1.2.3.4")
unfolding is_ipv4 pinned_host
extract-pin_wireguard_endpoint_example = extract-pin_wireguard_endpoint directory peer_text
